-- ===== src/Manifest/Trees.antt =====
-- What a snapshot of a tree is: one entry for a path, and every entry below directories of the
-- snapshot (src/core/sync/mod.rs, `take_snapshot` walks a directory before its children).
use auto_sync.Prelude.{
  ◌≡◌, true, inl, inr, ◌⊎◌, Option, some, List, [], ◌∷◌, Text, bytes_eq, bytes_eq_iff, sym, ap, ◌∙◌,
  Memᴰ, Bool-cases, if_true, if_false,
}
use auto_sync.Prelude.Maps
use auto_sync.Prelude.Maps.{Map, get-insert}
use auto_sync.Manifest.Entry.{SnapshotEntry, dir, is_type}
use auto_sync.Manifest.Diff.{map_entry_refs_onto, map_entry_refs}
use auto_sync.Manifest.Repair.{is_below}

abbrev pub entry_at : List SnapshotEntry → Text → Option SnapshotEntry
entry_at s p = Maps.get p (map_entry_refs s)

pub record IsTree (s : List SnapshotEntry) : Type 0 where
  pub unique : (e : SnapshotEntry) → Memᴰ e s → entry_at s e.rel_path ≡ some e
  pub parents :
      (p : Text) (e : SnapshotEntry)
      → Memᴰ e s
      → is_below p e.rel_path ≡ true
      → (d : SnapshotEntry) × (entry_at s p ≡ some d) × (is_type d dir ≡ true)

-- The map holds entries of the snapshot, at their own paths.
get_onto :
    (es : List SnapshotEntry) (refs : Map SnapshotEntry) (p : Text) (x : SnapshotEntry)
    → Maps.get p (map_entry_refs_onto refs es) ≡ some x
    → (Memᴰ x es × (x.rel_path ≡ p)) ⊎ (Maps.get p refs ≡ some x)
unfolding map_entry_refs_onto
get_onto [] refs p x h = inr h
get_onto (e ∷ es) refs p x h = elim (get_onto es (Maps.insert e.rel_path e refs) p x h) [
  | inl m ↦ inl (Memᴰ.tail m.0, m.1)
  | inr i ↦ elim (Bool-cases (bytes_eq e.rel_path p)) [
    | inl same ↦
        let q : e ≡ x =
          cc (i, get-insert e.rel_path p e refs, if_true _ (some e) (Maps.get p refs) same) in
        inl (Memᴰ.head (sym q), ap (λ y. y.rel_path) (sym q) ∙ (bytes_eq_iff e.rel_path p).0 same)
    | inr other ↦ inr (
        sym (if_false _ (some e) (Maps.get p refs) other)
        ∙ (sym (get-insert e.rel_path p e refs) ∙ i))
  ]
]

pub Mem-entry_at :
    (s : List SnapshotEntry) (p : Text) (x : SnapshotEntry)
    → entry_at s p ≡ some x
    → Memᴰ x s × (x.rel_path ≡ p)
unfolding map_entry_refs Maps.get
Mem-entry_at s p x h = elim (get_onto s [] p x h) [ inl m ↦ m | inr i ↦ cc ]

-- Two entries of a tree at one path are one.
pub IsTree-eq :
    {s : List SnapshotEntry} (t : IsTree s) (x e : SnapshotEntry)
    → Memᴰ x s
    → Memᴰ e s
    → bytes_eq x.rel_path e.rel_path ≡ true
    → x ≡ e
IsTree-eq {s} t x e mx me same = cc (
  t.unique x mx,
  t.unique e me,
  ap (λ p. entry_at s p) ((bytes_eq_iff x.rel_path e.rel_path).0 same),
)

-- ===== src/Manifest/Converge.antt =====
-- After the steps of `sync_directory_with_transfer` (src/core/sync/mod.rs), comparing again finds
-- nothing to do.
use auto_sync.Prelude.{
  ℕ, ◌≡◌, refl, Bool, true, false, Bool-cases, inl, inr, ◌||◌, Option, some, List, [], ◌++◌, Text,
  bytes_eq, bytes_eq_refl, arith, subst, sym, ap, ◌∙◌, Memᴰ,
}
use auto_sync.Manifest.Entry.{SnapshotEntry, NativeSyncConfig, dir, is_type}
use auto_sync.Manifest.Match.{
  entries_match_with, entry_mode_differs, is_known, entries_match_with_refl,
}
use auto_sync.Manifest.Diff.{
  ManifestDiff, excluded, diff_manifests, map_entry_refs, entries_to_copy, not_dirs,
}
use auto_sync.Manifest.Lists.{entry_diff}
use auto_sync.Manifest.Verdict.{Verdict, missing, added, replaced, synced, chmod, updated, verdict}
use auto_sync.Manifest.Repair.{
  View, dirs_of, copied_entries, write_entries_keep, set_modes_keep, set_modes_hit,
}
use auto_sync.Manifest.Members.{Mem-mode_fixes, Mem-mode_fixes_inv, Mem-copies_inv, Mem-dirs_of_inv}
use auto_sync.Manifest.Steps.{
  replaced_view, prepared_view, mirrored_view, after, mirrored_keep, after-dir, after_copied,
  replaced_keep, no_member,
}
use auto_sync.Manifest.Trees.{IsTree, entry_at, IsTree-eq}

-- What the second comparison needs of an entry at a source entry's path.
pub record Settled (sync : NativeSyncConfig) (exact : Bool) (e : SnapshotEntry)
    (o : Option SnapshotEntry) : Type 0 where
  pub entry : SnapshotEntry
  pub there : o ≡ some entry
  pub same_type : bytes_eq entry.file_type e.file_type ≡ true
  pub matches : (is_type e dir || entries_match_with e entry sync exact) ≡ true
  pub same_mode : entry_mode_differs e entry ≡ false

Settled-self :
    (sync : NativeSyncConfig) (exact : Bool) (e : SnapshotEntry) (o : Option SnapshotEntry)
    → is_known e ≡ true
    → o ≡ some e
    → Settled sync exact e o
unfolding entry_mode_differs
Settled-self sync exact e o known there = record {
  entry = e;
  there = there;
  same_type = bytes_eq_refl e.file_type;
  matches = ground (arith, entries_match_with_refl e sync exact known);
  same_mode = ground arith;
}

-- A change of mode alone matters to neither test.
matches-mode :
    (e x : SnapshotEntry) (sync : NativeSyncConfig) (exact : Bool) (mode : ℕ)
    → entries_match_with e (record x { mode = mode }) sync exact ≡ entries_match_with e x sync exact
unfolding entries_match_with
matches-mode e x sync exact mode = refl

same-mode : (e x : SnapshotEntry) → entry_mode_differs e (record x { mode = e.mode }) ≡ false
unfolding entry_mode_differs
same-mode e x = ground arith

no_copies :
    (d : ManifestDiff)
    → d.transfer ≡ []
    → d.type_mismatch ≡ []
    → copied_entries (entries_to_copy d) ≡ []
unfolding entries_to_copy not_dirs
no_copies d t m =
    ap (λ l. copied_entries (l ++ not_dirs d.type_mismatch)) t
    ∙ ap (λ l. copied_entries (not_dirs l)) m

module _ (source dst : List SnapshotEntry) (excludes : List Text) (sync : NativeSyncConfig)
    (exact : Bool) (source_tree : IsTree source) (dst_tree : IsTree dst) where
  abbrev of_entry : SnapshotEntry → ManifestDiff
  of_entry = entry_diff (map_entry_refs dst) excludes sync exact

  abbrev diff : ManifestDiff
  diff = diff_manifests source dst excludes sync exact

  abbrev now : View
  now = after source dst excludes sync exact source_tree dst_tree

  -- An entry that only its mode may be wrong of is not written before the last step.
  untouched :
      (e x : SnapshotEntry)
      → Memᴰ e source
      → is_type e dir ≡ false
      → entry_at dst e.rel_path ≡ some x
      → (of_entry e).type_mismatch ≡ []
      → (of_entry e).transfer ≡ []
      → mirrored_view source dst excludes sync exact source_tree dst_tree e.rel_path ≡ some x
  unfolding entries_to_copy
  untouched e x m file found quiet idle =
      mirrored_keep source dst excludes sync exact source_tree dst_tree e m
      ∙ (write_entries_keep _ (prepared_view source dst excludes sync exact source_tree dst_tree)
            e.rel_path no_copy
          ∙ (write_entries_keep (dirs_of source)
                (replaced_view source dst excludes sync exact source_tree dst_tree) e.rel_path
                no_dir
              ∙ replaced_keep source dst excludes sync exact source_tree dst_tree e x m found
                  quiet))
    where
      no_copy :
          (c : SnapshotEntry)
          → Memᴰ c (copied_entries (entries_to_copy diff))
          → bytes_eq c.rel_path e.rel_path ≡ false
      no_copy c cm = elim (Bool-cases (bytes_eq c.rel_path e.rel_path)) [
        | inl same ↦
            let (cs, mine) = Mem-copies_inv source dst excludes sync exact c cm in
            let p : c ≡ e = IsTree-eq source_tree c e cs m same in
            no_member (no_copies (of_entry e) idle quiet)
              (subst (λ z. Memᴰ z (copied_entries (entries_to_copy (of_entry z)))) p mine)
        | inr other ↦ other
      ]

      no_dir :
          (d : SnapshotEntry) → Memᴰ d (dirs_of source) → bytes_eq d.rel_path e.rel_path ≡ false
      no_dir d dm = elim (Bool-cases (bytes_eq d.rel_path e.rel_path)) [
        | inl same ↦
            let (ds, is_dir) = Mem-dirs_of_inv source d dm in
            cc (ap (λ z. is_type z dir) (IsTree-eq source_tree d e ds m same), is_dir, file)
        | inr other ↦ other
      ]

  no_fix :
      (e : SnapshotEntry)
      → Memᴰ e source
      → (of_entry e).mode_fixes ≡ []
      → (c : SnapshotEntry) → Memᴰ c diff.mode_fixes
      → bytes_eq c.rel_path e.rel_path ≡ false
  no_fix e m quiet c cm = elim (Bool-cases (bytes_eq c.rel_path e.rel_path)) [
    | inl same ↦
        let (cs, mine) = Mem-mode_fixes_inv source dst excludes sync exact c cm in
        let p : c ≡ e = IsTree-eq source_tree c e cs m same in
        no_member quiet (subst (λ z. Memᴰ z (of_entry z).mode_fixes) p mine)
    | inr other ↦ other
  ]

  Settled-Verdict :
      (e : SnapshotEntry)
      → Memᴰ e source
      → is_known e ≡ true
      → Verdict sync exact e (entry_at dst e.rel_path) (of_entry e)
      → Settled sync exact e (now e.rel_path)
  unfolding entries_to_copy not_dirs
  Settled-Verdict e m known (missing a d q) =
      Settled-self sync exact e _ known
        (after-dir source dst excludes sync exact source_tree dst_tree e m d)
  Settled-Verdict e m known (added a f q) = Settled-self sync exact e _ known (
      after_copied source dst excludes sync exact source_tree dst_tree e m
        (subst (λ z. Memᴰ e (copied_entries (entries_to_copy z))) (sym q) (Memᴰ.head refl)))
  Settled-Verdict e m known (updated x found t n q) = Settled-self sync exact e _ known (
      after_copied source dst excludes sync exact source_tree dst_tree e m
        (subst (λ z. Memᴰ e (copied_entries (entries_to_copy z))) (sym q) (Memᴰ.head refl)))
  Settled-Verdict e m known (replaced x found t q) = elim (Bool-cases (is_type e dir)) [
    | inl d ↦
        Settled-self sync exact e _ known
          (after-dir source dst excludes sync exact source_tree dst_tree e m d)
    | inr f ↦ Settled-self sync exact e _ known (
        after_copied source dst excludes sync exact source_tree dst_tree e m (
          subst (λ z. Memᴰ e (copied_entries (entries_to_copy z))) (sym q) (rw f (Memᴰ.head refl))))
  ]
  Settled-Verdict e m known (synced x found t same mode q) = elim (Bool-cases (is_type e dir)) [
    | inl d ↦
        Settled-self sync exact e _ known
          (after-dir source dst excludes sync exact source_tree dst_tree e m d)
    | inr f ↦ record {
      entry = x;
      there =
          set_modes_keep diff.mode_fixes _ e.rel_path (no_fix e m (ap (λ z. z.mode_fixes) q))
          ∙ untouched e x m f found (ap (λ z. z.type_mismatch) q) (ap (λ z. z.transfer) q);
      same_type = t;
      matches = same;
      same_mode = mode;
    }
  ]
  Settled-Verdict e m known (chmod x found t same mode q) = elim (Bool-cases (is_type e dir)) [
    | inl d ↦
        Settled-self sync exact e _ known
          (after-dir source dst excludes sync exact source_tree dst_tree e m d)
    | inr f ↦ record {
      entry = record x { mode = e.mode };
      there =
          set_modes_hit diff.mode_fixes _ e x
            (λ c cm.
              IsTree-eq source_tree c e (Mem-mode_fixes_inv source dst excludes sync exact c cm).0
                m)
            (untouched e x m f found (ap (λ z. z.type_mismatch) q) (ap (λ z. z.transfer) q))
            (inl (
              Mem-mode_fixes source dst excludes sync exact e m
                (subst (λ z. Memᴰ e z.mode_fixes) (sym q) (Memᴰ.head refl))));
      same_type = t;
      matches = ap (λ b. is_type e dir || b) (matches-mode e x sync exact e.mode) ∙ same;
      same_mode = same-mode e x;
    }
  ]

  -- At the path of every source entry that is not excluded stands an entry in sync with it.
  pub settled :
      (e : SnapshotEntry)
      → Memᴰ e source
      → is_known e ≡ true
      → excluded excludes e ≡ false
      → Settled sync exact e (now e.rel_path)
  settled e m known kept =
      Settled-Verdict e m known (verdict sync exact e (map_entry_refs dst) excludes kept)

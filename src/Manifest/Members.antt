-- ===== src/Manifest/Members.antt =====
-- Who stands in the work lists of `diff_manifests` (src/core/sync/mod.rs).
use auto_sync.Prelude.{
  ◌≡◌, refl, Bool, true, false, inl, inr, Option, none, some, List, [], ◌∷◌, ◌++◌, Text, arith,
  if◌then◌else◌, if_true, subst, sym, ap, ◌∙◌, Memᴰ, Member-append_cases, Member-append_left,
  Member-append_right, Member-collect, Member-collect_inv, All, All-member,
}
use auto_sync.Prelude.Maps
use auto_sync.Prelude.Maps.{Map}
use auto_sync.Manifest.Entry.{SnapshotEntry, NativeSyncConfig, dir, is_type}
use auto_sync.Manifest.Diff.{
  ManifestDiff, no_diff, excluded, diff_found, add_extra, diff_manifests, not_dirs, entries_to_copy,
  map_entry_refs,
}
use auto_sync.Manifest.Lists.{entry_diff, extra_diff}
use auto_sync.Manifest.Account.{
  transfer-diff_manifests, type_mismatch-diff_manifests, mode_fixes-diff_manifests,
  extras-diff_manifests,
}
use auto_sync.Manifest.Repair.{copied_entries, dirs_of}

Mem-singleton {ℓ} : {A : Type ℓ} {x a : A} → Memᴰ x (a ∷ []) → x ≡ a
Mem-singleton (Memᴰ.head p) = p
Mem-singleton (Memᴰ.tail m) = elim m [ ]

-- The entries to copy for one verdict.
abbrev copies_of : ManifestDiff → List SnapshotEntry
copies_of d = copied_entries (entries_to_copy d)

copied-append :
    (xs ys : List (SnapshotEntry × Option SnapshotEntry))
    → copied_entries (xs ++ ys) ≡ copied_entries xs ++ copied_entries ys
copied-append [] ys = refl
copied-append ((e, o) ∷ xs) ys = ap (λ l. e ∷ l) (copied-append xs ys)

Mem-copied :
    (xs : List (SnapshotEntry × Option SnapshotEntry)) (e : SnapshotEntry)
    (o : Option SnapshotEntry)
    → Memᴰ (e, o) xs
    → Memᴰ e (copied_entries xs)
Mem-copied [] e o m = elim m [ ]
Mem-copied ((x, y) ∷ xs) e o (Memᴰ.head p) = Memᴰ.head (ap (λ t. t.0) p)
Mem-copied ((x, y) ∷ xs) e o (Memᴰ.tail m) = Memᴰ.tail (Mem-copied xs e o m)

Mem-copied_inv :
    (xs : List (SnapshotEntry × Option SnapshotEntry)) (e : SnapshotEntry)
    → Memᴰ e (copied_entries xs)
    → (o : Option SnapshotEntry) × Memᴰ (e, o) xs
Mem-copied_inv [] e m = elim m [ ]
Mem-copied_inv ((x, y) ∷ xs) e (Memᴰ.head p) = (y, Memᴰ.head (ap (λ z. (z, y)) p))
Mem-copied_inv ((x, y) ∷ xs) e (Memᴰ.tail m) =
    let (o, n) = Mem-copied_inv xs e m in (o, Memᴰ.tail n)

Mem-if_true {ℓ} :
    {A : Type ℓ} (b : Bool) (x a : A) → Memᴰ x (if b then a ∷ [] else []) → (b ≡ true) × (x ≡ a)
Mem-if_true true x a m = (refl, Mem-singleton m)
Mem-if_true false x a m = elim m [ ]

Mem-if_false {ℓ} :
    {A : Type ℓ} (b : Bool) (x a : A) → Memᴰ x (if b then [] else a ∷ []) → (b ≡ false) × (x ≡ a)
Mem-if_false true x a m = elim m [ ]
Mem-if_false false x a m = (refl, Mem-singleton m)

Mem-not_dirs :
    (es : List SnapshotEntry) (e : SnapshotEntry)
    → Memᴰ e es
    → is_type e dir ≡ false
    → Memᴰ (e, none) (not_dirs es)
unfolding not_dirs
Mem-not_dirs es e m f =
    Member-collect (λ y. if is_type y dir then [] else (y, none) ∷ []) es e (e, none) m
      (rw f (Memᴰ.head refl))

Mem-not_dirs_inv :
    (es : List SnapshotEntry) (e : SnapshotEntry) (o : Option SnapshotEntry)
    → Memᴰ (e, o) (not_dirs es)
    → Memᴰ e es × (is_type e dir ≡ false)
unfolding not_dirs
Mem-not_dirs_inv es e o m =
    let (a, am, em) =
      Member-collect_inv (λ y. if is_type y dir then [] else (y, none) ∷ []) es (e, o) m in
    let (f, p) = Mem-if_false (is_type a dir) (e, o) (a, none) em in
    let q : e ≡ a = ap (λ t. t.0) p in
    (subst (λ y. Memᴰ y es) (sym q) am, ap (λ y. is_type y dir) q ∙ f)

pub Mem-dirs_of :
    (es : List SnapshotEntry) (e : SnapshotEntry)
    → Memᴰ e es
    → is_type e dir ≡ true
    → Memᴰ e (dirs_of es)
unfolding dirs_of
Mem-dirs_of es e m d =
    Member-collect (λ y. if is_type y dir then y ∷ [] else []) es e e m (rw d (Memᴰ.head refl))

pub Mem-dirs_of_inv :
    (es : List SnapshotEntry) (e : SnapshotEntry)
    → Memᴰ e (dirs_of es)
    → Memᴰ e es × (is_type e dir ≡ true)
unfolding dirs_of
Mem-dirs_of_inv es e m =
    let (a, am, em) = Member-collect_inv (λ y. if is_type y dir then y ∷ [] else []) es e m in
    let (d, q) = Mem-if_true (is_type a dir) e a em in
    (subst (λ y. Memᴰ y es) (sym q) am, ap (λ y. is_type y dir) q ∙ d)

module _ (source_snapshot dst_snapshot : List SnapshotEntry) (excludes : List Text)
    (sync : NativeSyncConfig) (exact : Bool) where
  abbrev of_entry : SnapshotEntry → ManifestDiff
  of_entry = entry_diff (map_entry_refs dst_snapshot) excludes sync exact

  abbrev diff : ManifestDiff
  diff = diff_manifests source_snapshot dst_snapshot excludes sync exact

  -- What an entry adds to the lists is about itself.
  abbrev Own : SnapshotEntry → ManifestDiff → Type 0
  Own a d =
      All (λ p. p.0 ≡ a) d.transfer
      × All (λ e. e ≡ a) d.type_mismatch
      × All (λ e. e ≡ a) d.mode_fixes

  Own-diff_found :
      (a : SnapshotEntry) (o : Option SnapshotEntry) → Own a (diff_found sync exact no_diff a o)
  unfolding diff_found
  Own-diff_found a none = ground arith
  Own-diff_found a (some x) = ground arith

  Own-if :
      (a : SnapshotEntry) (b : Bool) (d : ManifestDiff) → Own a d → Own a (if b then no_diff else d)
  Own-if a true d h = (tt, tt, tt)
  Own-if a false d h = h

  Own-of_entry : (a : SnapshotEntry) → Own a (of_entry a)
  unfolding entry_diff
  Own-of_entry a =
      Own-if a (excluded excludes a) _
        (Own-diff_found a (Maps.get a.rel_path (map_entry_refs dst_snapshot)))

  -- An entry stands in a list exactly if it is a source entry that adds itself to the list.
  pub Mem-type_mismatch :
      (e : SnapshotEntry)
      → Memᴰ e source_snapshot
      → Memᴰ e (of_entry e).type_mismatch
      → Memᴰ e diff.type_mismatch
  Mem-type_mismatch e s m =
      rw type_mismatch-diff_manifests
        (Member-collect (λ y. (of_entry y).type_mismatch) source_snapshot e e s m)

  pub Mem-type_mismatch_inv :
      (e : SnapshotEntry)
      → Memᴰ e diff.type_mismatch
      → Memᴰ e source_snapshot × Memᴰ e (of_entry e).type_mismatch
  Mem-type_mismatch_inv e m =
      let (a, am, em) =
        Member-collect_inv (λ y. (of_entry y).type_mismatch) source_snapshot e
          (rw type_mismatch-diff_manifests at m) in
      let p : e ≡ a = All-member (λ y. y ≡ a) _ e (Own-of_entry a).1 em in
      subst (λ y. Memᴰ y source_snapshot × Memᴰ e (of_entry y).type_mismatch) (sym p) (am, em)

  pub Mem-mode_fixes :
      (e : SnapshotEntry)
      → Memᴰ e source_snapshot
      → Memᴰ e (of_entry e).mode_fixes
      → Memᴰ e diff.mode_fixes
  Mem-mode_fixes e s m =
      rw mode_fixes-diff_manifests
        (Member-collect (λ y. (of_entry y).mode_fixes) source_snapshot e e s m)

  pub Mem-mode_fixes_inv :
      (e : SnapshotEntry)
      → Memᴰ e diff.mode_fixes
      → Memᴰ e source_snapshot × Memᴰ e (of_entry e).mode_fixes
  Mem-mode_fixes_inv e m =
      let (a, am, em) =
        Member-collect_inv (λ y. (of_entry y).mode_fixes) source_snapshot e
          (rw mode_fixes-diff_manifests at m) in
      let p : e ≡ a = All-member (λ y. y ≡ a) _ e (Own-of_entry a).2 em in
      subst (λ y. Memᴰ y source_snapshot × Memᴰ e (of_entry y).mode_fixes) (sym p) (am, em)

  Mem-transfer_inv :
      (e : SnapshotEntry) (o : Option SnapshotEntry)
      → Memᴰ (e, o) diff.transfer
      → Memᴰ e source_snapshot × Memᴰ (e, o) (of_entry e).transfer
  Mem-transfer_inv e o m =
      let (a, am, em) =
        Member-collect_inv (λ y. (of_entry y).transfer) source_snapshot (e, o)
          (rw transfer-diff_manifests at m) in
      let p : e ≡ a = All-member (λ y. y.0 ≡ a) _ (e, o) (Own-of_entry a).0 em in
      subst (λ y. Memᴰ y source_snapshot × Memᴰ (e, o) (of_entry y).transfer) (sym p) (am, em)

  pub Mem-copies :
      (e : SnapshotEntry)
      → Memᴰ e source_snapshot
      → Memᴰ e (copies_of (of_entry e))
      → Memᴰ e (copies_of diff)
  unfolding entries_to_copy
  Mem-copies e s m =
      let (o, om) = Mem-copied_inv _ e m in
      elim (Member-append_cases (e, o) (of_entry e).transfer (not_dirs (of_entry e).type_mismatch)
        om) [
          | inl t ↦ Mem-copied _ e o (
              Member-append_left (e, o) diff.transfer _
                (rw transfer-diff_manifests
                  (Member-collect (λ y. (of_entry y).transfer) source_snapshot e (e, o) s t)))
          | inr t ↦
              let (tm, f) = Mem-not_dirs_inv _ e o t in
              Mem-copied _ e none (
                Member-append_right (e, none) diff.transfer (not_dirs diff.type_mismatch)
                  (Mem-not_dirs diff.type_mismatch e (Mem-type_mismatch e s tm) f))
        ]

  pub Mem-copies_inv :
      (e : SnapshotEntry)
      → Memᴰ e (copies_of diff)
      → Memᴰ e source_snapshot × Memᴰ e (copies_of (of_entry e))
  unfolding entries_to_copy
  Mem-copies_inv e m =
      let (o, om) = Mem-copied_inv _ e m in
      elim (Member-append_cases (e, o) diff.transfer (not_dirs diff.type_mismatch) om) [
        | inl t ↦
            let (s, et) = Mem-transfer_inv e o t in
            (s, Mem-copied _ e o (Member-append_left (e, o) (of_entry e).transfer _ et))
        | inr t ↦
            let (tm, f) = Mem-not_dirs_inv _ e o t in
            let (s, et) = Mem-type_mismatch_inv e tm in
            (
              s,
              Mem-copied _ e none (
                  Member-append_right (e, none) (of_entry e).transfer
                    (not_dirs (of_entry e).type_mismatch) (Mem-not_dirs _ e et f)),
            )
      ]

  -- The extras, in mirror mode: destination entries at paths that the source does not have.
  extra_found :
      (a e : SnapshotEntry) (o : Option SnapshotEntry)
      → Memᴰ e (add_extra no_diff a o).extras
      → (o ≡ none) × (e ≡ a)
  unfolding add_extra
  extra_found a e none m = (refl, Mem-singleton m)
  extra_found a e (some x) m = elim m [ ]

  extra_kept :
      (a e : SnapshotEntry) (b : Bool) (o : Option SnapshotEntry)
      → Memᴰ e (if b then no_diff else add_extra no_diff a o).extras
      → (o ≡ none) × (e ≡ a)
  extra_kept a e true o m = elim m [ ]
  extra_kept a e false o m = extra_found a e o m

  pub Mem-extras_inv :
      sync.mirror ≡ true
      → (e : SnapshotEntry) → Memᴰ e diff.extras
      → Maps.get e.rel_path (map_entry_refs source_snapshot) ≡ none
  unfolding extra_diff
  Mem-extras_inv mirror e m =
      let (a, am, em) =
        Member-collect_inv (λ y. (extra_diff (map_entry_refs source_snapshot) excludes y).extras)
          dst_snapshot e
          (subst (λ l. Memᴰ e l)
            (extras-diff_manifests source_snapshot dst_snapshot excludes sync exact
              ∙ if_true sync.mirror _ [] mirror)
            m) in
      let (n, p) =
        extra_kept a e (excluded excludes a) (Maps.get a.rel_path (map_entry_refs source_snapshot))
          em in
      ap (λ y. Maps.get y.rel_path (map_entry_refs source_snapshot)) p ∙ n

  pub Mem-extras :
      sync.mirror ≡ true
      → (e : SnapshotEntry) → Memᴰ e dst_snapshot
      → excluded excludes e ≡ false
      → Maps.get e.rel_path (map_entry_refs source_snapshot) ≡ none
      → Memᴰ e diff.extras
  unfolding extra_diff add_extra
  Mem-extras mirror e m kept absent =
      subst (λ l. Memᴰ e l)
        (sym (
          extras-diff_manifests source_snapshot dst_snapshot excludes sync exact
          ∙ if_true sync.mirror _ [] mirror))
        (Member-collect (λ y. (extra_diff (map_entry_refs source_snapshot) excludes y).extras)
          dst_snapshot e e m (rw (kept, absent, add_extra) (Memᴰ.head refl)))

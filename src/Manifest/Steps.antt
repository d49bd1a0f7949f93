-- ===== src/Manifest/Steps.antt =====
-- The steps of `sync_directory_with_transfer` (src/core/sync/mod.rs) one by one: which entries each
-- leaves alone, and which it writes.
use auto_sync.Prelude.{
  ◌≡◌, refl, Bool, true, false, Bool-cases, inl, inr, ◌||◌, none, some, List, [], Text, bytes_eq,
  bytes_eq_iff, if◌then◌else◌, if_true, if_false, subst, sym, ap, ◌∙◌, Memᴰ,
}
use auto_sync.Manifest.Entry.{SnapshotEntry, NativeSyncConfig, dir, is_type}
use auto_sync.Manifest.Diff.{
  ManifestDiff, excluded, diff_manifests, map_entry_refs, entries_to_copy,
}
use auto_sync.Manifest.Lists.{entry_diff}
use auto_sync.Manifest.Verdict.{
  Verdict, missing, added, replaced, synced, chmod, updated, verdict, entry_diff_dropped,
}
use auto_sync.Manifest.Repair.{
  View, is_below, remove_paths, write_entries, set_modes, dirs_of, copied_entries,
  remove_paths_keep, write_entries_same, write_entries_hit, set_modes_hit,
}
use auto_sync.Manifest.Members.{
  Mem-type_mismatch_inv, Mem-mode_fixes_inv, Mem-copies, Mem-copies_inv, Mem-extras_inv,
  Mem-dirs_of, Mem-dirs_of_inv,
}
use auto_sync.Manifest.Trees.{IsTree, entry_at, Mem-entry_at, IsTree-eq}

pub no_member {ℓ κ} : {A : Type ℓ} {C : Type κ} {x : A} {xs : List A} → xs ≡ [] → Memᴰ x xs → C
no_member {x = x} p m = elim (subst (λ l. Memᴰ x l) p m) [ ]

module _ (source dst : List SnapshotEntry) (excludes : List Text) (sync : NativeSyncConfig)
    (exact : Bool) (source_tree : IsTree source) (dst_tree : IsTree dst) where
  abbrev pub of_entry : SnapshotEntry → ManifestDiff
  of_entry = entry_diff (map_entry_refs dst) excludes sync exact

  abbrev pub diff : ManifestDiff
  diff = diff_manifests source dst excludes sync exact

  abbrev pub replaced_view : View
  replaced_view = remove_paths diff.type_mismatch (entry_at dst)

  abbrev pub prepared_view : View
  prepared_view = write_entries (dirs_of source) replaced_view

  abbrev pub copied_view : View
  copied_view = write_entries (copied_entries (entries_to_copy diff)) prepared_view

  abbrev pub mirrored_view : View
  mirrored_view = if sync.mirror then remove_paths diff.extras copied_view else copied_view

  abbrev pub after : View
  after = set_modes diff.mode_fixes mirrored_view

  pub copied_same :
      (e : SnapshotEntry)
      → Memᴰ e source
      → (x : SnapshotEntry) → Memᴰ x (copied_entries (entries_to_copy diff))
      → bytes_eq x.rel_path e.rel_path ≡ true
      → x ≡ e
  copied_same e m x xm same =
      IsTree-eq source_tree x e (Mem-copies_inv source dst excludes sync exact x xm).0 m same

  -- The mirror step leaves the source's paths alone.
  extra_misses :
      (e : SnapshotEntry)
      → Memᴰ e source
      → (x : SnapshotEntry) → entry_at source x.rel_path ≡ none
      → (bytes_eq x.rel_path e.rel_path || is_below x.rel_path e.rel_path) ≡ false
  extra_misses e m x absent = elim (Bool-cases (bytes_eq x.rel_path e.rel_path)) [
    | inl same ↦ cc (
      source_tree.unique e m,
      absent,
      ap (entry_at source) ((bytes_eq_iff x.rel_path e.rel_path).0 same),
    )
    | inr differs ↦ rw differs (elim (Bool-cases (is_below x.rel_path e.rel_path)) [
      | inl below ↦
          let (d, found, t) = source_tree.parents x.rel_path e m below in cc (found, absent)
      | inr beside ↦ beside
    ])
  ]

  pub mirrored_keep :
      (e : SnapshotEntry) → Memᴰ e source → mirrored_view e.rel_path ≡ copied_view e.rel_path
  mirrored_keep e m = elim (Bool-cases sync.mirror) [
    | inl mirror ↦
        ap (λ (v : View). v e.rel_path) (if_true sync.mirror _ copied_view mirror)
        ∙ remove_paths_keep diff.extras copied_view e.rel_path
            (λ x xm. extra_misses e m x (Mem-extras_inv source dst excludes sync exact mirror x xm))
    | inr plain ↦ ap (λ (v : View). v e.rel_path) (if_false sync.mirror _ copied_view plain)
  ]

  -- A source entry that was written is there at the end.
  after_written :
      (e : SnapshotEntry)
      → Memᴰ e source
      → copied_view e.rel_path ≡ some e
      → after e.rel_path ≡ some e
  after_written e m h =
      set_modes_hit diff.mode_fixes mirrored_view e e
        (λ x xm.
          IsTree-eq source_tree x e (Mem-mode_fixes_inv source dst excludes sync exact x xm).0 m)
        (mirrored_keep e m ∙ h) (inr refl)

  pub after-dir :
      (e : SnapshotEntry) → Memᴰ e source → is_type e dir ≡ true → after e.rel_path ≡ some e
  after-dir e m d = after_written e m (
      write_entries_same _ prepared_view e (copied_same e m) (
        write_entries_hit (dirs_of source) replaced_view e
          (λ x xm. IsTree-eq source_tree x e (Mem-dirs_of_inv source x xm).0 m)
          (Mem-dirs_of source e m d)))

  pub after_copied :
      (e : SnapshotEntry)
      → Memᴰ e source
      → Memᴰ e (copied_entries (entries_to_copy (of_entry e)))
      → after e.rel_path ≡ some e
  after_copied e m c = after_written e m (
      write_entries_hit _ prepared_view e (copied_same e m)
        (Mem-copies source dst excludes sync exact e m c))

  -- A replaced entry has another type in the destination.
  Verdict-replaced :
      (m : SnapshotEntry) (d : ManifestDiff)
      → Verdict sync exact m (entry_at dst m.rel_path) d
      → Memᴰ m d.type_mismatch
      → (y : SnapshotEntry) × (entry_at dst m.rel_path ≡ some y)
        × (bytes_eq y.file_type m.file_type ≡ false)
  Verdict-replaced m d (replaced y found t e) mm = (y, found, t)
  Verdict-replaced m d (missing a b e) mm = no_member (ap (λ z. z.type_mismatch) e) mm
  Verdict-replaced m d (added a b e) mm = no_member (ap (λ z. z.type_mismatch) e) mm
  Verdict-replaced m d (synced y a b c f e) mm = no_member (ap (λ z. z.type_mismatch) e) mm
  Verdict-replaced m d (chmod y a b c f e) mm = no_member (ap (λ z. z.type_mismatch) e) mm
  Verdict-replaced m d (updated y a b c e) mm = no_member (ap (λ z. z.type_mismatch) e) mm

  mismatched :
      (m : SnapshotEntry)
      → Memᴰ m (of_entry m).type_mismatch
      → (y : SnapshotEntry) × (entry_at dst m.rel_path ≡ some y)
        × (bytes_eq y.file_type m.file_type ≡ false)
  mismatched m mm = elim (Bool-cases (excluded excludes m)) [
    | inl dropped ↦
        no_member
          (ap (λ z. z.type_mismatch)
            (entry_diff_dropped (map_entry_refs dst) excludes sync exact m dropped))
          mm
    | inr kept ↦
        Verdict-replaced m (of_entry m) (verdict sync exact m (map_entry_refs dst) excludes kept) mm
  ]

  below_is_dir :
      (e x m : SnapshotEntry)
      → Memᴰ e source
      → entry_at dst e.rel_path ≡ some x
      → Memᴰ m diff.type_mismatch
      → is_below m.rel_path e.rel_path ≡ true
      → ⊥
  below_is_dir e x m es found mm below =
      let (ms, mine) = Mem-type_mismatch_inv source dst excludes sync exact m mm in
      let (y, at, differs) = mismatched m mine in
      let (d, source_at, source_dir) = source_tree.parents m.rel_path e es below in
      let (xs, same_path) = Mem-entry_at dst e.rel_path x found in
      let (d', dst_at, dst_dir) = dst_tree.parents m.rel_path x xs (rw same_path below) in
      let p : m ≡ d = cc (source_tree.unique m ms, source_at) in
      let q : y ≡ d' = cc (at, dst_at) in
      let m_dir : bytes_eq m.file_type dir ≡ true = ap (λ z. is_type z dir) p ∙ source_dir in
      let y_dir : bytes_eq y.file_type dir ≡ true = ap (λ z. is_type z dir) q ∙ dst_dir in
      cc (
        differs,
        (bytes_eq_iff y.file_type m.file_type).1
            ((bytes_eq_iff y.file_type dir).0 y_dir ∙ sym ((bytes_eq_iff m.file_type dir).0 m_dir)),
      )

  -- The first step leaves alone what stands at the path of a source entry that is not replaced.
  pub replaced_keep :
      (e x : SnapshotEntry)
      → Memᴰ e source
      → entry_at dst e.rel_path ≡ some x
      → (of_entry e).type_mismatch ≡ []
      → replaced_view e.rel_path ≡ some x
  replaced_keep e x es found quiet =
      remove_paths_keep diff.type_mismatch (entry_at dst) e.rel_path misses ∙ found
    where
      misses :
          (m : SnapshotEntry)
          → Memᴰ m diff.type_mismatch
          → (bytes_eq m.rel_path e.rel_path || is_below m.rel_path e.rel_path) ≡ false
      misses m mm = elim (Bool-cases (bytes_eq m.rel_path e.rel_path)) [
        | inl same ↦
            let (ms, mine) = Mem-type_mismatch_inv source dst excludes sync exact m mm in
            let p : m ≡ e = IsTree-eq source_tree m e ms es same in
            absurd (no_member quiet (subst (λ z. Memᴰ z (of_entry z).type_mismatch) p mine))
        | inr differs ↦ rw differs (elim (Bool-cases (is_below m.rel_path e.rel_path)) [
          | inl below ↦ absurd (below_is_dir e x m es found mm below)
          | inr beside ↦ beside
        ])
      ]

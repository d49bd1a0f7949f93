-- ===== src/Manifest/Mirror.antt =====
-- The mirror step of `sync_directory_with_transfer` (src/core/sync/mod.rs), and the second comparison.
use auto_sync.Prelude.{
  ◌≡◌, refl, Bool, true, false, Bool-cases, inl, inr, ◌||◌, Option, none, some, List, [], Text,
  bytes_eq, bytes_eq_iff, arith, if◌then◌else◌, if_true, if_false, subst, sym, ap, ◌∙◌, Memᴰ,
  collect-nil,
}
use auto_sync.Prelude.Maps
use auto_sync.Prelude.Maps.{Map}
use auto_sync.Manifest.Entry.{SnapshotEntry, NativeSyncConfig, dir, is_type}
use auto_sync.Manifest.Match.{entries_match_with, entry_mode_differs, is_known}
use auto_sync.Manifest.Diff.{
  ManifestDiff, no_diff, excluded, diff_found, add_extra, diff_manifests, map_entry_refs,
}
use auto_sync.Manifest.Lists.{entry_diff, extra_diff}
use auto_sync.Manifest.Repair.{
  View, remove_paths, dirs_of, sync_directory, remove_paths-none, remove_paths_gone,
  write_entries_keep, set_modes-none,
}
use auto_sync.Manifest.Members.{Mem-copies_inv, Mem-extras, Mem-dirs_of_inv}
use auto_sync.Manifest.Account.{
  transfer-diff_manifests, type_mismatch-diff_manifests, missing_dirs-diff_manifests,
  mode_fixes-diff_manifests, extras-diff_manifests,
}
use auto_sync.Manifest.Steps.{replaced_view, copied_view, after}
use auto_sync.Manifest.Converge.{Settled, settled}
use auto_sync.Paths.Components.{components}
use auto_sync.Paths.Excludes.{is_rel_excluded}
use auto_sync.Manifest.Trees.{IsTree, entry_at, Mem-entry_at}

module _ (source dst : List SnapshotEntry) (excludes : List Text) (sync : NativeSyncConfig)
    (exact : Bool) (source_tree : IsTree source) (dst_tree : IsTree dst)
    (mirror : sync.mirror ≡ true) (q : Text)
    (kept : is_rel_excluded (components q) excludes ≡ false)
    (absent : entry_at source q ≡ none) where
  source_misses : (e : SnapshotEntry) → Memᴰ e source → bytes_eq e.rel_path q ≡ false
  source_misses e m = elim (Bool-cases (bytes_eq e.rel_path q)) [
    | inl same ↦
        cc (
          source_tree.unique e m,
          absent,
          ap (entry_at source) ((bytes_eq_iff e.rel_path q).0 same),
        )
    | inr other ↦ other
  ]

  unwritten :
      copied_view source dst excludes sync exact source_tree dst_tree q
      ≡ replaced_view source dst excludes sync exact source_tree dst_tree q
  unwritten =
      write_entries_keep _ _ q
        (λ c m. source_misses c (Mem-copies_inv source dst excludes sync exact c m).0)
      ∙ write_entries_keep (dirs_of source) _ q
          (λ d m. source_misses d (Mem-dirs_of_inv source d m).0)

  abbrev extras : List SnapshotEntry
  extras = (diff_manifests source dst excludes sync exact).extras

  removed :
      (o : Option SnapshotEntry)
      → entry_at dst q ≡ o
      → remove_paths extras (copied_view source dst excludes sync exact source_tree dst_tree) q
        ≡ none
  removed none h = remove_paths-none extras _ q (unwritten ∙ remove_paths-none _ (entry_at dst) q h)
  removed (some x) h =
      let (m, p) = Mem-entry_at dst q x h in
      let gone =
        remove_paths_gone extras (copied_view source dst excludes sync exact source_tree dst_tree) x
          (Mem-extras source dst excludes sync exact mirror x m
            (ap (λ t. is_rel_excluded (components t) excludes) p ∙ kept)
            (ap (entry_at source) p ∙ absent)) in
      ap (remove_paths extras (copied_view source dst excludes sync exact source_tree dst_tree))
        (sym p)
      ∙ gone

  -- In mirror mode nothing is left at a path that the source does not have and that is not excluded.
  pub cleared : after source dst excludes sync exact source_tree dst_tree q ≡ none
  cleared = set_modes-none _ _ q (
      ap (λ (v : View). v q)
        (if_true sync.mirror
          (remove_paths extras (copied_view source dst excludes sync exact source_tree dst_tree)) _
          mirror)
      ∙ removed (entry_at dst q) refl)

-- The second comparison adds nothing for a settled entry.
record Quiet (d : ManifestDiff) : Type 0 where
  transfer : d.transfer ≡ []
  type_mismatch : d.type_mismatch ≡ []
  missing_dirs : d.missing_dirs ≡ []
  mode_fixes : d.mode_fixes ≡ []

Quiet-diff_found :
    (sync : NativeSyncConfig) (exact : Bool) (e : SnapshotEntry) (o : Option SnapshotEntry)
    → Settled sync exact e o
    → Quiet (diff_found sync exact no_diff e o)
unfolding diff_found
Quiet-diff_found sync exact e none s = cc s.there
Quiet-diff_found sync exact e (some x) s =
    let p : s.entry ≡ x = cc s.there in
    quiet x (subst (λ y. bytes_eq y.file_type e.file_type ≡ true) p s.same_type)
      (subst (λ y. (is_type e dir || entries_match_with e y sync exact) ≡ true) p s.matches)
      (subst (λ y. entry_mode_differs e y ≡ false) p s.same_mode)
  where
    quiet :
        (y : SnapshotEntry)
        → bytes_eq y.file_type e.file_type ≡ true
        → (is_type e dir || entries_match_with e y sync exact) ≡ true
        → entry_mode_differs e y ≡ false
        → Quiet (diff_found sync exact no_diff e (some y))
    quiet y t m d = ground arith

Quiet-entry_diff :
    (m : Map SnapshotEntry) (excludes : List Text) (sync : NativeSyncConfig) (exact : Bool)
    (e : SnapshotEntry)
    → (excluded excludes e ≡ false → Settled sync exact e (Maps.get e.rel_path m))
    → Quiet (entry_diff m excludes sync exact e)
unfolding entry_diff
Quiet-entry_diff m excludes sync exact e h = elim (Bool-cases (excluded excludes e)) [
  | inl dropped ↦
      subst (λ d. Quiet d) (sym (if_true (excluded excludes e) no_diff _ dropped))
        (record { transfer = refl; type_mismatch = refl; missing_dirs = refl; mode_fixes = refl })
  | inr kept ↦
      subst (λ d. Quiet d) (sym (if_false (excluded excludes e) no_diff _ kept))
        (Quiet-diff_found sync exact e (Maps.get e.rel_path m) (h kept))
]

extra_diff_nil :
    (m : Map SnapshotEntry) (excludes : List Text) (e : SnapshotEntry)
    → (excluded excludes e ≡ false → Maps.get e.rel_path m ≡ none → ⊥)
    → (extra_diff m excludes e).extras ≡ []
unfolding extra_diff
extra_diff_nil m excludes e h = go (excluded excludes e) (Maps.get e.rel_path m) h
  where
    go :
        (b : Bool) (o : Option SnapshotEntry)
        → (b ≡ false → o ≡ none → ⊥)
        → (if b then no_diff else add_extra no_diff e o).extras ≡ []
    go true o h = refl
    go false none h = absurd (h refl refl)
    go false (some x) h = unfold add_extra in refl

none_extra {ℓ} :
    {A : Type ℓ} {xs : List A} (b : Bool) → (b ≡ true → xs ≡ []) → (if b then xs else []) ≡ []
none_extra true h = h refl
none_extra false h = refl

-- No work is left: nothing to transfer, replace, create, delete or chmod.
pub record NoWork (d : ManifestDiff) : Type 0 where
  pub transfer : d.transfer ≡ []
  pub type_mismatch : d.type_mismatch ≡ []
  pub missing_dirs : d.missing_dirs ≡ []
  pub extras : d.extras ≡ []
  pub mode_fixes : d.mode_fixes ≡ []

-- Take a source and a destination that are trees, with source entries of the types that snapshots
-- record. Let the destination go through the steps of a sync, and let a snapshot of it show the
-- result. Comparing again, under the same settings, then finds no work at all.
pub diff_manifests-sync_directory :
    (source dst shown : List SnapshotEntry) (excludes : List Text) (sync : NativeSyncConfig)
    (exact : Bool)
    → IsTree source
    → IsTree dst
    → ((e : SnapshotEntry) → Memᴰ e shown → entry_at shown e.rel_path ≡ some e)
    → ((e : SnapshotEntry) → Memᴰ e source → is_known e ≡ true)
    → ((p : Text)
        → entry_at shown p
          ≡ sync_directory sync source
              (diff_manifests source dst excludes sync exact)
              (entry_at dst)
              p)
    → NoWork (diff_manifests source shown excludes sync exact)
unfolding sync_directory
diff_manifests-sync_directory source dst shown excludes sync exact st dt unique known shows =
    record {
      transfer =
          transfer-diff_manifests source shown excludes sync exact
          ∙ collect-nil _ source (λ e m. (quiet e m).transfer);
      type_mismatch =
          type_mismatch-diff_manifests source shown excludes sync exact
          ∙ collect-nil _ source (λ e m. (quiet e m).type_mismatch);
      missing_dirs =
          missing_dirs-diff_manifests source shown excludes sync exact
          ∙ collect-nil _ source (λ e m. (quiet e m).missing_dirs);
      mode_fixes =
          mode_fixes-diff_manifests source shown excludes sync exact
          ∙ collect-nil _ source (λ e m. (quiet e m).mode_fixes);
      extras =
          extras-diff_manifests source shown excludes sync exact
          ∙ none_extra sync.mirror (λ mirror. collect-nil _ shown (λ e m. no_extra mirror e m));
    }
  where
    quiet :
        (e : SnapshotEntry)
        → Memᴰ e source
        → Quiet (entry_diff (map_entry_refs shown) excludes sync exact e)
    quiet e m = Quiet-entry_diff (map_entry_refs shown) excludes sync exact e (λ kept.
        subst (λ o. Settled sync exact e o) (sym (shows e.rel_path))
          (settled source dst excludes sync exact st dt e m (known e m) kept))

    no_extra :
        sync.mirror ≡ true
        → (e : SnapshotEntry) → Memᴰ e shown
        → (extra_diff (map_entry_refs source) excludes e).extras ≡ []
    no_extra mirror e m = extra_diff_nil (map_entry_refs source) excludes e (λ kept absent. cc (
      cleared source dst excludes sync exact st dt mirror e.rel_path kept absent,
      shows e.rel_path,
      unique e m,
    ))

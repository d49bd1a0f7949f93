-- ===== src/Manifest/Account.antt =====
-- The lists of `diff_manifests` (src/core/sync/mod.rs) as a whole, and the account of every entry.
use auto_sync.Prelude.{
  ◌≡◌, refl, Bool, true, false, Bool-cases, inl, inr, List, [], ◌∷◌, ◌++◌, if◌then◌else◌, Text,
  append-nil, arith, collect, collect-nil, sym, subst, if_true, if_false, ap, ◌∙◌, length, not, map,
  select_rows, Option, All, Memᴰ,
}
use auto_sync.Prelude.Maps
use mathlib.Core.List.{Perm}
use auto_sync.Manifest.Placed.{
  Account, Account-nothing, Account-placed, Account-same, Placed-diff_found,
}
use auto_sync.Manifest.Entry.{SnapshotEntry, NativeSyncConfig}
use auto_sync.Manifest.Diff.{
  ManifestDiff, no_diff, excluded, diff_manifests, diff_source, map_entry_refs,
}
use auto_sync.Manifest.Lists.{
  entry_diff, extra_diff, gather, Joins, Joins-diff_source, Joins-diff_extras, transfer-gather,
  type_mismatch-gather, missing_dirs-gather, mode_fixes-gather, extras-gather, no_extras,
  only_extras, in_sync-only_extras,
}

module _ (source_snapshot dst_snapshot : List SnapshotEntry) (excludes : List Text)
    (sync : NativeSyncConfig) (exact : Bool) where
  abbrev of_entry : SnapshotEntry → ManifestDiff
  of_entry = entry_diff (map_entry_refs dst_snapshot) excludes sync exact

  abbrev of_extra : SnapshotEntry → ManifestDiff
  of_extra = extra_diff (map_entry_refs source_snapshot) excludes

  abbrev diff : ManifestDiff
  diff = diff_manifests source_snapshot dst_snapshot excludes sync exact

  abbrev from_source : ManifestDiff
  from_source =
      diff_source (map_entry_refs dst_snapshot) excludes sync exact no_diff source_snapshot

  Joins-from_source : Joins no_diff (gather of_entry source_snapshot) from_source
  Joins-from_source =
      Joins-diff_source (map_entry_refs dst_snapshot) excludes sync exact source_snapshot no_diff

  Joins-mirror : sync.mirror ≡ true → Joins from_source (gather of_extra dst_snapshot) diff
  unfolding diff_manifests
  Joins-mirror m =
      subst (λ d. Joins from_source (gather of_extra dst_snapshot) d)
        (sym (if_true sync.mirror _ from_source m))
        (Joins-diff_extras (map_entry_refs source_snapshot) excludes dst_snapshot from_source)

  diff_no_mirror : sync.mirror ≡ false → diff ≡ from_source
  unfolding diff_manifests
  diff_no_mirror m = if_false sync.mirror _ from_source m

  -- A list that the destination's entries add nothing to.
  unchanged :
      {A : Type 0} (field : ManifestDiff → List A)
      → (Joins from_source (gather of_extra dst_snapshot) diff
          → field diff ≡ field from_source ++ field (gather of_extra dst_snapshot))
      → field (gather of_extra dst_snapshot) ≡ []
      → field diff ≡ field from_source
  unchanged field at none_added = elim (Bool-cases sync.mirror) [
    | inl m ↦ at (Joins-mirror m) ∙ rw none_added (append-nil (field from_source))
    | inr m ↦ ap field (diff_no_mirror m)
  ]

  pub transfer-diff_manifests : diff.transfer ≡ collect (λ e. (of_entry e).transfer) source_snapshot
  transfer-diff_manifests =
      unchanged (λ d. d.transfer) (λ j. j.0)
        (transfer-gather of_extra dst_snapshot
          ∙ collect-nil _ dst_snapshot (λ e m. (only_extras _ excludes e).0))
      ∙ (Joins-from_source.0 ∙ transfer-gather of_entry source_snapshot)

  pub type_mismatch-diff_manifests :
      diff.type_mismatch ≡ collect (λ e. (of_entry e).type_mismatch) source_snapshot
  type_mismatch-diff_manifests =
      unchanged (λ d. d.type_mismatch) (λ j. j.1)
        (type_mismatch-gather of_extra dst_snapshot
          ∙ collect-nil _ dst_snapshot (λ e m. (only_extras _ excludes e).1))
      ∙ (Joins-from_source.1 ∙ type_mismatch-gather of_entry source_snapshot)

  pub missing_dirs-diff_manifests :
      diff.missing_dirs ≡ collect (λ e. (of_entry e).missing_dirs) source_snapshot
  missing_dirs-diff_manifests =
      unchanged (λ d. d.missing_dirs) (λ j. j.2)
        (missing_dirs-gather of_extra dst_snapshot
          ∙ collect-nil _ dst_snapshot (λ e m. (only_extras _ excludes e).2))
      ∙ (Joins-from_source.2 ∙ missing_dirs-gather of_entry source_snapshot)

  pub mode_fixes-diff_manifests :
      diff.mode_fixes ≡ collect (λ e. (of_entry e).mode_fixes) source_snapshot
  mode_fixes-diff_manifests =
      unchanged (λ d. d.mode_fixes) (λ j. j.4)
        (mode_fixes-gather of_extra dst_snapshot
          ∙ collect-nil _ dst_snapshot (λ e m. (only_extras _ excludes e).3))
      ∙ (Joins-from_source.4 ∙ mode_fixes-gather of_entry source_snapshot)

  pub in_sync-diff_manifests : diff.in_sync ≡ (gather of_entry source_snapshot).in_sync
  in_sync-diff_manifests = elim (Bool-cases sync.mirror) [
    | inl m ↦ omega (
      arith,
      (Joins-mirror m).5,
      Joins-from_source.5,
      in_sync-only_extras (map_entry_refs source_snapshot) excludes dst_snapshot,
    )
    | inr m ↦ omega (arith, ap (λ d. d.in_sync) (diff_no_mirror m), Joins-from_source.5)
  ]

  source_extras : from_source.extras ≡ []
  source_extras =
      Joins-from_source.3
      ∙ (extras-gather of_entry source_snapshot
          ∙ collect-nil _ source_snapshot
              (λ e m. no_extras (map_entry_refs dst_snapshot) excludes sync exact e))

  pub extras-diff_manifests :
      diff.extras ≡ (if sync.mirror then collect (λ e. (of_extra e).extras) dst_snapshot else [])
  extras-diff_manifests = elim (Bool-cases sync.mirror) [
    | inl m ↦
        (Joins-mirror m).3
        ∙ (rw source_extras (extras-gather of_extra dst_snapshot)
            ∙ sym (if_true sync.mirror _ [] m))
    | inr m ↦
        ap (λ d. d.extras) (diff_no_mirror m) ∙ (source_extras ∙ sym (if_false sync.mirror _ [] m))
  ]

  -- The source entries that no exclude pattern drops.
  abbrev pub kept : List SnapshotEntry → List SnapshotEntry
  kept = select_rows (λ e. not (excluded excludes e))

  Account-gather :
      (es : List SnapshotEntry)
      → Account
          (gather of_entry es).transfer
          (gather of_entry es).type_mismatch
          (gather of_entry es).missing_dirs
          (gather of_entry es).mode_fixes
          (gather of_entry es).in_sync
          (kept es)
  unfolding entry_diff
  Account-gather [] = Account-nothing
  Account-gather (e ∷ es) = elim (Bool-cases (excluded excludes e)) [
    | inl dropped ↦ rw dropped (Account-same refl refl refl refl (omega arith) (Account-gather es))
    | inr stays ↦ rw stays (
        Account-placed e
          (Placed-diff_found sync exact e (Maps.get e.rel_path (map_entry_refs dst_snapshot)))
          (Account-gather es))
  ]

  -- Every source entry that is not excluded is, as it stands in the source, in exactly one of four
  -- lists: those to transfer, those of another type, the directories to create, and a list of those
  -- in sync, which has as many entries as are counted in sync and holds every mode to repair.
  pub diff_manifests_account :
      (synced : List SnapshotEntry) × (length synced ≡ diff.in_sync)
      × Perm
          (map (λ (t : SnapshotEntry × Option SnapshotEntry). t.0) diff.transfer
            ++ (diff.type_mismatch ++ (diff.missing_dirs ++ synced)))
          (kept source_snapshot)
      × All (λ m. Memᴰ m synced) diff.mode_fixes
  diff_manifests_account =
      let a =
        Account-same (transfer-diff_manifests ∙ sym (transfer-gather of_entry source_snapshot))
          (type_mismatch-diff_manifests ∙ sym (type_mismatch-gather of_entry source_snapshot))
          (missing_dirs-diff_manifests ∙ sym (missing_dirs-gather of_entry source_snapshot))
          (mode_fixes-diff_manifests ∙ sym (mode_fixes-gather of_entry source_snapshot))
          in_sync-diff_manifests (Account-gather source_snapshot) in
      (a.synced, a.count, a.all, a.fixed)

-- ===== src/Manifest/Diff.antt =====
-- `diff_manifests` and `ManifestDiff` of src/core/sync/mod.rs.
use auto_sync.Prelude.{
  ℕ, ◌+◌, Bool, not, ◌||◌, Option, none, some, List, [], ◌∷◌, ◌++◌, if◌then◌else◌, Text, bytes_eq,
  collect,
}
use auto_sync.Prelude.Maps
use auto_sync.Prelude.Maps.{Map}
use auto_sync.Paths.Components.{components}
use auto_sync.Paths.Excludes.{is_rel_excluded}
use auto_sync.Manifest.Entry.{SnapshotEntry, NativeSyncConfig, dir, is_type}
use auto_sync.Manifest.Match.{entries_match_with, entry_mode_differs}

-- The later entry of a path replaces the earlier one.
unfoldable pub map_entry_refs_onto : Map SnapshotEntry → List SnapshotEntry → Map SnapshotEntry
map_entry_refs_onto refs [] = refs
map_entry_refs_onto refs (entry ∷ entries) =
    map_entry_refs_onto (Maps.insert entry.rel_path entry refs) entries

unfoldable pub map_entry_refs : List SnapshotEntry → Map SnapshotEntry
unfolding map_entry_refs_onto
map_entry_refs entries = map_entry_refs_onto [] entries

pub record ManifestDiff : Type 0 where
  pub transfer : List (SnapshotEntry × Option SnapshotEntry)
  pub type_mismatch : List SnapshotEntry
  pub missing_dirs : List SnapshotEntry
  pub extras : List SnapshotEntry
  pub mode_fixes : List SnapshotEntry
  pub in_sync : ℕ

abbrev pub no_diff : ManifestDiff
no_diff = record {
  transfer = [];
  type_mismatch = [];
  missing_dirs = [];
  extras = [];
  mode_fixes = [];
  in_sync = 0;
}

abbrev pub excluded : List Text → SnapshotEntry → Bool
excluded excludes entry = is_rel_excluded (components entry.rel_path) excludes

-- The arms of `match dst_map.get(..)`.
unfoldable pub diff_found :
    NativeSyncConfig → Bool → ManifestDiff → SnapshotEntry → Option SnapshotEntry → ManifestDiff
diff_found sync exact diff entry none =
    if is_type entry dir
    then record diff { missing_dirs = diff.missing_dirs ++ entry ∷ [] }
    else record diff { transfer = diff.transfer ++ (entry, none) ∷ [] }
diff_found sync exact diff entry (some existing) =
    if not (bytes_eq existing.file_type entry.file_type)
    then record diff { type_mismatch = diff.type_mismatch ++ entry ∷ [] }
    else if is_type entry dir || entries_match_with entry existing sync exact
    then (if entry_mode_differs entry existing
        then record diff { mode_fixes = diff.mode_fixes ++ entry ∷ []; in_sync = diff.in_sync + 1 }
        else record diff { in_sync = diff.in_sync + 1 })
    else record diff { transfer = diff.transfer ++ (entry, some existing) ∷ [] }

-- The loop over the source's entries.
unfoldable pub diff_source :
    Map SnapshotEntry
    → List Text
    → NativeSyncConfig
    → Bool
    → ManifestDiff
    → List SnapshotEntry
    → ManifestDiff
unfolding diff_found
diff_source dst_map excludes sync exact diff [] = diff
diff_source dst_map excludes sync exact diff (entry ∷ entries) =
    diff_source dst_map excludes sync exact
      (if excluded excludes entry
        then diff
        else diff_found sync exact diff entry (Maps.get entry.rel_path dst_map))
      entries

unfoldable pub add_extra : ManifestDiff → SnapshotEntry → Option SnapshotEntry → ManifestDiff
add_extra diff entry none = record diff { extras = diff.extras ++ entry ∷ [] }
add_extra diff entry (some _) = diff

-- The loop over the destination's entries, in mirror mode.
unfoldable pub diff_extras :
    Map SnapshotEntry → List Text → ManifestDiff → List SnapshotEntry → ManifestDiff
unfolding add_extra
diff_extras source_map excludes diff [] = diff
diff_extras source_map excludes diff (entry ∷ entries) =
    diff_extras source_map excludes
      (if excluded excludes entry
        then diff
        else add_extra diff entry (Maps.get entry.rel_path source_map))
      entries

unfoldable pub diff_manifests :
    List SnapshotEntry → List SnapshotEntry → List Text → NativeSyncConfig → Bool → ManifestDiff
unfolding map_entry_refs diff_source diff_extras
diff_manifests source_snapshot dst_snapshot excludes sync exact =
    let diff =
      diff_source (map_entry_refs dst_snapshot) excludes sync exact no_diff source_snapshot in
    if sync.mirror
    then diff_extras (map_entry_refs source_snapshot) excludes diff dst_snapshot
    else diff

-- `.filter(|entry| entry.file_type != "dir").map(|entry| (*entry, None))`
unfoldable pub not_dirs : List SnapshotEntry → List (SnapshotEntry × Option SnapshotEntry)
not_dirs = collect (λ e. if is_type e dir then [] else (e, none) ∷ [])

unfoldable pub entries_to_copy : ManifestDiff → List (SnapshotEntry × Option SnapshotEntry)
unfolding not_dirs
entries_to_copy diff = diff.transfer ++ not_dirs diff.type_mismatch

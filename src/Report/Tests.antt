-- ===== src/Report/Tests.antt =====
-- A compare of a tree with a new file and a file that the source no longer has.
use auto_sync.Prelude.{◌≡◌, refl, false, true, none, [], ◌∷◌, codes, pos, Text, bytes_eq}
use auto_sync.Prelude.Maps
use auto_sync.Paths.Excludes.{is_rel_excluded}
use auto_sync.Manifest.Entry.{SnapshotEntry, NativeSyncConfig, file}
use auto_sync.Manifest.Diff.{diff_manifests}
use auto_sync.Report.Build.{add, delete, kind_text, build_scan_report}
use auto_sync.Report.Sample.{Sampled, Sampled-build_scan_report}

abbrev file_at : Text → SnapshotEntry
file_at path = record {
  rel_path = path;
  file_type = file;
  size = pos 1;
  mtime_ns = pos 0;
  mode = 420;
  hash = none;
}

abbrev settings : NativeSyncConfig
settings = record { mirror = true; checksum = false; modify_window_secs = 2 }

report_run :
    build_scan_report (file_at (codes "n") ∷ []) (file_at (codes "b") ∷ []) [] settings false
    ≡ record {
      source_entries = 1;
      dst_entries = 1;
      in_sync = 0;
      to_add = 1;
      to_update = 0;
      to_delete = 1;
      type_mismatch = 0;
      metadata = 0;
      differences =
          record { rel_path = codes "b"; kind = kind_text delete; file_type = file }
          ∷ record { rel_path = codes "n"; kind = kind_text add; file_type = file }
          ∷ [];
      truncated = false;
    }
unfolding build_scan_report diff_manifests is_rel_excluded bytes_eq Maps.get Maps.insert
report_run = refl

Sampled-build_scan_report_example :
    Sampled true
      (diff_manifests (file_at (codes "n") ∷ []) (file_at (codes "b") ∷ []) [] settings false)
      (build_scan_report (file_at (codes "n") ∷ []) (file_at (codes "b") ∷ []) [] settings false)
Sampled-build_scan_report_example =
    Sampled-build_scan_report (file_at (codes "n") ∷ []) (file_at (codes "b") ∷ []) [] settings
      false

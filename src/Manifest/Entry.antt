-- ===== src/Manifest/Entry.antt =====
-- `SnapshotEntry` of src/core/state.rs and the settings of `NativeSyncConfig` (src/core/config.rs)
-- that the comparison reads.
use auto_sync.Prelude.{ℕ, Bool, Option, Text, codes, ℤ, bytes_eq}

pub record SnapshotEntry : Type 0 where
  pub rel_path : Text
  pub file_type : Text
  pub size : ℤ  -- i64
  pub mtime_ns : ℤ  -- i64
  pub mode : ℕ  -- u32
  pub hash : Option Text

pub record NativeSyncConfig : Type 0 where
  pub mirror : Bool
  pub checksum : Bool
  pub modify_window_secs : ℕ

-- The file types that a snapshot records.
abbrev pub dir : Text
dir = codes "dir"

abbrev pub file : Text
file = codes "file"

abbrev pub symlink : Text
symlink = codes "symlink"

abbrev pub is_type : SnapshotEntry → Text → Bool
is_type e t = bytes_eq e.file_type t

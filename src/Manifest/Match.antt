-- ===== src/Manifest/Match.antt =====
-- `entries_match_with` and its helpers in src/core/sync/mod.rs.
use auto_sync.Prelude.{
  ℕ, ◌*◌, ◌-◌, ◌^◌, ◌≡◌, Bool, true, false, not, ◌&&◌, ◌||◌, Option, none, some, leb, min, max,
  ◌==◌, if◌then◌else◌, pos_part, abs_diff, int_eq, int_eq_refl, abs_diff_self, option_eq,
  option_eq_refl, bytes_eq, arith, bytes_eq_refl,
}
use auto_sync.Manifest.Entry.{SnapshotEntry, NativeSyncConfig, dir, file, symlink, is_type}

unfoldable pub mtimes_match : SnapshotEntry → SnapshotEntry → NativeSyncConfig → Bool
mtimes_match left right sync =
    leb (abs_diff left.mtime_ns right.mtime_ns) (sync.modify_window_secs * 1_000_000_000)

abbrev exact_mtime_tolerance_ns : ℕ
exact_mtime_tolerance_ns = 1_000

unfoldable pub mtimes_match_exact : SnapshotEntry → SnapshotEntry → Bool
mtimes_match_exact left right = leb (abs_diff left.mtime_ns right.mtime_ns) exact_mtime_tolerance_ns

abbrev is_some : {A : Type 0} → Option A → Bool
is_some none = false
is_some (some a) = true

unfoldable pub entries_match_with : SnapshotEntry → SnapshotEntry → NativeSyncConfig → Bool → Bool
unfolding mtimes_match mtimes_match_exact
entries_match_with left right sync exact =
    if not (bytes_eq left.file_type right.file_type)
    then false
    else if is_type left dir
    then mtimes_match left right sync
    else if is_type left file && (sync.checksum || (is_some left.hash && is_some right.hash))
    then int_eq left.size right.size && option_eq left.hash right.hash
    else if is_type left file && exact
    then int_eq left.size right.size && mtimes_match_exact left right
    else if is_type left file
    then int_eq left.size right.size && mtimes_match left right sync
    else if is_type left symlink
    then option_eq left.hash right.hash
    else false

unfoldable pub entry_mode_differs : SnapshotEntry → SnapshotEntry → Bool
entry_mode_differs left right = is_type left file && not (left.mode == right.mode)

abbrev delta_min_size : ℕ
delta_min_size = 256 * 1024

abbrev delta_max_size : ℕ
delta_max_size = 512 * 1024 * 1024

-- On u64.
abbrev saturating_mul : ℕ → ℕ → ℕ
saturating_mul a b = min (a * b) (2 ^ 64 - 1)

unfoldable pub should_attempt_delta : SnapshotEntry → SnapshotEntry → Bool
should_attempt_delta source existing =
    let source_size = pos_part source.size in
    let existing_size = pos_part existing.size in
    if not (is_type source file) || not (is_type existing file) || is_some source.hash
    then false
    else if not (leb delta_min_size source_size && leb source_size delta_max_size)
        || existing_size == 0
    then false
    else if source_size == existing_size
    then false
    else leb (saturating_mul (max source_size existing_size) 7)
        (saturating_mul (min source_size existing_size) 10)

abbrev pub is_known : SnapshotEntry → Bool
is_known e = is_type e dir || is_type e file || is_type e symlink

-- An entry of a known type matches itself, under every setting.
pub entries_match_with_refl :
    (e : SnapshotEntry) (sync : NativeSyncConfig) (exact : Bool)
    → is_known e ≡ true
    → entries_match_with e e sync exact ≡ true
unfolding entries_match_with
entries_match_with_refl e sync exact h = ground (
  arith,
  bytes_eq_refl e.file_type,
  option_eq_refl e.hash,
  int_eq_refl e.size,
  abs_diff_self e.mtime_ns,
)

-- ===== src/ZfsDiff/Tests.antt =====
-- A path with a space and a byte over 127, and two sides that changed one path each and one both.
use auto_sync.Prelude.{
  ◌++◌, ◌≡◌, refl, true, false, not, ◌&&◌, ◌||◌, List, [], ◌∷◌, Text, codes, bytes_eq, arith,
}
use auto_sync.ZfsDiff.Paths.{
  DiffPath, contains_rel, unescape_zfs_path, unescape_bytes, diff_union_and_dst_only,
}
use auto_sync.Prelude.Utf8.{utf8_rest, lossy, from_utf8_lossy, replacement}
use auto_sync.ZfsDiff.Escapes.{escape_path, unescape_zfs_path-escape_path}
use auto_sync.ZfsDiff.Union.{contains-diff_union_and_dst_only}

abbrev odd_path : Text
odd_path = 97 ∷ 32 ∷ 195 ∷ 169 ∷ []

escape_run : unescape_zfs_path (codes "a\\040\\303\\251") ≡ odd_path
unfolding unescape_zfs_path unescape_bytes from_utf8_lossy lossy
escape_run = refl

-- Bytes that are no UTF-8 become U+FFFD: a first byte alone, and one before another character.
lossy_run : unescape_zfs_path (codes "a\\303b\\342\\202") ≡ 97 ∷ replacement ++ 98 ∷ replacement
unfolding unescape_zfs_path unescape_bytes from_utf8_lossy lossy
lossy_run = refl

unescape_zfs_path-escape_path_example : unescape_zfs_path (escape_path odd_path) ≡ odd_path
unfolding utf8_rest
unescape_zfs_path-escape_path_example =
    unescape_zfs_path-escape_path odd_path
      (omega arith, (omega arith, (omega arith, (omega arith, tt)))) refl

abbrev plain_path : Text → DiffPath
plain_path rel = record { rel = rel; recursive = false }

abbrev deep_path : Text → DiffPath
deep_path rel = record { rel = rel; recursive = true }

abbrev src_changed : List DiffPath
src_changed = plain_path (codes "a") ∷ plain_path (codes "b") ∷ []

abbrev dst_changed : List DiffPath
dst_changed = deep_path (codes "b") ∷ plain_path (codes "c") ∷ []

union_run : diff_union_and_dst_only src_changed dst_changed ≡ (
  plain_path (codes "a") ∷ deep_path (codes "b") ∷ plain_path (codes "c") ∷ [],
  plain_path (codes "c") ∷ [],
)
unfolding diff_union_and_dst_only bytes_eq
union_run = refl

contains-diff_union_and_dst_only_example :
    (contains_rel (codes "c") (diff_union_and_dst_only src_changed dst_changed).0
      ≡ (contains_rel (codes "c") src_changed || contains_rel (codes "c") dst_changed))
    × (contains_rel (codes "c") (diff_union_and_dst_only src_changed dst_changed).1
        ≡ (contains_rel (codes "c") dst_changed && not (contains_rel (codes "c") src_changed)))
contains-diff_union_and_dst_only_example =
    contains-diff_union_and_dst_only src_changed dst_changed (codes "c")

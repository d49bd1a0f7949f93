-- ===== src/ZfsDiff/Paths.antt =====
-- `unescape_zfs_path`, `DiffPath` and `diff_union_and_dst_only` of src/core/sync/mod.rs.
use auto_sync.Prelude.{
  ℕ, ◌+◌, ◌-◌, ◌*◌, ◌%◌, ◌^◌, Bool, false, ◌&&◌, ◌||◌, List, [], ◌∷◌, if◌then◌else◌, leb, ◌==◌,
  Text, bytes_eq,
}
use auto_sync.Prelude.Utf8.{from_utf8_lossy}

abbrev pub backslash : ℕ
backslash = b'\\'

-- `(b'0'..=b'7').contains(&byte)`
abbrev pub is_octal : ℕ → Bool
is_octal byte = leb 48 byte && leb byte 55

-- On u8.
abbrev pub octal_value : ℕ → ℕ → ℕ → ℕ
octal_value x y z = ((x - 48) * 64 + (y - 48) * 8 + (z - 48)) % 2 ^ 8

-- The decoded bytes, before they are read as UTF-8.
unfoldable pub unescape_bytes : Text → Text
unescape_bytes [] = []
unescape_bytes (byte ∷ x ∷ y ∷ z ∷ raw) =
    let after = unescape_bytes raw in
    let plain = unescape_bytes (x ∷ y ∷ z ∷ raw) in
    if byte == backslash && is_octal x && is_octal y && is_octal z
    then octal_value x y z ∷ after
    else byte ∷ plain
unescape_bytes (byte ∷ raw) = byte ∷ unescape_bytes raw

unfoldable pub unescape_zfs_path : Text → Text
unfolding unescape_bytes from_utf8_lossy
unescape_zfs_path raw = from_utf8_lossy (unescape_bytes raw)

pub record DiffPath : Type 0 where
  pub rel : Text
  pub recursive : Bool

-- A map keeps its entries in the order of insertion here; the program's are sorted by path.
unfoldable pub or_insert : DiffPath → List DiffPath → List DiffPath
or_insert path [] = path ∷ []
or_insert path (slot ∷ union) =
    let rest = or_insert path union in
    if bytes_eq slot.rel path.rel
    then record slot { recursive = slot.recursive || path.recursive } ∷ union
    else slot ∷ rest

-- `collect` into a map: the last flag of a path is kept.
unfoldable pub insert_path : DiffPath → List DiffPath → List DiffPath
insert_path path [] = path ∷ []
insert_path path (slot ∷ union) =
    let rest = insert_path path union in
    if bytes_eq slot.rel path.rel then path ∷ union else slot ∷ rest

unfoldable pub collect_paths : List DiffPath → List DiffPath → List DiffPath
unfolding insert_path
collect_paths union [] = union
collect_paths union (path ∷ paths) = collect_paths (insert_path path union) paths

abbrev pub contains_rel : Text → List DiffPath → Bool
contains_rel rel [] = false
contains_rel rel (path ∷ paths) = bytes_eq path.rel rel || contains_rel rel paths

-- The loop over the destination's paths.
unfoldable pub union_onto : List DiffPath → List DiffPath → List DiffPath
unfolding or_insert
union_onto union [] = union
union_onto union (path ∷ paths) = union_onto (or_insert path union) paths

unfoldable pub only_of : List DiffPath → List DiffPath → List DiffPath
only_of src_rels [] = []
only_of src_rels (path ∷ paths) =
    let rest = only_of src_rels paths in
    if contains_rel path.rel src_rels then rest else path ∷ rest

unfoldable pub diff_union_and_dst_only :
    List DiffPath → List DiffPath → List DiffPath × List DiffPath
unfolding collect_paths union_onto only_of
diff_union_and_dst_only src_changed dst_changed =
    let src_union = collect_paths [] src_changed in
    (union_onto src_union dst_changed, only_of src_union dst_changed)

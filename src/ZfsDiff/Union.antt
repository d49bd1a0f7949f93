-- ===== src/ZfsDiff/Union.antt =====
-- Which paths are in the union of both sides' changes (`diff_union_and_dst_only` of
-- src/core/sync/mod.rs).
use auto_sync.Prelude.{
  ◌≡◌, refl, ap, ◌∙◌, true, not, Bool-cases, inl, inr, ◌&&◌, ◌||◌, List, [], ◌∷◌, Text, bytes_eq,
  bytes_eq_iff, arith,
}
use auto_sync.ZfsDiff.Paths.{
  DiffPath, or_insert, insert_path, collect_paths, contains_rel, union_onto, only_of,
  diff_union_and_dst_only,
}

same_rel :
    (slot path : DiffPath) (rel : Text)
    → bytes_eq slot.rel path.rel ≡ true
    → bytes_eq slot.rel rel ≡ bytes_eq path.rel rel
same_rel slot path rel h = ap (λ t. bytes_eq t rel) ((bytes_eq_iff slot.rel path.rel).0 h)

contains-or_insert :
    (path : DiffPath) (union : List DiffPath) (rel : Text)
    → contains_rel rel (or_insert path union) ≡ (contains_rel rel union || bytes_eq path.rel rel)
unfolding or_insert
contains-or_insert path [] rel = ground arith
contains-or_insert path (slot ∷ union) rel = elim (Bool-cases (bytes_eq slot.rel path.rel)) [
  | inl same ↦ rw same (ground (arith, same_rel slot path rel same))
  | inr other ↦ rw other (ground (arith, contains-or_insert path union rel))
]

contains-insert_path :
    (path : DiffPath) (union : List DiffPath) (rel : Text)
    → contains_rel rel (insert_path path union) ≡ (contains_rel rel union || bytes_eq path.rel rel)
unfolding insert_path
contains-insert_path path [] rel = ground arith
contains-insert_path path (slot ∷ union) rel = elim (Bool-cases (bytes_eq slot.rel path.rel)) [
  | inl same ↦ rw same (ground (arith, same_rel slot path rel same))
  | inr other ↦ rw other (ground (arith, contains-insert_path path union rel))
]

contains-collect_paths :
    (union paths : List DiffPath) (rel : Text)
    → contains_rel rel (collect_paths union paths)
      ≡ (contains_rel rel union || contains_rel rel paths)
unfolding collect_paths
contains-collect_paths union [] rel = ground arith
contains-collect_paths union (path ∷ paths) rel = ground (
  arith,
  contains-collect_paths (insert_path path union) paths rel,
  contains-insert_path path union rel,
)

contains-union_onto :
    (union paths : List DiffPath) (rel : Text)
    → contains_rel rel (union_onto union paths) ≡ (contains_rel rel union || contains_rel rel paths)
unfolding union_onto
contains-union_onto union [] rel = ground arith
contains-union_onto union (path ∷ paths) rel =
    ground (
      arith,
      contains-union_onto (or_insert path union) paths rel,
      contains-or_insert path union rel,
    )

contains-only_of :
    (src paths : List DiffPath) (rel : Text)
    → contains_rel rel (only_of src paths) ≡ (contains_rel rel paths && not (contains_rel rel src))
unfolding only_of
contains-only_of src [] rel = refl
contains-only_of src (path ∷ paths) rel = elim (Bool-cases (bytes_eq path.rel rel)) [
  | inl same ↦
      let here = ap (λ t. contains_rel t src) ((bytes_eq_iff path.rel rel).0 same) in
      ground (arith, contains-only_of src paths rel, same, here)
  | inr other ↦ ground (arith, contains-only_of src paths rel, other)
]

-- The union names exactly the paths that one of the sides changed, and the second list exactly
-- those that the destination changed and the source did not.
pub contains-diff_union_and_dst_only :
    (src_changed dst_changed : List DiffPath) (rel : Text)
    → (contains_rel rel (diff_union_and_dst_only src_changed dst_changed).0
        ≡ (contains_rel rel src_changed || contains_rel rel dst_changed))
      × (contains_rel rel (diff_union_and_dst_only src_changed dst_changed).1
          ≡ (contains_rel rel dst_changed && not (contains_rel rel src_changed)))
unfolding diff_union_and_dst_only
contains-diff_union_and_dst_only src_changed dst_changed rel =
    let src = contains-collect_paths [] src_changed rel in
    (
      contains-union_onto (collect_paths [] src_changed) dst_changed rel
          ∙ ap (λ b. b || contains_rel rel dst_changed) src,
      contains-only_of (collect_paths [] src_changed) dst_changed rel
          ∙ ap (λ b. contains_rel rel dst_changed && not b) src,
    )

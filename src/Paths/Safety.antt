-- ===== src/Paths/Safety.antt =====
-- What the path functions of src/core/sync/mod.rs accept: names below the root, and nothing else.
use auto_sync.Prelude.{
  Bool, ◌>>=◌, ℕ, ◌≡◌, ◌≢◌, refl, true, false, List, [], ◌∷◌, ◌++◌, ◌==◌, if◌then◌else◌, Text,
  bytes_eq, Result, ok, err, contains_byte, All, Bool-cases, inl, inr, subst,
}
use auto_sync.Paths.Components.{
  Component, root_dir, cur_dir, parent_dir, normal, slash, dot, dot_dot, split, extend,
  piece_components, rest_components, components_of, components, PathError, push, non_empty,
  absolute, empty, is_absolute, normal_parts, normalize_rel_path, safe_join_rel, normals,
}

-- The name of one file or directory: not empty, not `.` or `..`, and without a separator.
pub record IsName (part : Text) : Type 0 where
  pub named : part ≢ []
  pub not_dot : bytes_eq part dot ≡ false
  pub not_dot_dot : bytes_eq part dot_dot ≡ false
  pub one : contains_byte slash part ≡ false

abbrev NoSlash : Text → Type 0
NoSlash piece = contains_byte slash piece ≡ false

abbrev Names : List Component → Type 0
Names [] = Unit
Names (normal part ∷ rest) = IsName part × Names rest
Names (_ ∷ rest) = Names rest

NoSlash-extend :
    (byte : ℕ) (pieces : List Text)
    → (byte == slash) ≡ false
    → All NoSlash pieces
    → All NoSlash (extend byte pieces)
NoSlash-extend byte [] h a = (rw h, tt)
NoSlash-extend byte (piece ∷ pieces) h a = (rw h a.0, a.1)

NoSlash-split : (text : Text) → All NoSlash (split slash text)
unfolding split
NoSlash-split [] = (refl, tt)
NoSlash-split (byte ∷ text) = elim (Bool-cases (byte == slash)) [
  | inl cut ↦ rw cut (refl, NoSlash-split text)
  | inr more ↦ rw more (NoSlash-extend byte (split slash text) more (NoSlash-split text))
]

Names-append : (xs ys : List Component) → Names xs → Names ys → Names (xs ++ ys)
Names-append [] ys a b = b
Names-append (root_dir ∷ xs) ys a b = Names-append xs ys a b
Names-append (cur_dir ∷ xs) ys a b = Names-append xs ys a b
Names-append (parent_dir ∷ xs) ys a b = Names-append xs ys a b
Names-append (normal part ∷ xs) ys a b = (a.0, Names-append xs ys a.1 b)

Names-piece_components : (piece : Text) → NoSlash piece → Names (piece_components piece)
unfolding piece_components
Names-piece_components [] h = tt
Names-piece_components (byte ∷ piece) h = elim (Bool-cases (bytes_eq (byte ∷ piece) dot)) [
  | inl d ↦ rw d tt
  | inr nd ↦ rw nd (elim (Bool-cases (bytes_eq (byte ∷ piece) dot_dot)) [
    | inl dd ↦ rw dd tt
    | inr ndd ↦ rw ndd (record { named = λ e. cc; not_dot = nd; not_dot_dot = ndd; one = h }, tt)
  ])
]

Names-rest_components : (pieces : List Text) → All NoSlash pieces → Names (rest_components pieces)
Names-rest_components [] a = tt
Names-rest_components (piece ∷ pieces) a =
    Names-append (piece_components piece) (rest_components pieces)
      (Names-piece_components piece a.0) (Names-rest_components pieces a.1)

Names-if : (b : Bool) (xs ys : List Component) → Names xs → Names ys → Names (if b then xs else ys)
Names-if true xs ys m n = m
Names-if false xs ys m n = n

Names-components_of : (pieces : List Text) → All NoSlash pieces → Names (components_of pieces)
unfolding components_of
Names-components_of [] a = tt
Names-components_of ([] ∷ []) a = tt
Names-components_of ([] ∷ piece ∷ pieces) a = Names-rest_components (piece ∷ pieces) a.1
Names-components_of ((byte ∷ piece) ∷ pieces) a =
    Names-if (bytes_eq (byte ∷ piece) dot) (cur_dir ∷ rest_components pieces)
      (rest_components ((byte ∷ piece) ∷ pieces)) (Names-rest_components pieces a.1)
      (Names-rest_components ((byte ∷ piece) ∷ pieces) a)

push-eq-ok :
    (part : Text) (r : Result PathError (List Text)) (parts : List Text)
    → push part r ≡ ok parts
    → (rest : List Text) × (r ≡ ok rest) × (part ∷ rest ≡ parts)
push-eq-ok part (ok rest) parts h = (rest, refl, cc)
push-eq-ok part (err e) parts h = cc

All-IsName-normal_parts :
    (cs : List Component) (parts : List Text)
    → Names cs
    → normal_parts cs ≡ ok parts
    → All IsName parts
unfolding normal_parts
All-IsName-normal_parts [] parts n h = let e : [] ≡ parts = cc in subst (λ p. All IsName p) e tt
All-IsName-normal_parts (root_dir ∷ cs) parts n h = cc
All-IsName-normal_parts (cur_dir ∷ cs) parts n h = All-IsName-normal_parts cs parts n h
All-IsName-normal_parts (parent_dir ∷ cs) parts n h = cc
All-IsName-normal_parts (normal part ∷ cs) parts n h =
    let (rest, found, e) = push-eq-ok part (normal_parts cs) parts h in
    subst (λ p. All IsName p) e (n.0, All-IsName-normal_parts cs rest n.1 found)

Names-components : (text : Text) → Names (components text)
unfolding components
Names-components text = Names-components_of (split slash text) (NoSlash-split text)

non_empty-eq-ok :
    (e : PathError) (r : Result PathError (List Text)) (parts : List Text)
    → (r >>= non_empty e) ≡ ok parts
    → (parts ≢ []) × (r ≡ ok parts)
non_empty-eq-ok e (err x) parts h = cc
non_empty-eq-ok e (ok []) parts h = cc
non_empty-eq-ok e (ok (part ∷ rest)) parts h = (λ p. cc, cc)

accepted :
    (b : Bool) (r : Result PathError (List Text)) (parts : List Text)
    → (if b then err absolute else r) ≡ ok parts
    → r ≡ ok parts
accepted true r parts h = cc
accepted false r parts h = h

pub normalize_rel_path-normal_parts :
    (rel_path : Text) (parts : List Text)
    → normalize_rel_path rel_path ≡ ok parts
    → (parts ≢ []) × (normal_parts (components rel_path) ≡ ok parts)
unfolding normalize_rel_path
normalize_rel_path-normal_parts rel_path parts h =
    non_empty-eq-ok empty (normal_parts (components rel_path)) parts
      (accepted (is_absolute (components rel_path)) _ parts h)

-- A path that is accepted is a non-empty sequence of names: no empty part, no `.` or `..` and no
-- separator within a part.
pub normalize_rel_path-IsName :
    (rel_path : Text) (parts : List Text)
    → normalize_rel_path rel_path ≡ ok parts
    → (parts ≢ []) × All IsName parts
normalize_rel_path-IsName rel_path parts h =
    let (some_part, found) = normalize_rel_path-normal_parts rel_path parts h in
    (
      some_part,
      All-IsName-normal_parts (components rel_path) parts (Names-components rel_path) found,
    )

-- A joined path is the root's components and, below them, names only: nothing of the relative path
-- can lead out of the root.
pub safe_join_rel-below :
    (root : List Component) (rel_path : Text) (path : List Component)
    → safe_join_rel root rel_path ≡ ok path
    → (parts : List Text) × (path ≡ root ++ normals parts) × (parts ≢ []) × All IsName parts
unfolding safe_join_rel
safe_join_rel-below root rel_path path h =
    let (parts, found, e) = joined (normalize_rel_path rel_path) h in
    let (some_part, names) = normalize_rel_path-IsName rel_path parts found in
    (parts, e, some_part, names)
  where
    joined :
        (r : Result PathError (List Text))
        → (r >>= λ parts. ok (root ++ normals parts)) ≡ ok path
        → (parts : List Text) × (r ≡ ok parts) × (path ≡ root ++ normals parts)
    joined (ok parts) e = (parts, refl, cc)
    joined (err x) e = cc

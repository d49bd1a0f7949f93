-- ===== src/Paths/Components.antt =====
-- `Path::components` of the standard library on Unix, and the functions of src/core/sync/mod.rs
-- that walk it.
use auto_sync.Prelude.{
  ℕ, Bool, true, false, List, [], ◌∷◌, ◌++◌, ◌==◌, if◌then◌else◌, Text, bytes_eq, Result, ok, err,
  ◌>>=◌, length,
}

pub data Component : Type 0 where
  root_dir cur_dir parent_dir : Component
  normal : Text → Component

abbrev pub slash : ℕ
slash = b'/'

abbrev pub dot : Text
dot = b'.' ∷ []

abbrev pub dot_dot : Text
dot_dot = b'.' ∷ b'.' ∷ []

-- The pieces between the separators.
abbrev pub extend : ℕ → List Text → List Text
extend byte [] = (byte ∷ []) ∷ []
extend byte (piece ∷ pieces) = (byte ∷ piece) ∷ pieces

unfoldable pub split : ℕ → Text → List Text
split sep [] = [] ∷ []
split sep (byte ∷ text) =
    let rest = split sep text in if byte == sep then [] ∷ rest else extend byte rest

-- A piece after the first: empty ones and `.` are skipped.
unfoldable pub piece_components : Text → List Component
piece_components [] = []
piece_components (byte ∷ piece) =
    if bytes_eq (byte ∷ piece) dot
    then []
    else if bytes_eq (byte ∷ piece) dot_dot
    then parent_dir ∷ []
    else normal (byte ∷ piece) ∷ []

abbrev pub rest_components : List Text → List Component
rest_components [] = []
rest_components (piece ∷ pieces) = piece_components piece ++ rest_components pieces

-- A leading `.` is kept, and an empty first piece of a path with a separator is the root.
unfoldable pub components_of : List Text → List Component
unfolding piece_components
components_of [] = []
components_of ([] ∷ []) = []
components_of ([] ∷ piece ∷ pieces) = root_dir ∷ rest_components (piece ∷ pieces)
components_of ((byte ∷ piece) ∷ pieces) =
    if bytes_eq (byte ∷ piece) dot
    then cur_dir ∷ rest_components pieces
    else rest_components ((byte ∷ piece) ∷ pieces)

unfoldable pub components : Text → List Component
unfolding split components_of
components text = components_of (split slash text)

pub data PathError : Type 0 where
  absolute unsafe empty invalid : PathError

-- A `PathBuf` built by pushing normal components is the list of them.
abbrev pub push : Text → Result PathError (List Text) → Result PathError (List Text)
push part (ok parts) = ok (part ∷ parts)
push part (err e) = err e

-- The loop over the components of `normalize_rel_path`.
unfoldable pub normal_parts : List Component → Result PathError (List Text)
normal_parts [] = ok []
normal_parts (normal part ∷ rest) = push part (normal_parts rest)
normal_parts (cur_dir ∷ rest) = normal_parts rest
normal_parts (parent_dir ∷ rest) = err unsafe
normal_parts (root_dir ∷ rest) = err unsafe

abbrev pub is_absolute : List Component → Bool
is_absolute (root_dir ∷ rest) = true
is_absolute _ = false

abbrev pub non_empty : PathError → List Text → Result PathError (List Text)
non_empty e [] = err e
non_empty e (part ∷ parts) = ok (part ∷ parts)

unfoldable pub normalize_rel_path : Text → Result PathError (List Text)
unfolding components normal_parts
normalize_rel_path rel_path =
    if is_absolute (components rel_path)
    then err absolute
    else (do parts ← normal_parts (components rel_path); non_empty empty parts)

abbrev pub normals : List Text → List Component
normals [] = []
normals (part ∷ parts) = normal part ∷ normals parts

-- `root.join(rel)`, with a path as its components.
unfoldable pub safe_join_rel : List Component → Text → Result PathError (List Component)
unfolding normalize_rel_path
safe_join_rel root rel_path = do parts ← normalize_rel_path rel_path; ok (root ++ normals parts)

-- `parts.join("/")`
unfoldable pub join : List Text → Text
join [] = []
join (part ∷ []) = part
join (part ∷ next ∷ parts) = part ++ slash ∷ join (next ∷ parts)

-- A component that is not UTF-8 is an error of its own in the program; the texts here are UTF-8.
unfoldable pub rel_to_string : Text → Result PathError Text
unfolding components normal_parts join
rel_to_string path = do
  parts ← normal_parts (components path)
  named ← non_empty invalid parts
  ok (join named)

unfoldable pub path_depth : Text → ℕ
unfolding components
path_depth path = length (components path)

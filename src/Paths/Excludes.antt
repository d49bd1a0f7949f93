-- ===== src/Paths/Excludes.antt =====
-- `is_rel_excluded` and `glob_segment_prefix_match` of src/core/sync/mod.rs.
use auto_sync.Prelude.{
  ℕ, ◌≡◌, refl, Bool, true, false, ◌&&◌, ◌||◌, List, [], ◌∷◌, ◌++◌, if◌then◌else◌, Text, bytes_eq,
  contains_byte, arith, ltb, length, length-append,
}
use auto_sync.Paths.Components.{
  Component, root_dir, cur_dir, parent_dir, normal, components, dot, dot_dot, slash,
}

-- A component as the text that `Path::iter` yields.
abbrev pub as_text : Component → Text
as_text root_dir = slash ∷ []
as_text cur_dir = dot
as_text parent_dir = dot_dot
as_text (normal part) = part

abbrev pub star : ℕ
star = b'*'

component_eq : Component → Component → Bool
component_eq root_dir root_dir = true
component_eq cur_dir cur_dir = true
component_eq parent_dir parent_dir = true
component_eq (normal a) (normal b) = bytes_eq a b
component_eq _ _ = false

-- `rel == exclude`, by components
unfoldable pub path_eq : List Component → List Component → Bool
unfolding component_eq
path_eq [] [] = true
path_eq (x ∷ xs) (y ∷ ys) = component_eq x y && path_eq xs ys
path_eq _ _ = false

-- `rel.starts_with(exclude)`, by components
unfoldable pub starts_with : List Component → List Component → Bool
unfolding component_eq
starts_with rel [] = true
starts_with [] (y ∷ ys) = false
starts_with (x ∷ xs) (y ∷ ys) = component_eq x y && starts_with xs ys

-- `pat_segs.iter().zip(&rel_segs).all(..)`: a zip ends with the shorter list.
unfoldable pub all_match : List Component → List Component → Bool
all_match [] rel = true
all_match (p ∷ pat) [] = true
all_match (p ∷ pat) (r ∷ rel) =
    (bytes_eq (as_text p) (star ∷ []) || bytes_eq (as_text p) (as_text r)) && all_match pat rel

unfoldable pub glob_segment_prefix_match : List Component → List Component → Bool
unfolding all_match
glob_segment_prefix_match rel pattern =
    if ltb (length rel) (length pattern) then false else all_match pattern rel

unfoldable pub exclude_matches : List Component → Text → Bool
unfolding glob_segment_prefix_match path_eq starts_with
exclude_matches rel exclude =
    if contains_byte star exclude
    then glob_segment_prefix_match rel (components exclude)
    else path_eq rel (components exclude) || starts_with rel (components exclude)

unfoldable pub is_rel_excluded : List Component → List Text → Bool
unfolding exclude_matches
is_rel_excluded rel [] = false
is_rel_excluded rel (exclude ∷ excludes) =
    exclude_matches rel exclude || is_rel_excluded rel excludes

starts_with_nil : (rel : List Component) → starts_with rel [] ≡ true
unfolding starts_with
starts_with_nil [] = refl
starts_with_nil (x ∷ xs) = refl

starts_with-append :
    (rel more pat : List Component)
    → starts_with rel pat ≡ true
    → starts_with (rel ++ more) pat ≡ true
unfolding starts_with
starts_with-append rel more [] h = starts_with_nil (rel ++ more)
starts_with-append [] more (y ∷ ys) h = cc
starts_with-append (x ∷ xs) more (y ∷ ys) h = ground (arith, starts_with-append xs more ys)

all_match-append :
    (rel more pat : List Component)
    → ltb (length rel) (length pat) ≡ false
    → all_match pat rel ≡ true
    → all_match pat (rel ++ more) ≡ true
unfolding all_match
all_match-append rel more [] l h = refl
all_match-append [] more (p ∷ pat) l h = absurd (ground arith)
all_match-append (r ∷ rel) more (p ∷ pat) l h = ground (arith, all_match-append rel more pat)

path_eq→starts_with :
    (rel pat : List Component) → path_eq rel pat ≡ true → starts_with rel pat ≡ true
unfolding path_eq starts_with
path_eq→starts_with rel [] h = starts_with_nil rel
path_eq→starts_with [] (y ∷ ys) h = cc
path_eq→starts_with (x ∷ xs) (y ∷ ys) h = ground (arith, path_eq→starts_with xs ys)

exclude_matches-append :
    (rel more : List Component) (exclude : Text)
    → exclude_matches rel exclude ≡ true
    → exclude_matches (rel ++ more) exclude ≡ true
unfolding exclude_matches
exclude_matches-append rel more exclude h = ground (
  arith,
  starts_with-append rel more (components exclude),
  all_match-append rel more (components exclude),
  path_eq→starts_with rel (components exclude),
  length-append {0} rel more,
)

-- Everything below an excluded path is excluded, so a walk that prunes at an excluded directory
-- drops only entries that the exclude list drops.
pub is_rel_excluded-append :
    (rel more : List Component) (excludes : List Text)
    → is_rel_excluded rel excludes ≡ true
    → is_rel_excluded (rel ++ more) excludes ≡ true
unfolding is_rel_excluded
is_rel_excluded-append rel more [] h = cc
is_rel_excluded-append rel more (exclude ∷ excludes) h =
    ground
      (arith, exclude_matches-append rel more exclude, is_rel_excluded-append rel more excludes)

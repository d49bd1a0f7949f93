-- ===== src/Paths/Tests.antt =====
-- Runs of the path functions, and their theorems at concrete paths.
use auto_sync.Prelude.{
  ◌≡◌, ◌≢◌, refl, true, List, [], ◌∷◌, ◌++◌, Text, codes, bytes_eq, ok, err, All,
}
use auto_sync.Paths.Components.{
  Component, root_dir, normal, unsafe, absolute, components, normalize_rel_path, safe_join_rel,
  rel_to_string, join, normals,
}
use auto_sync.Paths.Safety.{IsName, safe_join_rel-below}
use auto_sync.Paths.RoundTrip.{normalize_rel_path-rel_to_string}
use auto_sync.Paths.Excludes.{is_rel_excluded, is_rel_excluded-append}

abbrev a_b : List Text
a_b = codes "a" ∷ codes "b" ∷ []

normalize_run :
    (normalize_rel_path (codes "./a//b/.") ≡ ok a_b)
    × (normalize_rel_path (codes "a/../b") ≡ err unsafe)
    × (normalize_rel_path (codes "/a") ≡ err absolute)
unfolding normalize_rel_path bytes_eq
normalize_run = (refl, refl, refl)

abbrev root : List Component
root = root_dir ∷ normal (codes "srv") ∷ []

safe_join_rel-below_example :
    (parts : List Text) × (root ++ normals a_b ≡ root ++ normals parts)
    × (parts ≢ [])
    × All IsName parts
unfolding safe_join_rel bytes_eq
safe_join_rel-below_example = safe_join_rel-below root (codes "./a//b/.") (root ++ normals a_b) refl

normalize_rel_path-rel_to_string_example :
    (rel_to_string (codes "./a//b/.") ≡ ok (join a_b)) × (normalize_rel_path (join a_b) ≡ ok a_b)
normalize_rel_path-rel_to_string_example =
    normalize_rel_path-rel_to_string (codes "./a//b/.") a_b normalize_run.0

abbrev caches : List Text
caches = codes "tmp" ∷ codes "*/cache" ∷ []

excluded_run : is_rel_excluded (components (codes "u/cache")) caches ≡ true
unfolding is_rel_excluded components bytes_eq
excluded_run = refl

is_rel_excluded-append_example :
    is_rel_excluded (components (codes "u/cache") ++ normal (codes "f") ∷ []) caches ≡ true
is_rel_excluded-append_example =
    is_rel_excluded-append (components (codes "u/cache")) (normal (codes "f") ∷ []) caches
      excluded_run

-- ===== src/Paths/RoundTrip.antt =====
-- Names joined by `/` (src/core/sync/mod.rs) are read back as the same names.
use auto_sync.Prelude.{
  ◌≡◌, ◌≢◌, refl, false, List, [], ◌∷◌, ◌++◌, ap, ◌∙◌, Text, ok, ◌>>=◌, contains_byte, All, arith,
}
use auto_sync.Paths.Components.{
  normal, slash, split, piece_components, rest_components, components_of, components, invalid,
  non_empty, normal_parts, normalize_rel_path, join, normals, rel_to_string,
}
use auto_sync.Paths.Safety.{IsName, normalize_rel_path-IsName, normalize_rel_path-normal_parts}

split-name : (piece : Text) → contains_byte slash piece ≡ false → split slash piece ≡ piece ∷ []
unfolding split
split-name [] h = refl
split-name (byte ∷ piece) h = ground (arith, split-name piece)

split-append :
    (piece rest : Text)
    → contains_byte slash piece ≡ false
    → split slash (piece ++ slash ∷ rest) ≡ piece ∷ split slash rest
unfolding split
split-append [] rest h = refl
split-append (byte ∷ piece) rest h = ground (arith, split-append piece rest)

split-join : (parts : List Text) → parts ≢ [] → All IsName parts → split slash (join parts) ≡ parts
unfolding join
split-join [] h a = absurd (h refl)
split-join (part ∷ []) h a = split-name part a.0.one
split-join (part ∷ next ∷ parts) h a =
    split-append part (join (next ∷ parts)) a.0.one
    ∙ ap (λ t. part ∷ t) (split-join (next ∷ parts) (λ e. cc) a.1)

piece_components-name : (part : Text) → IsName part → piece_components part ≡ normal part ∷ []
unfolding piece_components
piece_components-name [] n = absurd (n.named refl)
piece_components-name (byte ∷ part) n = rw (n.not_dot, n.not_dot_dot)

rest_components-names :
    (parts : List Text) → All IsName parts → rest_components parts ≡ normals parts
rest_components-names [] a = refl
rest_components-names (part ∷ parts) a =
    rw (piece_components-name part a.0, rest_components-names parts a.1)

components_of-names : (parts : List Text) → All IsName parts → components_of parts ≡ normals parts
unfolding components_of
components_of-names [] a = refl
components_of-names ([] ∷ parts) a = absurd (a.0.named refl)
components_of-names ((byte ∷ part) ∷ parts) a =
    rw (a.0.not_dot, a.0.not_dot_dot)
      (ap (λ cs. normal (byte ∷ part) ∷ cs) (rest_components-names parts a.1))

components-join :
    (parts : List Text) → parts ≢ [] → All IsName parts → components (join parts) ≡ normals parts
unfolding components
components-join parts h a = rw (split-join parts h a) (components_of-names parts a)

normal_parts-normals : (parts : List Text) → normal_parts (normals parts) ≡ ok parts
unfolding normal_parts
normal_parts-normals [] = refl
normal_parts-normals (part ∷ parts) = rw (normal_parts-normals parts)

-- Names joined by `/` are accepted, and read back as the same names.
pub normalize_rel_path-join :
    (parts : List Text) → parts ≢ [] → All IsName parts → normalize_rel_path (join parts) ≡ ok parts
unfolding normalize_rel_path
normalize_rel_path-join [] h a = absurd (h refl)
normalize_rel_path-join (part ∷ parts) h a =
    rw (components-join (part ∷ parts) h a, normal_parts-normals (part ∷ parts))

non_empty-ok : (parts : List Text) → parts ≢ [] → non_empty invalid parts ≡ ok parts
non_empty-ok [] h = absurd (h refl)
non_empty-ok (part ∷ parts) h = refl

-- `rel_to_string` writes an accepted path so that it reads back as the same parts: a path that was
-- accepted once is stored as a string that is accepted again, with the same meaning.
pub normalize_rel_path-rel_to_string :
    (rel_path : Text) (parts : List Text)
    → normalize_rel_path rel_path ≡ ok parts
    → (rel_to_string rel_path ≡ ok (join parts)) × (normalize_rel_path (join parts) ≡ ok parts)
unfolding rel_to_string
normalize_rel_path-rel_to_string rel_path parts h =
    let (some_part, found) = normalize_rel_path-normal_parts rel_path parts h in
    let names = (normalize_rel_path-IsName rel_path parts h).1 in
    (
      rw (found, rel_to_string)
          (ap (λ r. r >>= λ named. ok (join named)) (non_empty-ok parts some_part)),
      normalize_rel_path-join parts some_part names,
    )

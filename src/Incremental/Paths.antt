-- ===== src/Incremental/Paths.antt =====
-- The paths that the events of a destination give (src/core/sync/mod.rs).
use auto_sync.Prelude.{
  ◌≡◌, refl, ap, sym, subst, ◌∙◌, true, Bool-cases, inl, inr, Option, none, some, List, [], ◌∷◌,
  if_true, if_false, Text, bytes_eq, bytes_eq_iff, arith, Result, ok, err, exists_row, Memᴰ,
  Member-append_left, Member-append_right,
}
use auto_sync.Paths.Components.{PathError}
use auto_sync.Store.Tables.{Event, insert_source}
use auto_sync.Incremental.Plan.{EventPaths, event_rel, add_rel, add_event, event_paths}

-- A set of paths that has what a smaller one has.
abbrev pub Grows : List Text → List Text → Type 0
Grows a b = (t : Text) → Memᴰ t a → Memᴰ t b

Member-insert_source : (t : Text) (paths : List Text) → Memᴰ t (insert_source t paths)
Member-insert_source t paths = elim (Bool-cases (exists_row (λ x. bytes_eq x t) paths)) [
  | inl h ↦
      subst (Memᴰ t) (sym (if_true (exists_row (λ x. bytes_eq x t) paths) _ _ h)) (there paths h)
  | inr h ↦
      subst (Memᴰ t) (sym (if_false (exists_row (λ x. bytes_eq x t) paths) _ _ h))
        (Member-append_right t paths (t ∷ []) (Memᴰ.head refl))
]
  where
    there : (paths : List Text) → exists_row (λ x. bytes_eq x t) paths ≡ true → Memᴰ t paths
    there [] h = cc
    there (x ∷ paths) h = elim (Bool-cases (bytes_eq x t)) [
      | inl same ↦ Memᴰ.head (sym ((bytes_eq_iff x t).0 same))
      | inr other ↦ Memᴰ.tail (there paths (ground (arith, other)))
    ]

Grows-insert_source : (new : Text) (paths : List Text) → Grows paths (insert_source new paths)
Grows-insert_source new paths t m = elim (Bool-cases (exists_row (λ x. bytes_eq x new) paths)) [
  | inl h ↦ subst (Memᴰ t) (sym (if_true (exists_row (λ x. bytes_eq x new) paths) _ _ h)) m
  | inr h ↦
      subst (Memᴰ t) (sym (if_false (exists_row (λ x. bytes_eq x new) paths) _ _ h))
        (Member-append_left t paths (new ∷ []) m)
]

-- An event's path in a list of paths.
abbrev pub Covers : List Text → Text → Type 0
Covers paths rel_path = (rel : Text) × (event_rel rel_path ≡ ok rel) × Memᴰ rel paths

-- Once the loop has no paths, it has none at its end.
missing_stays : (events : List Event) → event_paths EventPaths.missing events ≡ EventPaths.missing
unfolding event_paths
missing_stays [] = refl
missing_stays (e ∷ events) = ap (λ x. event_paths x events) (same e.rel_path) ∙ missing_stays events
  where
    same : (o : Option Text) → add_event EventPaths.missing o ≡ EventPaths.missing
    same none = refl
    same (some rel_path) = refl

invalid_stays :
    (events : List Event) → event_paths EventPaths.invalid_path events ≡ EventPaths.invalid_path
unfolding event_paths
invalid_stays [] = refl
invalid_stays (e ∷ events) = ap (λ x. event_paths x events) (same e.rel_path) ∙ invalid_stays events
  where
    same : (o : Option Text) → add_event EventPaths.invalid_path o ≡ EventPaths.invalid_path
    same none = refl
    same (some rel_path) = refl

-- What one event adds to the paths, where the loop goes on to an end.
abbrev pub Step : Event → List Text → List Event → List Text → Type 0
Step event before events paths =
    (after : List Text) × (event_paths (EventPaths.found after) events ≡ EventPaths.found paths)
    × Grows before after
    × ((rel_path : Text) → event.rel_path ≡ some rel_path → Covers after rel_path)

some_injective : (a b : Text) → some a ≡ some b → a ≡ b
some_injective a b k = cc

step :
    (event : Event) (before : List Text) (events : List Event) (paths : List Text)
    → event_paths (EventPaths.found before) (event ∷ events) ≡ EventPaths.found paths
    → Step event before events paths
unfolding event_paths
step event before events paths h = by_path event.rel_path refl h
  where
    by_rel :
        (rel_path : Text) (r : Result PathError Text)
        → event.rel_path ≡ some rel_path
        → event_rel rel_path ≡ r
        → event_paths (add_rel (EventPaths.found before) r) events ≡ EventPaths.found paths
        → Step event before events paths
    by_rel rel_path (ok rel) e e2 h = (
      insert_source rel before,
      h,
      Grows-insert_source rel before,
      λ other e3.
          subst (Covers (insert_source rel before)) (some_injective rel_path other (sym e ∙ e3))
            (rel, e2, Member-insert_source rel before),
    )
    by_rel rel_path (err x) e e2 h = absurd (cc (invalid_stays events, h))

    by_path :
        (o : Option Text)
        → event.rel_path ≡ o
        → event_paths (add_event (EventPaths.found before) o) events ≡ EventPaths.found paths
        → Step event before events paths
    by_path none e h = absurd (cc (missing_stays events, h))
    by_path (some rel_path) e h = by_rel rel_path (event_rel rel_path) e refl h

pub event_paths-Covers :
    (events : List Event) (before paths : List Text)
    → event_paths (EventPaths.found before) events ≡ EventPaths.found paths
    → Grows before paths
      × ((e : Event) (rel_path : Text)
          → Memᴰ e events
          → e.rel_path ≡ some rel_path
          → Covers paths rel_path)
unfolding event_paths
event_paths-Covers [] before paths h =
    (λ t m. subst (Memᴰ t) (same before paths h) m, λ e rel_path m. elim m [ ])
  where
    same : (a b : List Text) → EventPaths.found a ≡ EventPaths.found b → a ≡ b
    same a b k = cc
event_paths-Covers (event ∷ events) before paths h =
    let (after, h2, grows, covers) = step event before events paths h in
    let (grows2, covers2) = event_paths-Covers events after paths h2 in
    (
      λ t m. grows2 t (grows t m),
      λ e rel_path m here. by_member e rel_path m here after grows2 covers covers2,
    )
  where
    by_member :
        (e : Event) (rel_path : Text)
        → Memᴰ e (event ∷ events)
        → e.rel_path ≡ some rel_path
        → (after : List Text) → Grows after paths
        → ((r : Text) → event.rel_path ≡ some r → Covers after r)
        → ((x : Event) (r : Text) → Memᴰ x events → x.rel_path ≡ some r → Covers paths r)
        → Covers paths rel_path
    by_member e rel_path (Memᴰ.head same) here after grows covers covers2 =
        let (rel, e2, m) = covers rel_path (ap (λ (x : Event). x.rel_path) (sym same) ∙ here) in
        (rel, e2, grows rel m)
    by_member e rel_path (Memᴰ.tail m) here after grows covers covers2 = covers2 e rel_path m here

-- ===== src/Store/Configured.antt =====
-- The rows that `ensure_config` inserts (src/core/state.rs) read as a missing row does.
use auto_sync.Prelude.{
  ℕ, ◌≡◌, refl, ap, sym, ◌∙◌, Bool, true, false, Bool-cases, inl, inr, ◌&&◌, none, List, [], ◌∷◌,
  ◌++◌, if_true, if_false, Text, codes, bytes_eq, bytes_eq_iff, arith, exists_row, select_rows,
  first_row,
}
use auto_sync.Store.Tables.{Offset, Store}
use auto_sync.Store.Offsets.{destination_offset, offset_or, offset_of, new_offset}
use auto_sync.Store.Targets.{
  DestinationConfig, AppConfig, ensure_destination_offset, ensure_destinations, ensure_sources,
  ensure_config,
}

module _ (p : Offset → Bool) (new : Offset) where
  select-other :
      (rows : List Offset) → p new ≡ false → select_rows p (rows ++ new ∷ []) ≡ select_rows p rows
  select-other [] h = rw h refl
  select-other (o ∷ rows) h = rw (select-other rows h) refl

  select-none : (rows : List Offset) → exists_row p rows ≡ false → select_rows p rows ≡ []
  select-none [] h = refl
  select-none (o ∷ rows) h = elim (Bool-cases (p o)) [
    | inl t ↦ absurd (ground (arith, t, h))
    | inr f ↦ rw f (select-none rows (ground (arith, f, h)))
  ]

  select-new :
      (rows : List Offset)
      → exists_row p rows ≡ false
      → p new ≡ true
      → select_rows p (rows ++ new ∷ []) ≡ new ∷ []
  select-new [] h k = rw k refl
  select-new (o ∷ rows) h k = elim (Bool-cases (p o)) [
    | inl t ↦ absurd (ground (arith, t, h))
    | inr f ↦ rw f (select-new rows (ground (arith, f, h)) k)
  ]

abbrev default_offset : Text → Text → ℕ → Offset
default_offset source_id id now =
    new_offset source_id id none none (codes "red") (codes "not_verified") now

offset-appended :
    (source_id id other_source other : Text) (now : ℕ) (rows : List Offset)
    → exists_row (offset_of other_source other) rows ≡ false
    → offset_or source_id id now (
        first_row (
          select_rows
            (offset_of source_id id)
            (rows ++ default_offset other_source other now ∷ [])))
      ≡ offset_or source_id id now (first_row (select_rows (offset_of source_id id) rows))
offset-appended source_id id other_source other now rows h =
    elim (Bool-cases (bytes_eq other_source source_id && bytes_eq other id)) [
      | inl same ↦
          let e : other_source ≡ source_id =
            (bytes_eq_iff other_source source_id).0 (ground arith) in
          let e2 : other ≡ id = (bytes_eq_iff other id).0 (ground arith) in
          let absent : exists_row (offset_of source_id id) rows ≡ false = rw (sym e, sym e2) h in
          ap (λ l. offset_or source_id id now (first_row l))
            (select-new (offset_of source_id id) (default_offset other_source other now) rows absent
              same)
          ∙ (rw (e, e2) refl
              ∙ sym (
                  ap (λ l. offset_or source_id id now (first_row l))
                    (select-none (offset_of source_id id) (default_offset source_id id now) rows
                      absent)))
      | inr differ ↦
          ap (λ l. offset_or source_id id now (first_row l))
            (select-other (offset_of source_id id) (default_offset other_source other now) rows
              differ)
    ]

offset-ensure_destination_offset :
    (source_id id other_source other : Text) (now : ℕ) (s : Store)
    → destination_offset source_id id now (ensure_destination_offset other_source other now s)
      ≡ destination_offset source_id id now s
unfolding destination_offset ensure_destination_offset
offset-ensure_destination_offset source_id id other_source other now s =
    elim (Bool-cases (exists_row (offset_of other_source other) s.destination_offset)) [
      | inl h ↦
          ap (λ l. offset_or source_id id now (first_row (select_rows (offset_of source_id id) l)))
            (if_true _ s.destination_offset _ h)
      | inr h ↦
          ap (λ l. offset_or source_id id now (first_row (select_rows (offset_of source_id id) l)))
            (if_false _ s.destination_offset _ h)
          ∙ offset-appended source_id id other_source other now s.destination_offset h
    ]

offset-ensure_destinations :
    (source_id id other_source : Text) (destinations : List DestinationConfig) (now : ℕ) (s : Store)
    → destination_offset source_id id now (ensure_destinations other_source destinations now s)
      ≡ destination_offset source_id id now s
unfolding ensure_destinations
offset-ensure_destinations source_id id other_source [] now s = refl
offset-ensure_destinations source_id id other_source (d ∷ destinations) now s =
    offset-ensure_destinations source_id id other_source destinations now
      (ensure_destination_offset other_source d.id now s)
    ∙ offset-ensure_destination_offset source_id id other_source d.id now s

offset-ensure_sources :
    (source_id id : Text) (cfg : AppConfig) (now : ℕ) (s : Store)
    → destination_offset source_id id now (ensure_sources cfg now s)
      ≡ destination_offset source_id id now s
unfolding ensure_sources
offset-ensure_sources source_id id [] now s = refl
offset-ensure_sources source_id id (source ∷ cfg) now s =
    offset-ensure_sources source_id id cfg now
      (ensure_destinations source.id source.destinations now s)
    ∙ offset-ensure_destinations source_id id source.id source.destinations now s

pub offset-ensure_config :
    (source_id id : Text) (cfg : AppConfig) (applied : Bool) (now : ℕ) (s : Store)
    → destination_offset source_id id now (ensure_config cfg applied now s)
      ≡ destination_offset source_id id now s
unfolding ensure_config
offset-ensure_config source_id id cfg true now s = refl
offset-ensure_config source_id id cfg false now s = offset-ensure_sources source_id id cfg now s

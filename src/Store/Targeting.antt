-- ===== src/Store/Targeting.antt =====
-- What targeting does to the rows of the destinations (src/core/state.rs).
use auto_sync.Prelude.{
  ℕ, ◌≡◌, refl, ap, ◌∙◌, Bool, true, false, Bool-cases, inl, inr, ◌&&◌, none, some, List, [], ◌∷◌,
  ◌++◌, if_true, if_false, Text, codes, bytes_eq, bytes_eq_iff, bytes_eq_refl, arith, exists_row,
  select_rows, update_rows, upsert_row, first_row,
}
use auto_sync.Store.Tables.{Offset, Store, mark_local_change}
use auto_sync.Store.Offsets.{
  offset_of, new_offset, with_target, clear_destination_issues, set_destination_target,
  destination_offset, destination_target_cycle, offset_or,
}

module _ (q p : Offset → Bool) (f : Offset → Offset) (new : Offset) where
  -- Rows that the statement does not find are read as before.
  select-update_other :
      (rows : List Offset)
      → ((o : Offset) → p o ≡ true → (q o ≡ false) × (q (f o) ≡ false))
      → select_rows q (update_rows p f rows) ≡ select_rows q rows
  select-update_other [] apart = refl
  select-update_other (o ∷ rows) apart = elim (Bool-cases (p o)) [
    | inl h ↦ let a = apart o h in rw (h, a.0, a.1) (select-update_other rows apart)
    | inr h ↦ rw (h, select-update_other rows apart) refl
  ]

  select-append_other :
      (rows : List Offset) → q new ≡ false → select_rows q (rows ++ new ∷ []) ≡ select_rows q rows
  select-append_other [] h = rw h refl
  select-append_other (o ∷ rows) h = rw (select-append_other rows h) refl

  select-upsert_other :
      (rows : List Offset)
      → ((o : Offset) → p o ≡ true → (q o ≡ false) × (q (f o) ≡ false))
      → q new ≡ false
      → select_rows q (upsert_row p f new rows) ≡ select_rows q rows
  select-upsert_other rows apart h = elim (Bool-cases (exists_row p rows)) [
    | inl t ↦
        ap (select_rows q) (if_true (exists_row p rows) _ _ t) ∙ select-update_other rows apart
    | inr t ↦ ap (select_rows q) (if_false (exists_row p rows) _ _ t) ∙ select-append_other rows h
  ]

module _ (p : Offset → Bool) (f : Offset → Offset) (new : Offset) (P : Offset → Type 0) where
  found_updated :
      (rows : List Offset)
      → ((o : Offset) → p o ≡ true → p (f o) ≡ true)
      → ((o : Offset) → P (f o))
      → exists_row p rows ≡ true
      → (o : Offset) × (first_row (select_rows p (update_rows p f rows)) ≡ some o) × P o
  found_updated [] key after h = cc
  found_updated (o ∷ rows) key after h = elim (Bool-cases (p o)) [
    | inl t ↦ rw (t, key o t) (f o, refl, after o)
    | inr t ↦ rw (t, t) (found_updated rows key after (ground arith))
  ]

  found_appended :
      (rows : List Offset)
      → p new ≡ true
      → exists_row p rows ≡ false
      → first_row (select_rows p (rows ++ new ∷ [])) ≡ some new
  found_appended [] h none_there = rw h refl
  found_appended (o ∷ rows) h none_there =
      let miss : p o ≡ false = ground arith in rw miss (found_appended rows h (ground arith))

  -- The row that the statement writes is the one that is read.
  found_upserted :
      (rows : List Offset)
      → ((o : Offset) → p o ≡ true → p (f o) ≡ true)
      → ((o : Offset) → P (f o))
      → p new ≡ true
      → P new
      → (o : Offset) × (first_row (select_rows p (upsert_row p f new rows)) ≡ some o) × P o
  found_upserted rows key after h fresh = elim (Bool-cases (exists_row p rows)) [
    | inl t ↦
        let (o, found, holds) = found_updated rows key after t in
        (
          o,
          ap (λ l. first_row (select_rows p l)) (if_true (exists_row p rows) _ _ t) ∙ found,
          holds,
        )
    | inr t ↦ (
      new,
      ap (λ l. first_row (select_rows p l)) (if_false (exists_row p rows) _ _ t)
          ∙ found_appended rows h t,
      fresh,
    )
  ]

-- The rows of one destination.
abbrev pub rows_of : Text → Text → Store → List Offset
rows_of source_id destination_id s =
    select_rows (offset_of source_id destination_id) s.destination_offset

pub rows_of-set_destination_target :
    (source_id id other_source other : Text) (cycle_id now : ℕ) (s : Store)
    → bytes_eq other_source source_id && bytes_eq other id ≡ false
    → rows_of source_id id (set_destination_target other_source other cycle_id now s)
      ≡ rows_of source_id id s
unfolding set_destination_target clear_destination_issues mark_local_change
rows_of-set_destination_target source_id id other_source other cycle_id now s h =
    select-upsert_other (offset_of source_id id) (offset_of other_source other)
      (with_target cycle_id now)
      (new_offset other_source other (some cycle_id) none (codes "red")
        (codes "pending_target_cycle") now)
      s.destination_offset (λ o t. let no = apart o t in (no, no)) h
  where
    apart : (o : Offset) → offset_of other_source other o ≡ true → offset_of source_id id o ≡ false
    apart o t = ground (
      arith,
      h,
      t,
      bytes_eq_iff o.source_id source_id,
      bytes_eq_iff o.destination_id id,
      bytes_eq_iff o.source_id other_source,
      bytes_eq_iff o.destination_id other,
      bytes_eq_iff other_source source_id,
      bytes_eq_iff other id,
    )

pub target-set_destination_target :
    (source_id id : Text) (cycle_id now : ℕ) (s : Store)
    → destination_target_cycle source_id id now (set_destination_target source_id id cycle_id now s)
      ≡ some cycle_id
unfolding set_destination_target clear_destination_issues mark_local_change destination_target_cycle
    destination_offset
target-set_destination_target source_id id cycle_id now s =
    let (o, found, holds) =
      found_upserted (offset_of source_id id) (with_target cycle_id now)
        (new_offset source_id id (some cycle_id) none (codes "red") (codes "pending_target_cycle")
          now)
        (λ o. o.target_cycle_id ≡ some cycle_id) s.destination_offset (λ o h. h) (λ o. refl)
        (ground (arith, bytes_eq_refl source_id, bytes_eq_refl id)) refl in
    ap (λ r. (offset_or source_id id now r).target_cycle_id) found ∙ holds

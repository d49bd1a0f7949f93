-- ===== src/Store/Raised.antt =====
-- A notice that is raised, and what leaves it as it is (src/core/state.rs, table `source_meta`).
use auto_sync.Prelude.{
  ℕ, subst, bytes_eq_iff, ◌≡◌, refl, ap, sym, ◌∙◌, Bool, true, false, Bool-cases, inl, inr, ◌&&◌,
  Option, some, List, [], ◌∷◌, ◌++◌, if_true, if_false, Text, bytes_eq, bytes_eq_refl, arith,
  exists_row, select_rows, update_rows, count_rows, insert_new_row, first_row,
}
use auto_sync.Store.Tables.{SourceMeta, Store}
use auto_sync.Store.Events.{touch_source, later_time}
use auto_sync.Store.Notices.{of_source, is_present, unnoticed, with_notice, empty_meta, notice_of}

pub none_unnoticed :
    (source_id : Text) (now : ℕ) (rows : List SourceMeta)
    → count_rows (unnoticed source_id) (update_rows (unnoticed source_id) (with_notice now) rows)
      ≡ 0
none_unnoticed source_id now [] = refl
none_unnoticed source_id now (m ∷ rows) = elim (Bool-cases (unnoticed source_id m)) [
  | inl h ↦
      let noticed : unnoticed source_id (with_notice now m) ≡ false = ground arith in
      rw (h, noticed) (none_unnoticed source_id now rows)
  | inr h ↦ rw (h, h) (none_unnoticed source_id now rows)
]

pub update_none :
    (p : SourceMeta → Bool) (f : SourceMeta → SourceMeta) (rows : List SourceMeta)
    → count_rows p rows ≡ 0
    → update_rows p f rows ≡ rows
update_none p f [] h = refl
update_none p f (m ∷ rows) h = elim (Bool-cases (p m)) [
  | inl t ↦ absurd (ground (arith, t, h))
  | inr t ↦ rw t (ap (λ l. m ∷ l) (update_none p f rows (ground (arith, t, h))))
]

pub exists-update :
    (source_id : Text) (now : ℕ) (rows : List SourceMeta)
    → exists_row (of_source source_id) (update_rows (unnoticed source_id) (with_notice now) rows)
      ≡ exists_row (of_source source_id) rows
exists-update source_id now [] = refl
exists-update source_id now (m ∷ rows) = elim (Bool-cases (unnoticed source_id m)) [
  | inl h ↦ rw (h, exists-update source_id now rows) refl
  | inr h ↦ rw (h, exists-update source_id now rows) refl
]

pub exists-insert :
    (source_id : Text) (rows : List SourceMeta)
    → exists_row
        (of_source source_id)
        (insert_new_row (of_source source_id) (empty_meta source_id) rows)
      ≡ true
exists-insert source_id rows = elim (Bool-cases (exists_row (of_source source_id) rows)) [
  | inl h ↦
      ap (exists_row (of_source source_id)) (if_true (exists_row (of_source source_id) rows) _ _ h)
      ∙ h
  | inr h ↦
      ap (exists_row (of_source source_id)) (if_false (exists_row (of_source source_id) rows) _ _ h)
      ∙ last rows
]
  where
    last :
        (rows : List SourceMeta)
        → exists_row (of_source source_id) (rows ++ empty_meta source_id ∷ []) ≡ true
    last [] = ground (arith, bytes_eq_refl source_id)
    last (m ∷ rows) = ground (arith, last rows)

-- What holds of a source's rows once its notice is raised, with the notice.
pub record IsRaised (source_id : Text) (notice : Option (Option ℕ × Option ℕ))
    (rows : List SourceMeta) : Type 0 where
  pub there : exists_row (of_source source_id) rows ≡ true
  pub settled : count_rows (unnoticed source_id) rows ≡ 0
  pub shown :
      notice_of (
        first_row (select_rows (λ m. of_source source_id m && is_present m.restart_notice_at) rows))
      ≡ notice

module _ (source_id : Text) (p : SourceMeta → Bool) (f : Option ℕ → Option ℕ) where
  observed : SourceMeta → SourceMeta
  observed m = record m { last_event_observed_at = f m.last_event_observed_at }

  IsRaised-update_rows :
      (notice : Option (Option ℕ × Option ℕ)) (rows : List SourceMeta)
      → IsRaised source_id notice rows
      → IsRaised source_id notice (update_rows p observed rows)
  unfolding observed
  IsRaised-update_rows notice rows r = record {
    there = exists_same rows ∙ r.there;
    settled = count_same rows ∙ r.settled;
    shown = notice_same rows ∙ r.shown;
  }
    where
      exists_same :
          (rows : List SourceMeta)
          → exists_row (of_source source_id) (update_rows p observed rows)
            ≡ exists_row (of_source source_id) rows
      exists_same [] = refl
      exists_same (m ∷ rows) = elim (Bool-cases (p m)) [
        | inl h ↦ rw (h, exists_same rows) refl
        | inr h ↦ rw (h, exists_same rows) refl
      ]

      count_same :
          (rows : List SourceMeta)
          → count_rows (unnoticed source_id) (update_rows p observed rows)
            ≡ count_rows (unnoticed source_id) rows
      count_same [] = refl
      count_same (m ∷ rows) = elim (Bool-cases (p m)) [
        | inl h ↦ rw (h, count_same rows) refl
        | inr h ↦ rw (h, count_same rows) refl
      ]

      notice_same :
          (rows : List SourceMeta)
          → notice_of (
              first_row (
                select_rows
                  (λ m. of_source source_id m && is_present m.restart_notice_at)
                  (update_rows p observed rows)))
            ≡ notice_of (
                first_row
                  (select_rows (λ m. of_source source_id m && is_present m.restart_notice_at) rows))
      notice_same [] = refl
      notice_same (m ∷ rows) =
          elim (Bool-cases (of_source source_id m && is_present m.restart_notice_at)) [
            | inl t ↦ elim (Bool-cases (p m)) [ inl h ↦ rw (h, t) refl | inr h ↦ rw (h, t) refl ]
            | inr t ↦ elim (Bool-cases (p m)) [
              | inl h ↦ rw (h, t) (notice_same rows)
              | inr h ↦ rw (h, t) (notice_same rows)
            ]
          ]

-- A row of another source.
IsRaised-append :
    (source_id : Text) (notice : Option (Option ℕ × Option ℕ)) (rows : List SourceMeta)
    (m : SourceMeta)
    → of_source source_id m ≡ false
    → IsRaised source_id notice rows
    → IsRaised source_id notice (rows ++ m ∷ [])
IsRaised-append source_id notice rows m h r = record {
  there = exists_more rows r.there;
  settled = count_same rows ∙ r.settled;
  shown = notice_same rows ∙ r.shown;
}
  where
    exists_more :
        (rows : List SourceMeta)
        → exists_row (of_source source_id) rows ≡ true
        → exists_row (of_source source_id) (rows ++ m ∷ []) ≡ true
    exists_more [] k = cc
    exists_more (x ∷ rows) k = ground (arith, exists_more rows)

    count_same :
        (rows : List SourceMeta)
        → count_rows (unnoticed source_id) (rows ++ m ∷ []) ≡ count_rows (unnoticed source_id) rows
    count_same [] = rw h refl
    count_same (x ∷ rows) = rw (count_same rows) refl

    notice_same :
        (rows : List SourceMeta)
        → notice_of (
            first_row (
              select_rows
                (λ m. of_source source_id m && is_present m.restart_notice_at)
                (rows ++ m ∷ [])))
          ≡ notice_of (
              first_row
                (select_rows (λ m. of_source source_id m && is_present m.restart_notice_at) rows))
    notice_same [] = rw h refl
    notice_same (x ∷ rows) =
        elim (Bool-cases (of_source source_id x && is_present x.restart_notice_at)) [
          | inl t ↦ rw t refl
          | inr t ↦ rw t (notice_same rows)
        ]

-- An event of any source is observed.
pub IsRaised-touch_source :
    (source_id : Text) (notice : Option (Option ℕ × Option ℕ)) (touched : Text) (now : ℕ)
    (s : Store)
    → IsRaised source_id notice s.source_meta
    → IsRaised source_id notice (touch_source touched now s).source_meta
unfolding touch_source observed
IsRaised-touch_source source_id notice touched now s r =
    elim (Bool-cases (exists_row (λ m. bytes_eq m.source_id touched) s.source_meta)) [
      | inl h ↦ subst (IsRaised source_id notice) (sym (if_true _ _ _ h)) (
          IsRaised-update_rows source_id (λ m. bytes_eq m.source_id touched)
            (λ at. some (later_time at now)) notice s.source_meta r)
      | inr h ↦
          subst (IsRaised source_id notice) (sym (if_false _ _ _ h))
            (IsRaised-append source_id notice s.source_meta _ (other h) r)
    ]
  where
    other :
        exists_row (λ m. bytes_eq m.source_id touched) s.source_meta ≡ false
        → bytes_eq touched source_id ≡ false
    other h = elim (Bool-cases (bytes_eq touched source_id)) [
      | inl same ↦
          let e : touched ≡ source_id = (bytes_eq_iff touched source_id).0 same in
          absurd (
            cc (
              r.there,
              sym (
                    ap (λ t. exists_row (λ (m : SourceMeta). bytes_eq m.source_id t) s.source_meta)
                      e)
                  ∙ h,
            ))
      | inr differ ↦ differ
    ]

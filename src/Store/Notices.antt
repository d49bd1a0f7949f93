-- ===== src/Store/Notices.antt =====
-- The notice that a restart left a gap in what was watched (src/core/state.rs, table `source_meta`).
use auto_sync.Prelude.{
  ℕ, ◌<◌, ◌≡◌, refl, ap, sym, ◌∙◌, Bool, true, false, Bool-cases, inl, inr, not, ◌&&◌, Option, none,
  some, List, [], ◌∷◌, if_true, if_false, Text, bytes_eq, arith, ltb, leb, select_rows, update_rows,
  count_rows, insert_new_row, first_row,
}
use auto_sync.Store.Tables.{SourceMeta, Store}

abbrev pub of_source : Text → SourceMeta → Bool
of_source source_id m = bytes_eq m.source_id source_id

abbrev pub is_present : Option ℕ → Bool
is_present none = false
is_present (some at) = true

abbrev pub unnoticed : Text → SourceMeta → Bool
unnoticed source_id m = of_source source_id m && not (is_present m.restart_notice_at)

abbrev pub with_notice : ℕ → SourceMeta → SourceMeta
with_notice now m = record m {
  restart_notice_at = some now;
  restart_gap_started = m.last_event_observed_at;
}

abbrev pub empty_meta : Text → SourceMeta
empty_meta source_id = record {
  source_id = source_id;
  last_event_observed_at = none;
  restart_notice_at = none;
  restart_gap_started = none;
}

abbrev pub raised : Text → ℕ → List SourceMeta → List SourceMeta × Bool
raised source_id now rows = (
  update_rows (unnoticed source_id) (with_notice now) rows,
  ltb 0 (count_rows (unnoticed source_id) rows),
)

-- The store, and whether a notice was raised.
unfoldable pub raise_restart_notice : Text → ℕ → Store → Store × Bool
raise_restart_notice source_id now s =
    let r =
      raised source_id now
        (insert_new_row (of_source source_id) (empty_meta source_id) s.source_meta) in
    (record s { source_meta = r.0 }, r.1)

abbrev pub at_most : Option ℕ → ℕ → Bool
at_most none started = false
at_most (some at) started = leb at started

abbrev pub is_covered : Text → ℕ → SourceMeta → Bool
is_covered source_id action_started_at m =
    of_source source_id m && at_most m.restart_notice_at action_started_at

abbrev pub without_notice : SourceMeta → SourceMeta
without_notice m = record m { restart_notice_at = none; restart_gap_started = none }

unfoldable pub clear_restart_notice_if_covered : Text → ℕ → Store → Store × Bool
clear_restart_notice_if_covered source_id action_started_at s = (
  record s {
    source_meta = update_rows (is_covered source_id action_started_at) without_notice s.source_meta;
  },
  ltb 0 (count_rows (is_covered source_id action_started_at) s.source_meta),
)

unfoldable pub dismiss_restart_notice : Text → Store → Store
dismiss_restart_notice source_id s = record s {
  source_meta = update_rows (of_source source_id) without_notice s.source_meta;
}

abbrev pub notice_of : Option SourceMeta → Option (Option ℕ × Option ℕ)
notice_of none = none
notice_of (some m) = some (m.restart_notice_at, m.restart_gap_started)

-- The time of the notice and the start of the gap, of a row that has a notice.
unfoldable pub restart_notice : Text → Store → Option (Option ℕ × Option ℕ)
restart_notice source_id s = notice_of (
    first_row
      (select_rows (λ m. of_source source_id m && is_present m.restart_notice_at) s.source_meta))

-- An action that began before the notice was raised cannot vouch for the gap: it leaves the notice
-- and its gap as they are.
pub restart_notice-clear :
    (source_id : Text) (at : ℕ) (gap : Option ℕ) (action_started_at : ℕ) (s : Store)
    → restart_notice source_id s ≡ some (some at, gap)
    → action_started_at < at
    → restart_notice source_id (clear_restart_notice_if_covered source_id action_started_at s).0
      ≡ some (some at, gap)
unfolding restart_notice clear_restart_notice_if_covered
restart_notice-clear source_id at gap action_started_at s h late = kept s.source_meta h
  where
    rest : List SourceMeta → List SourceMeta
    rest rows = select_rows (λ m. of_source source_id m && is_present m.restart_notice_at) rows

    and_false : (a b : Bool) → b ≡ false → a && b ≡ false
    and_false a b h = ground arith

    unnoticed_kept :
        (b : Bool) (o : Option ℕ)
        → b && is_present o ≡ false
        → b && at_most o action_started_at ≡ false
    unnoticed_kept false o h = refl
    unnoticed_kept true none h = refl
    unnoticed_kept true (some a) h = cc

    kept :
        (rows : List SourceMeta)
        → notice_of (
            first_row
              (select_rows (λ m. of_source source_id m && is_present m.restart_notice_at) rows))
          ≡ some (some at, gap)
        → notice_of (
            first_row (
              select_rows
                (λ m. of_source source_id m && is_present m.restart_notice_at)
                (update_rows (is_covered source_id action_started_at) without_notice rows)))
          ≡ some (some at, gap)
    kept [] e = e
    kept (m ∷ rows) e =
        elim (Bool-cases (of_source source_id m && is_present m.restart_notice_at)) [
          | inl t ↦
              let e2 : notice_of (some m) ≡ some (some at, gap) =
                sym (
                  ap (λ l. notice_of (first_row l))
                    (if_true (of_source source_id m && is_present m.restart_notice_at)
                      (m ∷ rest rows) (rest rows) t))
                ∙ e in
              let here : m.restart_notice_at ≡ some at = cc in
              let newer : leb at action_started_at ≡ false = ground (arith, late) in
              let older : at_most m.restart_notice_at action_started_at ≡ false =
                ap (λ o. at_most o action_started_at) here ∙ newer in
              let no : is_covered source_id action_started_at m ≡ false =
                and_false (of_source source_id m) _ older in
              rw (no, t) e2
          | inr f ↦
              let no : is_covered source_id action_started_at m ≡ false =
                unnoticed_kept (of_source source_id m) m.restart_notice_at f in
              rw (no, f)
                (kept rows (
                  sym (
                    ap (λ l. notice_of (first_row l))
                      (if_false (of_source source_id m && is_present m.restart_notice_at)
                        (m ∷ rest rows) (rest rows) f))
                  ∙ e))
        ]

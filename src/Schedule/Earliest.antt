-- ===== src/Schedule/Earliest.antt =====
-- The boundary that the weekly search finds (src/core/scheduler.rs).
use auto_sync.Prelude.{
  ℕ, zero, suc, ◌+◌, ◌*◌, ◌≤◌, ◌<◌, ◌≡◌, ap, sym, ◌∙◌, true, Bool-cases, inl, inr, ◌⊎◌, ◌≢◌, Option,
  none, some, if◌then◌else◌, if_true, if_false, Text, ltb, max, arith, ltb→lt,
}
use auto_sync.Schedule.Boundary.{
  ScheduleConfig, ScheduleMode, Calendar, is_slot, by_candidate, weekly_boundary, weekly_from,
  next_boundary_after, schedule_time, parse_weekday, weekday_text, boundary_by_mode,
}
use auto_sync.Schedule.Weeks.{Steady, slot_exists}

module _ (cal : Calendar) (time : ℕ) (steady : Steady cal time) where
  -- What the search gives: a later time on a slot, and none on an earlier slot.
  abbrev pub First : ℕ → ℕ → ℕ → ℕ → ℕ → ℕ → Type 0
  First start wanted anchor every from boundary =
      (date : ℕ) × (from ≤ date)
      × (is_slot cal wanted anchor every date ≡ true)
      × (cal.local_datetime date time ≡ some boundary)
      × (start < boundary)
      × ((earlier t : ℕ)
          → from ≤ earlier
          → earlier < date
          → is_slot cal wanted anchor every earlier ≡ true
          → cal.local_datetime earlier time ≡ some t
          → t ≤ start)

  some_inj : (a b : ℕ) → some a ≡ some b → a ≡ b
  some_inj a b h = cc

  -- The first slot of the rest is the first slot, where the date before it gives none.
  First-before :
      (start wanted anchor every from boundary : ℕ)
      → (is_slot cal wanted anchor every from ≡ true
          → (t : ℕ) → cal.local_datetime from time ≡ some t
          → t ≤ start)
      → First start wanted anchor every (from + 1) boundary
      → First start wanted anchor every from boundary
  First-before start wanted anchor every from boundary none_here
        (date, ge, slot, at, later, first) =
      (
        date,
        omega (arith, ge),
        slot,
        at,
        later,
        λ earlier t ge2 lt is e. by_order earlier t ge2 lt is e,
      )
    where
      same :
          (earlier : ℕ)
          → (from ≡ earlier) ⊎ (from + 1 ≤ earlier)
          → (t : ℕ) → earlier < date
          → is_slot cal wanted anchor every earlier ≡ true
          → cal.local_datetime earlier time ≡ some t
          → t ≤ start
      same earlier (inl h) t lt is e =
          none_here (ap (is_slot cal wanted anchor every) h ∙ is) t
            (ap (λ d. cal.local_datetime d time) h ∙ e)
      same earlier (inr h) t lt is e = first earlier t h lt is e

      by_order :
          (earlier t : ℕ)
          → from ≤ earlier
          → earlier < date
          → is_slot cal wanted anchor every earlier ≡ true
          → cal.local_datetime earlier time ≡ some t
          → t ≤ start
      by_order earlier t ge2 lt is e = elim (Bool-cases (ltb from earlier)) [
        | inl less ↦ same earlier (inr (ground (arith, less))) t lt is e
        | inr not_less ↦ same earlier (inl (ground (arith, not_less, ge2))) t lt is e
      ]

  weekly_found :
      (days start wanted anchor every from target : ℕ)
      → from ≤ target
      → target < from + days
      → target ≤ cal.max_date
      → is_slot cal wanted anchor every target ≡ true
      → cal.date_naive start < target
      → (boundary : ℕ) × (weekly_boundary cal days start time wanted anchor every from
          ≡ some boundary)
        × First start wanted anchor every from boundary
  unfolding weekly_boundary
  weekly_found zero start wanted anchor every from target ge lt room slot after =
      absurd (omega (arith, ge, lt))
  weekly_found (suc days) start wanted anchor every from target ge lt room slot after =
      let (t, at) = steady.resolves from in
      elim (Bool-cases (is_slot cal wanted anchor every from)) [
        | inl here ↦ elim (Bool-cases (ltb start t)) [
          | inl found ↦ (
            t,
            if_true (is_slot cal wanted anchor every from) _ _ here
                ∙ (ap (λ o. by_candidate start o (next days start wanted anchor every from)) at
                    ∙ if_true (ltb start t) _ _ found),
            (
              from,
              omega arith,
              here,
              at,
              ltb→lt start t found,
              λ earlier t2 ge2 lt2 is e. absurd (omega (arith, ge2, lt2)),
            ),
          )
          | inr past ↦
              let moved : from ≢ target = λ h. ground (
                arith,
                past,
                steady.later start target t after
                    (ap (λ d. cal.local_datetime d time) (sym h) ∙ at),
              ) in
              step days start wanted anchor every from target
                (λ is t2 e. let same = some_inj t t2 (sym at ∙ e) in ground (arith, past, same))
                (weekly_found days start wanted anchor every (from + 1) target
                  (omega (arith, ge, moved)) (omega (arith, lt)) room slot after)
                (if_true (is_slot cal wanted anchor every from) _ _ here
                  ∙ (ap (λ o. by_candidate start o (next days start wanted anchor every from)) at
                      ∙ (if_false (ltb start t) _ _ past
                          ∙ if_true (ltb from cal.max_date) _ _ (ground (arith, ge, moved, room)))))
        ]
        | inr other ↦
            let moved : from ≢ target =
              λ h. cc (ap (is_slot cal wanted anchor every) h, slot, other) in
            step days start wanted anchor every from target (λ is t2 e. absurd (cc (is, other)))
              (weekly_found days start wanted anchor every (from + 1) target
                (omega (arith, ge, moved)) (omega (arith, lt)) room slot after)
              (if_false (is_slot cal wanted anchor every from) _ _ other
                ∙ if_true (ltb from cal.max_date) _ _ (ground (arith, ge, moved, room)))
      ]
    where
      next : ℕ → ℕ → ℕ → ℕ → ℕ → ℕ → Option ℕ
      next days start wanted anchor every from =
          if ltb from cal.max_date
          then weekly_boundary cal days start time wanted anchor every (from + 1)
          else none

      step :
          (days start wanted anchor every from target : ℕ)
          → (is_slot cal wanted anchor every from ≡ true
              → (t : ℕ) → cal.local_datetime from time ≡ some t
              → t ≤ start)
          → ((boundary : ℕ) × (weekly_boundary cal days start time wanted anchor every (from + 1)
                ≡ some boundary)
              × First start wanted anchor every (from + 1) boundary)
          → weekly_boundary cal (suc days) start time wanted anchor every from
            ≡ weekly_boundary cal days start time wanted anchor every (from + 1)
          → (boundary : ℕ) × (weekly_boundary cal (suc days) start time wanted anchor every from
              ≡ some boundary)
            × First start wanted anchor every from boundary
      step days start wanted anchor every from target none_here (boundary, e, first) same =
          (boundary, same ∙ e, First-before start wanted anchor every from boundary none_here first)

weekday_lt : (value : Text) (wanted : ℕ) → parse_weekday value ≡ some wanted → wanted < 7
unfolding parse_weekday
weekday_lt value wanted h = ground arith

-- A weekly schedule whose time, weekday and anchor are read has a boundary, on a calendar where its
-- time of day exists every day and that goes on for the dates searched: the search finds it before
-- it gives up. It is the first one: later than the start of the cycle, on the weekday, in a week of
-- the cadence, and no such date before it, from the day of the start on, has a later time.
pub next_boundary_after-some :
    (cal : Calendar) (cfg : ScheduleConfig) (starts_at time wanted anchor : ℕ)
    → (steady : Steady cal time) → cfg.mode ≡ ScheduleMode.weekly
    → schedule_time cfg ≡ some time
    → parse_weekday (weekday_text cfg.weekday) ≡ some wanted
    → cal.parse_date cfg.anchor_date ≡ some anchor
    → cal.date_naive starts_at + max cfg.every_weeks 1 * 7 + 8 ≤ cal.max_date
    → (boundary : ℕ) × (next_boundary_after cal starts_at cfg ≡ some boundary)
      × First cal time steady starts_at wanted anchor
          (max cfg.every_weeks 1)
          (cal.date_naive starts_at)
          boundary
unfolding next_boundary_after
next_boundary_after-some cal cfg starts_at time wanted anchor steady mode at_time on_day at_anchor
      room =
    let seven = weekday_lt (weekday_text cfg.weekday) wanted on_day in
    let every = max cfg.every_weeks 1 in
    let today = cal.date_naive starts_at in
    let (target, ge, lt, slot) =
      slot_exists cal time steady wanted anchor every (today + 1) (omega arith) seven in
    let (boundary, e, first) =
      weekly_found cal time steady (every * 7 + 8) starts_at wanted anchor every today target
        (omega (arith, ge)) (omega (arith, lt)) (omega (arith, lt, room)) slot
        (omega (arith, ge)) in
    (
      boundary,
      ap (boundary_by_mode cal starts_at cfg) mode
          ∙ (ap
                (λ o.
                  weekly_from cal every starts_at o (parse_weekday (weekday_text cfg.weekday))
                    (cal.parse_date cfg.anchor_date))
                at_time
              ∙ (ap
                    (λ o.
                      weekly_from cal every starts_at (some time) o
                        (cal.parse_date cfg.anchor_date))
                    on_day
                  ∙ (ap (λ o. weekly_from cal every starts_at (some time) (some wanted) o) at_anchor
                      ∙ e))),
      first,
    )

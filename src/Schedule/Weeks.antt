-- ===== src/Schedule/Weeks.antt =====
-- The dates that the weekly search looks for (src/core/scheduler.rs).
use native.Mathlib.Nat.{mod-lt, div-add-mod, mul-mod_right}
use auto_sync.Prelude.{
  ℕ, zero, suc, ◌+◌, ◌-◌, ◌*◌, ◌/◌, ◌%◌, ◌≤◌, ◌<◌, ◌≡◌, ap, ◌∙◌, true, Bool-cases, inl, inr, some,
  leb, arith,
}
use auto_sync.Schedule.Boundary.{Calendar, week_on_cadence, is_slot}

-- What the search asks of the library's calendar, for a time of day that no change of the clock
-- skips: it exists on every date, later dates have later times, and the weekdays follow each other.
pub record Steady (cal : Calendar) (time : ℕ) : Type 0 where
  pub resolves : (date : ℕ) → (t : ℕ) × (cal.local_datetime date time ≡ some t)
  pub later :
      (start date t : ℕ)
      → cal.date_naive start < date
      → cal.local_datetime date time ≡ some t
      → start < t
  pub weekday_lt : (date : ℕ) → cal.weekday date < 7
  pub weekday_step : (date : ℕ) → cal.weekday (date + 1) ≡ (cal.weekday date + 1) % 7

-- The first week on the cadence that begins at `first` or after it, by its first date.
week_exists :
    (anchor first every : ℕ)
    → 0 < every
    → (start : ℕ) × (first ≤ start)
      × (start < first + every * 7)
      × ((r : ℕ) → r < 7 → week_on_cadence anchor (start + r) every ≡ true)
unfolding week_on_cadence
week_exists anchor first every pos = elim (Bool-cases (leb anchor first)) [
  | inl before ↦
      let w = (first - anchor + 6) / 7 in
      let n = w + every - 1 in
      let x = every * (n / every) in
      let cut = div-add-mod n every in
      let small = mod-lt n pos in
      let le : anchor ≤ first = ground arith in
      let start : ℕ = anchor + 7 * x in
      (
        start,
        omega (arith, cut, small, le, pos),
        omega (arith, cut, small, le, pos),
        λ r lt.
            let week : (start + r - anchor) / 7 ≡ x = omega (arith, lt) in
            let on : (start + r - anchor) / 7 % every ≡ 0 =
              ap (λ k. k % every) week ∙ mul-mod_right every (n / every) in
            ground (arith, on),
      )
  | inr after ↦
      let w = (anchor - first) / 7 in
      let x = every * (w / every) in
      let cut = div-add-mod w every in
      let small = mod-lt w pos in
      let lt : first < anchor = ground arith in
      let start : ℕ = anchor - 7 * x in
      (
        start,
        omega (arith, cut, small, lt),
        omega (arith, cut, small, lt, pos),
        λ r seven. elim (Bool-cases (leb anchor (start + r))) [
          | inl past ↦
              let le : anchor ≤ start + r = ground (arith, past) in
              let week : (start + r - anchor) / 7 ≡ x = omega (arith, seven, le, cut, lt) in
              let on : (start + r - anchor) / 7 % every ≡ 0 =
                ap (λ k. k % every) week ∙ mul-mod_right every (w / every) in
              ground (arith, on, le)
          | inr not_yet ↦
              let gt : start + r < anchor = ground (arith, not_yet) in
              let week : (anchor - (start + r) + 6) / 7 ≡ x = omega (arith, seven, gt, cut, lt) in
              let on : (anchor - (start + r) + 6) / 7 % every ≡ 0 =
                ap (λ k. k % every) week ∙ mul-mod_right every (w / every) in
              ground (arith, on, gt)
        ],
      )
]

module _ (cal : Calendar) (time : ℕ) (steady : Steady cal time) where
  weekday_add : (date r : ℕ) → cal.weekday (date + r) ≡ (cal.weekday date + r) % 7
  weekday_add date zero =
      let e : date + 0 ≡ date = omega arith in
      ap cal.weekday e ∙ omega (arith, steady.weekday_lt date)
  weekday_add date (suc r) =
      let e : date + suc r ≡ date + r + 1 = omega arith in
      ap cal.weekday e ∙ omega (arith, steady.weekday_step (date + r), weekday_add date r)

  pub slot_exists :
      (wanted anchor every first : ℕ)
      → 0 < every
      → wanted < 7
      → (date : ℕ) × (first ≤ date)
        × (date < first + every * 7 + 6)
        × (is_slot cal wanted anchor every date ≡ true)
  slot_exists wanted anchor every first pos seven =
      let (start, ge, lt, on) = week_exists anchor first every pos in
      let r = (wanted + 7 - cal.weekday start) % 7 in
      let r_lt : r < 7 = omega arith in
      let day : cal.weekday (start + r) ≡ wanted =
        omega (arith, weekday_add start r, steady.weekday_lt start, seven) in
      (start + r, omega (arith, ge), omega (arith, lt), ground (arith, day, on r r_lt))

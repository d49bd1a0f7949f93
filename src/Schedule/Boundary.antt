-- ===== src/Schedule/Boundary.antt =====
-- The next boundary of a schedule (src/core/scheduler.rs; src/core/config.rs, the schedule). Times are
-- nanoseconds, dates are numbers of days, and the calendar is that of the chrono library.
use auto_sync.Prelude.{
  ℕ, zero, suc, ◌+◌, ◌-◌, ◌*◌, ◌/◌, ◌%◌, Bool, true, false, not, ◌&&◌, ◌||◌, ◌==◌, Option, none,
  some, List, [], ◌∷◌, if◌then◌else◌, Text, codes, bytes_eq, ltb, leb, max, exists_row,
}
use auto_sync.Paths.Components.{split}

pub data ScheduleMode : Type 0 where
  realtime : ScheduleMode
  daily : ScheduleMode
  weekly : ScheduleMode

pub record ScheduleConfig : Type 0 where
  pub mode : ScheduleMode
  pub time : Text
  pub weekday : Option Text
  pub every_weeks : ℕ
  pub anchor_date : Text

-- The library's calendar: the local date of a time, the last date it counts, the time of a local
-- date and time of day (the earliest where two fit; none where the clock skips it), a date's
-- weekday from Monday, and the reading of `%Y-%m-%d`.
pub record Calendar : Type 0 where
  pub date_naive : ℕ → ℕ
  pub max_date : ℕ
  pub local_datetime : ℕ → ℕ → Option ℕ
  pub weekday : ℕ → ℕ
  pub parse_date : Text → Option ℕ

-- `value.parse::<u32>()`: digits after at most one `+`, without overflow.
abbrev pub push_digit : ℕ → Option ℕ → Option ℕ
push_digit byte none = none
push_digit byte (some n) =
    if leb 48 byte && leb byte 57 && ltb (n * 10 + (byte - 48)) 4_294_967_296
    then some (n * 10 + (byte - 48))
    else none

unfoldable pub parse_digits : Option ℕ → Text → Option ℕ
parse_digits n [] = n
parse_digits n (byte ∷ text) = parse_digits (push_digit byte n) text

abbrev pub digits_after_sign : Text → Option ℕ
digits_after_sign [] = none
digits_after_sign (byte ∷ text) = parse_digits (some 0) (byte ∷ text)

unfoldable pub parse_u32 : Text → Option ℕ
unfolding parse_digits
parse_u32 [] = none
parse_u32 (byte ∷ text) =
    if byte == 43 then digits_after_sign text else digits_after_sign (byte ∷ text)

abbrev pub checked_time : Option ℕ → Option ℕ → Option ℕ → Option (ℕ × ℕ × ℕ)
checked_time (some hour) (some minute) (some second) =
    if ltb 23 hour || ltb 59 minute || not (second == 0) then none else some (hour, minute, second)
checked_time _ _ _ = none

abbrev pub time_parts : List Text → Option (ℕ × ℕ × ℕ)
time_parts (hour ∷ minute ∷ []) = checked_time (parse_u32 hour) (parse_u32 minute) (some 0)
time_parts (hour ∷ minute ∷ second ∷ []) =
    checked_time (parse_u32 hour) (parse_u32 minute) (parse_u32 second)
time_parts _ = none

unfoldable pub parse_schedule_time : Text → Option (ℕ × ℕ × ℕ)
unfolding split parse_u32
parse_schedule_time value = time_parts (split 58 value)

-- The seconds of the day.
abbrev pub seconds_of : Option (ℕ × ℕ × ℕ) → Option ℕ
seconds_of none = none
seconds_of (some (hour, minute, second)) = some (hour * 3600 + minute * 60 + second)

unfoldable pub schedule_time : ScheduleConfig → Option ℕ
unfolding parse_schedule_time
schedule_time cfg = seconds_of (parse_schedule_time cfg.time)

unfoldable pub to_ascii_lowercase : Text → Text
to_ascii_lowercase [] = []
to_ascii_lowercase (byte ∷ text) =
    (if leb 65 byte && leb byte 90 then byte + 32 else byte) ∷ to_ascii_lowercase text

abbrev pub is_one_of : Text → List Text → Bool
is_one_of value names = exists_row (bytes_eq value) names

abbrev pub weekday_of : Text → Option ℕ
weekday_of value =
    if is_one_of value (codes "mon" ∷ codes "monday" ∷ [])
    then some 0
    else if is_one_of value (codes "tue" ∷ codes "tuesday" ∷ [])
    then some 1
    else if is_one_of value (codes "wed" ∷ codes "wednesday" ∷ [])
    then some 2
    else if is_one_of value (codes "thu" ∷ codes "thursday" ∷ [])
    then some 3
    else if is_one_of value (codes "fri" ∷ codes "friday" ∷ [])
    then some 4
    else if is_one_of value (codes "sat" ∷ codes "saturday" ∷ [])
    then some 5
    else if is_one_of value (codes "sun" ∷ codes "sunday" ∷ [])
    then some 6
    else none

unfoldable pub parse_weekday : Text → Option ℕ
unfolding to_ascii_lowercase
parse_weekday value = weekday_of (to_ascii_lowercase value)

-- `days.div_euclid(7).rem_euclid(every) == 0`, for a date after the anchor and for one before it.
unfoldable pub week_on_cadence : ℕ → ℕ → ℕ → Bool
week_on_cadence anchor date every =
    if leb every 1
    then true
    else if leb anchor date
    then (date - anchor) / 7 % every == 0
    else (anchor - date + 6) / 7 % every == 0

abbrev pub weekday_text : Option Text → Text
weekday_text none = codes "monday"
weekday_text (some text) = text

-- One date of a search: the boundary, or `none` for an error of the calendar.
abbrev pub by_candidate : ℕ → Option ℕ → Option ℕ → Option ℕ
by_candidate start none later = none
by_candidate start (some candidate) later = if ltb start candidate then some candidate else later

-- The daily loop, on fuel; it ends with an error at the last date of the calendar.
unfoldable pub daily_boundary : Calendar → ℕ → ℕ → ℕ → ℕ → Option ℕ
daily_boundary cal zero start time date = none
daily_boundary cal (suc fuel) start time date =
    let later = daily_boundary cal fuel start time (date + 1) in
    by_candidate start (cal.local_datetime date time)
      (if ltb date cal.max_date then later else none)

abbrev pub is_slot : Calendar → ℕ → ℕ → ℕ → ℕ → Bool
is_slot cal wanted anchor every date =
    cal.weekday date == wanted && week_on_cadence anchor date every

-- The weekly loop over a number of dates.
unfoldable pub weekly_boundary : Calendar → ℕ → ℕ → ℕ → ℕ → ℕ → ℕ → ℕ → Option ℕ
unfolding week_on_cadence
weekly_boundary cal zero start time wanted anchor every date = none
weekly_boundary cal (suc days) start time wanted anchor every date =
    let later = weekly_boundary cal days start time wanted anchor every (date + 1) in
    let next = if ltb date cal.max_date then later else none in
    if is_slot cal wanted anchor every date
    then by_candidate start (cal.local_datetime date time) next
    else next

abbrev pub daily_from : Calendar → ℕ → Option ℕ → Option ℕ
daily_from cal starts_at none = none
daily_from cal starts_at (some time) =
    daily_boundary cal (cal.max_date + 1 - cal.date_naive starts_at) starts_at time
      (cal.date_naive starts_at)

abbrev pub weekly_from : Calendar → ℕ → ℕ → Option ℕ → Option ℕ → Option ℕ → Option ℕ
weekly_from cal every starts_at (some time) (some wanted) (some anchor) =
    weekly_boundary cal (every * 7 + 8) starts_at time wanted anchor every
      (cal.date_naive starts_at)
weekly_from cal every starts_at _ _ _ = none

abbrev pub boundary_by_mode : Calendar → ℕ → ScheduleConfig → ScheduleMode → Option ℕ
boundary_by_mode cal starts_at cfg ScheduleMode.realtime = some starts_at
boundary_by_mode cal starts_at cfg ScheduleMode.daily = daily_from cal starts_at (schedule_time cfg)
boundary_by_mode cal starts_at cfg ScheduleMode.weekly =
    weekly_from cal (max cfg.every_weeks 1) starts_at (schedule_time cfg)
      (parse_weekday (weekday_text cfg.weekday)) (cal.parse_date cfg.anchor_date)

unfoldable pub next_boundary_after : Calendar → ℕ → ScheduleConfig → Option ℕ
unfolding schedule_time parse_weekday daily_boundary weekly_boundary
next_boundary_after cal starts_at cfg = boundary_by_mode cal starts_at cfg cfg.mode

abbrev pub one_day : ℕ
one_day = 86_400 * 1_000_000_000

abbrev pub due_at : ℕ → ℕ → Option ℕ → Bool
due_at starts_at now (some boundary) = leb boundary now
due_at starts_at now none = leb (starts_at + one_day) now

unfoldable pub cycle_is_due : Calendar → ℕ → ℕ → ScheduleConfig → Bool
unfolding next_boundary_after
cycle_is_due cal starts_at now cfg = due_at starts_at now (next_boundary_after cal starts_at cfg)

-- `validate_schedule`: whether it succeeds.
abbrev pub is_some {ℓ} : {A : Type ℓ} → Option A → Bool
is_some none = false
is_some (some a) = true

abbrev pub checked_anchor : Calendar → ScheduleConfig → ScheduleMode → Bool
checked_anchor cal cfg ScheduleMode.weekly = is_some (cal.parse_date cfg.anchor_date)
checked_anchor cal cfg ScheduleMode.daily = true
checked_anchor cal cfg ScheduleMode.realtime = true

abbrev pub checked_schedule : Calendar → ScheduleConfig → Bool
checked_schedule cal cfg =
    is_some (parse_schedule_time cfg.time)
    && not (cfg.every_weeks == 0)
    && checked_anchor cal cfg cfg.mode

abbrev pub schedule_by_mode : Calendar → ScheduleConfig → ScheduleMode → Bool
schedule_by_mode cal cfg ScheduleMode.realtime = true
schedule_by_mode cal cfg ScheduleMode.daily = checked_schedule cal cfg
schedule_by_mode cal cfg ScheduleMode.weekly = checked_schedule cal cfg

unfoldable pub validate_schedule : Calendar → ScheduleConfig → Bool
unfolding parse_schedule_time
validate_schedule cal cfg = schedule_by_mode cal cfg cfg.mode

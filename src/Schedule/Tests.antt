-- ===== src/Schedule/Tests.antt =====
-- Runs of the scheduler (src/core/scheduler.rs) on the calendar of UTC from the epoch.
use auto_sync.Prelude.{
  ℕ, ◌+◌, ◌*◌, ◌/◌, ◌%◌, ◌≡◌, refl, false, none, some, codes, bytes_eq, if◌then◌else◌, arith,
}
use auto_sync.Schedule.Boundary.{
  ScheduleMode, ScheduleConfig, Calendar, next_boundary_after, cycle_is_due, parse_weekday,
  schedule_time, validate_schedule,
}
use auto_sync.Schedule.Weeks.{Steady}
use auto_sync.Schedule.Earliest.{First, next_boundary_after-some}

-- Its times are in seconds.
abbrev utc : Calendar
utc = record {
  date_naive = λ t. t / 86_400;
  max_date = 95_000_000;
  local_datetime = λ date time. some (date * 86_400 + time);
  weekday = λ date. (date + 3) % 7;
  parse_date = λ text. if bytes_eq text (codes "1970-01-03") then some 2 else none;
}

abbrev saturdays : ScheduleConfig
saturdays = record {
  mode = ScheduleMode.weekly;
  time = codes "19:00";
  weekday = some (codes "Sat");
  every_weeks = 4;
  anchor_date = codes "1970-01-03";
}

utc-Steady : (time : ℕ) → Steady utc time
utc-Steady time = record {
  resolves = λ date. (date * 86_400 + time, refl);
  later = λ start date t lt e. let same : date * 86_400 + time ≡ t = cc in omega (arith, lt, same);
  weekday_lt = λ date. omega arith;
  weekday_step = λ date. omega arith;
}

-- From the second Saturday on, the next one in four weeks is that of 31 January.
boundary_run : next_boundary_after utc (9 * 86_400) saturdays ≡ some (30 * 86_400 + 68_400)
unfolding next_boundary_after bytes_eq
boundary_run = refl

not_due_run : cycle_is_due utc (9 * 86_400) (16 * 86_400 + 68_400) saturdays ≡ false
unfolding cycle_is_due bytes_eq
not_due_run = refl

invalid_run : validate_schedule utc (record saturdays { time = codes "24:00" }) ≡ false
unfolding validate_schedule
invalid_run = refl

next_boundary_after-some_example :
    (boundary : ℕ) × (next_boundary_after utc (9 * 86_400) saturdays ≡ some boundary)
    × First utc 68_400 (utc-Steady 68_400) (9 * 86_400) 5 2 4 9 boundary
unfolding schedule_time parse_weekday bytes_eq
next_boundary_after-some_example =
    next_boundary_after-some utc saturdays (9 * 86_400) 68_400 5 2 (utc-Steady 68_400) refl refl
      refl refl (omega arith)

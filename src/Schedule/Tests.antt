-- ===== src/Schedule/Tests.antt =====
-- Runs that follow Wednesday, 1 January 2025, 00:00 UTC.
use stellar_royalty_splitter.Prelude.{
  ℕ, ◌+◌, ◌*◌, ◌≤◌, ◌<◌, ◌≡◌, ◌%◌, refl, true, false, none, some, arith,
}
use stellar_royalty_splitter.Schedule.Days.{
  at_hour, day_of, weekday, next_weekly, next_cycle, next_interval, next_weekly_first,
  next_interval_cycle, OnCycle,
}
use stellar_royalty_splitter.Schedule.Months.{
  Date, at_most, clamped, next_monthly, next_monthly_first,
}
use stellar_royalty_splitter.Schedule.Next.{Schedule, at_ms, unknown_type, compute_next_run}

abbrev new_year : ℕ
new_year = 20089 * 86400000

abbrev new_year_date : Date
new_year_date = record { month = 2025 * 12; day = 1; ms = 0 }

abbrev fortnightly : Schedule
fortnightly = record {
  type = "biweekly";
  day_of_month = 0;
  day_of_week = 0;
  interval_days = none;
  anchor_date = some new_year;
  hour_of_day = some 12;
}

run_tests :
    (weekday 20089 ≡ 3)
    × (next_weekly new_year 3 0 ≡ at_hour 20096 0)
    × (next_weekly new_year 3 9 ≡ at_hour 20089 9)
    × (next_weekly new_year 1 9 ≡ at_hour 20094 9)
    × (next_interval new_year (at_hour 20100 0) 7 12 ≡ at_hour 20093 12)
    × (compute_next_run fortnightly (record { ms = new_year; date = new_year_date })
        ≡ at_ms (at_hour 20103 12))
    × (compute_next_run
          (record fortnightly { type = "daily" })
          (record { ms = new_year; date = new_year_date })
        ≡ unknown_type)
unfolding next_weekly next_interval next_cycle compute_next_run
run_tests = (refl, refl, refl, refl, refl, refl, refl)

month_tests :
    (next_monthly new_year_date 31 6 ≡ record { month = 2025 * 12; day = 28; ms = 6 * 3600000 })
    × (next_monthly new_year_date 1 0 ≡ record { month = 2025 * 12 + 1; day = 1; ms = 0 })
unfolding next_monthly
month_tests = (refl, refl)

next_weekly_first_example :
    let next = next_weekly new_year 1 9 in
    (new_year < next)
    × (next ≡ at_hour (day_of next) 9)
    × (weekday (day_of next) ≡ 1 % 7)
    × ((day : ℕ) → weekday day ≡ 1 % 7 → new_year < at_hour day 9 → next ≤ at_hour day 9)
next_weekly_first_example = next_weekly_first new_year 1 9 (omega arith)

next_monthly_first_example :
    let next = next_monthly new_year_date 31 6 in
    (at_most next new_year_date ≡ false)
    × (next.day ≡ clamped 31)
    × (next.ms ≡ 6 * 3600000)
    × ((other : Date)
        → other.day ≡ clamped 31
        → other.ms ≡ 6 * 3600000
        → at_most other new_year_date ≡ false
        → at_most next other ≡ true)
next_monthly_first_example = next_monthly_first new_year_date 31 6

next_interval_cycle_example :
    let next = next_interval new_year (at_hour 20085 0) 7 12 in
    (new_year < next)
    × (next ≡ at_hour (day_of next) 12)
    × (day_of new_year < day_of next)
    × (day_of next ≤ day_of new_year + 7)
    × OnCycle (day_of next) (day_of (at_hour 20085 0)) 7
next_interval_cycle_example =
    next_interval_cycle new_year (at_hour 20085 0) 7 12 (omega arith) (omega arith)

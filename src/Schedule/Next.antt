-- ===== src/Schedule/Next.antt =====
-- `computeNextRun` of backend/src/schedule-calculator.js. The present time comes in its two readings,
-- as milliseconds and as a calendar date; so does the answer, by the type of the schedule.
use stellar_royalty_splitter.Prelude.{ℕ, String, Option, if◌then◌else◌, or_else, ◌==◌, string_eq}
use stellar_royalty_splitter.Schedule.Days.{next_weekly, next_interval}
use stellar_royalty_splitter.Schedule.Months.{Date, next_monthly}

pub record Schedule : Type 0 where
  pub type : String
  pub day_of_month : ℕ
  pub day_of_week : ℕ
  pub interval_days : Option ℕ
  pub anchor_date : Option ℕ
  pub hour_of_day : Option ℕ

pub record Now : Type 0 where
  pub ms : ℕ
  pub date : Date

pub data Next : Type 0 where
  at_date : Date → Next
  at_ms : ℕ → Next
  unknown_type : Next

-- `computeNextRun`
unfoldable pub compute_next_run : Schedule → Now → Next
compute_next_run s now =
    let hour = or_else s.hour_of_day 0 in
    let anchor = or_else s.anchor_date now.ms in
    if s.type == "monthly"
    then at_date (next_monthly now.date s.day_of_month hour)
    else (if s.type == "weekly"
        then at_ms (next_weekly now.ms s.day_of_week hour)
        else (if s.type == "biweekly"
            then at_ms (next_interval now.ms anchor 14 hour)
            else (if s.type == "custom"
                then at_ms (next_interval now.ms anchor (or_else s.interval_days 1) hour)
                else unknown_type)))

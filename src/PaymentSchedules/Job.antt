-- ===== src/PaymentSchedules/Job.antt =====
-- `runPaymentSchedules` of backend/src/jobs/payment-schedule-job.js. The answers of the simulation and
-- the calendar of `Date` are arguments; the notices to webhooks and sockets, which change no table, are
-- left out.
use stellar_royalty_splitter.Prelude.{ℕ, ◌+◌, String, Option, none, some, List, [], ◌∷◌, or_else}
use stellar_royalty_splitter.Prelude.Text.{Text, codes}
use stellar_royalty_splitter.Schedule.Months.{Date}
use stellar_royalty_splitter.Schedule.Next.{
  Schedule, Now, Next, at_date, at_ms, unknown_type, compute_next_run,
}
use stellar_royalty_splitter.History.Store.{record_transaction}
use stellar_royalty_splitter.Audit.{string, number, fields, Log, add_audit_log}
use stellar_royalty_splitter.PaymentSchedules.Store.{
  PaymentSchedule, get_schedules_due, mark_schedule_ran,
}
use stellar_royalty_splitter.History.Store as History
use stellar_royalty_splitter.PaymentSchedules.Store as Schedules

-- The tables that a run reads or writes.
pub record World : Type 0 where
  pub schedules : Schedules.Store
  pub history : History.Store
  pub log : Log

pub record Report : Type 0 where
  pub triggered : ℕ
  pub skipped : ℕ
  pub failed : ℕ

-- The present time in its readings: the calendar, and the text of SQLite's CURRENT_TIMESTAMP.
pub record Clock : Type 0 where
  pub now : Now
  pub text : Text

pub data Simulation : Type 0 where
  fails : String → Simulation
  costs : ℕ → Simulation

-- A field that is null counts as 0 in the calculations.
abbrev pub as_schedule : PaymentSchedule → Schedule
as_schedule s = record {
  type = s.type;
  day_of_month = or_else s.day_of_month 0;
  day_of_week = or_else s.day_of_week 0;
  interval_days = s.interval_days;
  anchor_date = s.anchor_date;
  hour_of_day = some s.hour_of_day;
}

abbrev add_failed : Report → Report
add_failed r = record r { failed = r.failed + 1 }

module _ (calendar : Date → ℕ) where
  -- The answer of `computeNextRun` in milliseconds; nothing where it raises.
  abbrev pub next_ms : Next → Option ℕ
  next_ms (at_date d) = some (calendar d)
  next_ms (at_ms t) = some t
  next_ms unknown_type = none

  unfoldable pub next_run : PaymentSchedule → Now → Option ℕ
  unfolding compute_next_run
  next_run s now = next_ms (compute_next_run (as_schedule s) now)

  abbrev advanced : PaymentSchedule → Clock → Option ℕ → World × Report → World × Report
  advanced s clock none (w, r) = (w, add_failed r)
  advanced s clock (some next_at) (w, r) = (
    record w { schedules = mark_schedule_ran s.id clock.now.ms next_at w.schedules },
    record r { triggered = r.triggered + 1 },
  )

  abbrev logged_failure : Option Log → World × Report → World × Report
  logged_failure none (w, r) = (w, add_failed r)
  logged_failure (some log) (w, r) = (record w { log = log }, add_failed r)

  abbrev logged_trigger : PaymentSchedule → Clock → Option Log → World × Report → World × Report
  logged_trigger s clock none (w, r) = (w, add_failed r)
  logged_trigger s clock (some log) (w, r) =
      advanced s clock (next_run s clock.now) (record w { log = log }, r)

  -- One round of the loop. What raises inside is counted as failed.
  unfoldable pub run_one : Clock → PaymentSchedule → Simulation → World × Report → World × Report
  unfolding record_transaction add_audit_log next_run mark_schedule_ran
  run_one clock s (fails error) (w, r) =
      let (id, history) =
        record_transaction s.contract_id "distribute" s.wallet_address none (some s.token_id)
          clock.text w.history in
      let details = fields (
        (codes "scheduleId", number s.id)
        ∷ ((codes "scheduleName", string s.name)
            ∷ ((codes "error", string error) ∷ ((codes "transactionId", number id) ∷ [])))) in
      logged_failure
        (add_audit_log s.contract_id "scheduled_distribution_failed" (some s.wallet_address) details
          clock.text w.log)
        (record w { history = history }, r)
  run_one clock s (costs fee) (w, r) =
      let (id, history) =
        record_transaction s.contract_id "distribute" s.wallet_address none (some s.token_id)
          clock.text w.history in
      let details = fields (
        (codes "scheduleId", number s.id)
        ∷ ((codes "scheduleName", string s.name)
            ∷ ((codes "scheduleType", string s.type)
                ∷ ((codes "transactionId", number id)
                    ∷ ((codes "estimatedFee", number fee) ∷ []))))) in
      logged_trigger s clock
        (add_audit_log s.contract_id "scheduled_distribution_triggered" (some s.wallet_address)
          details clock.text w.log)
        (record w { history = history }, r)

  unfoldable pub run_all :
      Clock
      → (PaymentSchedule → Simulation)
      → List PaymentSchedule
      → World × Report
      → World × Report
  unfolding run_one
  run_all clock simulate [] state = state
  run_all clock simulate (s ∷ due) state =
      run_all clock simulate due (run_one clock s (simulate s) state)

  -- `runPaymentSchedules`
  unfoldable pub run_payment_schedules :
      Clock → (PaymentSchedule → Simulation) → World → World × Report
  unfolding get_schedules_due run_all
  run_payment_schedules clock simulate w =
      run_all clock simulate (get_schedules_due clock.now.ms w.schedules)
        (w, record { triggered = 0; skipped = 0; failed = 0 })

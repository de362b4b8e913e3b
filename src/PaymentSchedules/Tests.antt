-- ===== src/PaymentSchedules/Tests.antt =====
-- A monthly schedule that is posted, and found due at a later run.
use stellar_royalty_splitter.Prelude.{
  ℕ, ◌+◌, ◌*◌, ◌≡◌, refl, Bool, true, none, some, List, [], ◌∷◌, ◌++◌, map, All, length,
}
use stellar_royalty_splitter.Prelude.Text.{
  Text, codes, parse_decimal, unsigned_decimal, digits_of, is_strkey, is_base32_char,
}
use stellar_royalty_splitter.Prelude.Sorting.{sort, insert}
use stellar_royalty_splitter.Schedule.Months.{Date, next_monthly}
use stellar_royalty_splitter.Schedule.Next.{Now, compute_next_run}
use stellar_royalty_splitter.History.Store.{Transaction}
use stellar_royalty_splitter.Audit.{add_audit_log}
use stellar_royalty_splitter.PaymentSchedules.Store.{
  PaymentSchedule, NewSchedule, new_row, get_schedules_due, create_payment_schedule,
  set_next_run_at, delete_payment_schedule,
}
use stellar_royalty_splitter.PaymentSchedules.Job.{
  World, Clock, Simulation, costs, next_run, run_payment_schedules,
}
use stellar_royalty_splitter.PaymentSchedules.Stuck.{run_payment_schedules_stuck}
use stellar_royalty_splitter.PaymentSchedules.Routes.{
  raised, bad_request, not_found, invalid_id, post_schedule, delete_schedule,
}

-- A calendar of months of 32 days.
abbrev calendar : Date → ℕ
calendar d = (d.month * 32 + d.day) * 86400000 + d.ms

abbrev today : Date
today = record { month = 24300; day = 3; ms = 0 }

abbrev now : Now
now = record { ms = calendar today; date = today }

abbrev clock : Clock
clock = record { now = now; text = codes "2025-01-03 00:00:00" }

abbrev any_address : Text → Bool
any_address text = true

abbrev monthly : NewSchedule
monthly = record {
  name = "Rent";
  type = "monthly";
  contract_id = "CAAAAAAAAAAAAAAAAAAAAAAAAAAAAAAAAAAAAAAAAAAAAAAAAAAAAAAA";
  token_id = "CBBBBBBBBBBBBBBBBBBBBBBBBBBBBBBBBBBBBBBBBBBBBBBBBBBBBBBB";
  wallet_address = "G";
  day_of_month = some 1;
  day_of_week = none;
  interval_days = none;
  anchor_date = none;
  hour_of_day = 9;
  timezone = "UTC";
  metadata = none;
}

abbrev empty : World
empty = record {
  schedules = record { rows = []; next_id = 1; writes = 0 };
  history = record { transactions = []; payouts = []; next_id = 1; writes = 0 };
  log = record { entries = []; next_id = 1; writes = 0 };
}

abbrev due_row : PaymentSchedule
due_row = record (new_row 1 monthly 0) { next_run_at = some 5 }

abbrev due_world : World
due_world = record empty { schedules = record { rows = due_row ∷ []; next_id = 2; writes = 2 } }

abbrev answers : PaymentSchedule → Simulation
answers s = costs 100

route_tests :
    ((post_schedule any_address calendar clock (record monthly { hour_of_day = 24 }) empty).0
      ≡ bad_request ("hourOfDay" ∷ []))
    × ((post_schedule any_address calendar clock (record monthly { day_of_month = none }) empty).0
        ≡ bad_request ("dayOfMonth" ∷ []))
    × ((delete_schedule any_address calendar clock (codes "7") due_world).0 ≡ not_found)
    × ((delete_schedule any_address calendar clock (codes "0x1") due_world).0 ≡ invalid_id)
    × ((delete_schedule any_address calendar clock (codes "1") due_world).0 ≡ raised)
    × ((delete_schedule any_address calendar clock (codes "1") due_world).1.schedules.rows ≡ [])
unfolding post_schedule delete_schedule parse_decimal unsigned_decimal digits_of is_strkey
    is_base32_char next_run compute_next_run next_monthly create_payment_schedule set_next_run_at
    delete_payment_schedule add_audit_log
route_tests = (refl, refl, refl, refl, refl, refl)

run_payment_schedules_stuck_example :
    let (after, report) = run_payment_schedules calendar clock answers due_world in
    let due = get_schedules_due clock.now.ms due_world.schedules in
    (after.schedules ≡ due_world.schedules)
    × (after.log ≡ due_world.log)
    × (report ≡ record { triggered = 0; skipped = 0; failed = length due })
    × (added : List Transaction) × (after.history.transactions
        ≡ due_world.history.transactions ++ added)
    × (map (λ (t : Transaction). t.contract_id) added
        ≡ map (λ (s : PaymentSchedule). s.contract_id) due)
    × All (λ (t : Transaction). t.status ≡ "pending") added
run_payment_schedules_stuck_example = run_payment_schedules_stuck calendar clock answers due_world

due_test : get_schedules_due clock.now.ms due_world.schedules ≡ due_row ∷ []
unfolding get_schedules_due sort insert
due_test = refl

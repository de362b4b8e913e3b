-- ===== src/PaymentSchedules/Stuck.antt =====
-- What a run of backend/src/jobs/payment-schedule-job.js comes to: the log refuses both actions that the
-- job reports (backend/src/database/audit.js), before the schedule is moved on.
use stellar_royalty_splitter.Prelude.{
  ℕ, suc, ◌+◌, ◌≡◌, refl, sym, ap, ◌∙◌, List, [], ◌∷◌, ◌++◌, map, All, length, arith,
}
use mathlib.Core.Path.{ap₂}
use mathlib.Core.List.{append_assoc, append-nil}
use stellar_royalty_splitter.Schedule.Months.{Date}
use stellar_royalty_splitter.History.Store.{Transaction, record_transaction}
use stellar_royalty_splitter.PaymentSchedules.Store.{PaymentSchedule, get_schedules_due}
use stellar_royalty_splitter.PaymentSchedules.Job.{
  World, Report, Clock, Simulation, fails, costs, run_one, run_all, run_payment_schedules,
}

-- What is added to the transactions, and that all else is left.
record Stuck (due : List PaymentSchedule) (before : World × Report) (after : World × Report)
    : Type 0 where
  schedules : after.0.schedules ≡ before.0.schedules
  log : after.0.log ≡ before.0.log
  report : after.1 ≡ record before.1 { failed = before.1.failed + length due }
  added : List Transaction
  transactions : after.0.history.transactions ≡ before.0.history.transactions ++ added
  contracts :
      map (λ (t : Transaction). t.contract_id) added
      ≡ map (λ (s : PaymentSchedule). s.contract_id) due
  pending : All (λ (t : Transaction). t.status ≡ "pending") added

module _ (calendar : Date → ℕ) (clock : Clock) where
  run_one-Stuck :
      (s : PaymentSchedule) (answer : Simulation) (state : World × Report)
      → Stuck (s ∷ []) state (run_one calendar clock s answer state)
  unfolding run_one record_transaction
  run_one-Stuck s (fails error) (w, r) = record {
    schedules = refl;
    log = refl;
    report = refl;
    added = _;
    transactions = refl;
    contracts = refl;
    pending = (refl, tt);
  }
  run_one-Stuck s (costs fee) (w, r) = record {
    schedules = refl;
    log = refl;
    report = refl;
    added = _;
    transactions = refl;
    contracts = refl;
    pending = (refl, tt);
  }

  All-join : {A : Type 0} (P : A → Type 0) (xs ys : List A) → All P xs → All P ys → All P (xs ++ ys)
  All-join P [] ys h g = g
  All-join P (x ∷ xs) ys (p, h) g = (p, All-join P xs ys h g)

  map-join : {A B : Type 0} (f : A → B) (xs ys : List A) → map f (xs ++ ys) ≡ map f xs ++ map f ys
  map-join f [] ys = refl
  map-join f (x ∷ xs) ys = ap (λ r. f x ∷ r) (map-join f xs ys)

  Stuck-join :
      (s : PaymentSchedule) (due : List PaymentSchedule) (a b c : World × Report)
      → Stuck (s ∷ []) a b
      → Stuck due b c
      → Stuck (s ∷ due) a c
  Stuck-join s due a b c h g = record {
    schedules = g.schedules ∙ h.schedules;
    log = g.log ∙ h.log;
    report =
        let sum : a.1.failed + 1 + length due ≡ a.1.failed + suc (length due) = omega arith in
        g.report
        ∙ (ap (λ (r : Report). record r { failed = r.failed + length due }) h.report
            ∙ ap (λ (n : ℕ). record a.1 { failed = n }) sum);
    added = h.added ++ g.added;
    transactions =
        g.transactions
        ∙ (ap (λ ts. ts ++ g.added) h.transactions
            ∙ append_assoc a.0.history.transactions h.added g.added);
    contracts =
        map-join (λ (t : Transaction). t.contract_id) h.added g.added
        ∙ ap₂ (λ xs ys. xs ++ ys) h.contracts g.contracts;
    pending = All-join _ h.added g.added h.pending g.pending;
  }

  run_all-Stuck :
      (simulate : PaymentSchedule → Simulation) (due : List PaymentSchedule)
      (state : World × Report)
      → Stuck due state (run_all calendar clock simulate due state)
  unfolding run_all
  run_all-Stuck simulate [] (w, r) = record {
    schedules = refl;
    log = refl;
    report =
        let sum : r.failed ≡ r.failed + 0 = omega arith in
        ap (λ (n : ℕ). record r { failed = n }) sum;
    added = [];
    transactions = sym (append-nil w.history.transactions);
    contracts = refl;
    pending = tt;
  }
  run_all-Stuck simulate (s ∷ due) state =
      let next = run_one calendar clock s (simulate s) state in
      Stuck-join s due state next (run_all calendar clock simulate due next)
        (run_one-Stuck s (simulate s) state) (run_all-Stuck simulate due next)

  -- Whatever the simulations answer, a run moves no schedule on and logs nothing: it counts every due
  -- schedule as failed and none as triggered, and records a pending transaction for the contract of
  -- each, so that the same schedules are due, and recorded again, at the next run.
  pub run_payment_schedules_stuck :
      (simulate : PaymentSchedule → Simulation) (w : World)
      → let (after, report) = run_payment_schedules calendar clock simulate w in
        let due = get_schedules_due clock.now.ms w.schedules in
        (after.schedules ≡ w.schedules)
        × (after.log ≡ w.log)
        × (report ≡ record { triggered = 0; skipped = 0; failed = length due })
        × (added : List Transaction) × (after.history.transactions
            ≡ w.history.transactions ++ added)
        × (map (λ (t : Transaction). t.contract_id) added
            ≡ map (λ (s : PaymentSchedule). s.contract_id) due)
        × All (λ (t : Transaction). t.status ≡ "pending") added
  unfolding run_payment_schedules
  run_payment_schedules_stuck simulate w =
      let due = get_schedules_due clock.now.ms w.schedules in
      let none_yet : Report = record { triggered = 0; skipped = 0; failed = 0 } in
      let h = run_all-Stuck simulate due (w, none_yet) in
      let sum : 0 + length due ≡ length due = omega arith in
      (
        h.schedules,
        h.log,
        h.report ∙ ap (λ (n : ℕ). record none_yet { failed = n }) sum,
        h.added,
        h.transactions,
        h.contracts,
        h.pending,
      )

-- ===== src/Finality/Settled.antt =====
-- A row which has its final status keeps it.
use stellar_royalty_splitter.Prelude.{
  ℕ, ◌≡◌, ◌≢◌, refl, sym, ap, ◌∙◌, String, Bool, true, false, Option, none, some, [], ◌∷◌, leb, ltb,
  ◌==◌, nat_eq, if◌then◌else◌, Bool-cases, Option-cases, inl, inr, arith, eq_of_==,
}
use stellar_royalty_splitter.Prelude.Map.{get, modify}
use stellar_royalty_splitter.Prelude.Map.Laws.{get-set, get-modify_other}
use mathlib.Core.Path.{subst}
use stellar_royalty_splitter.Finality.Backoff.{Config}
use stellar_royalty_splitter.Finality.Store.{
  Status, pending, FinalityRecord, Rows, new_record, with_tx_hash, create_finality_record,
  set_finality_tx_hash, increment_poll_attempt, mark_finality_confirmed, mark_finality_failed,
  mark_finality_timeout,
}
use stellar_royalty_splitter.Finality.Tracker.{
  Loop, World, Phase, waiting, polling, PollResult, is_confirmed, is_failed, unsettled, timed_out,
  other_error, Event, tick, start, cancel, attach, wake, answer, expire, end_loop, loop_head,
  start_tracking, is_tracking, cancel_tracking, update_tx_hash, ask_horizon, after_poll, resume,
  deliver, on_loop, step,
}
use stellar_royalty_splitter.Finality.Invariant.{status, status_of, IsValid}
use stellar_royalty_splitter.Finality.Preserved.{step-IsValid}
use stellar_royalty_splitter.Finality.Reached.{Reaches, stay, after}

-- A row but for its hash.
abbrev pub outcome : Option FinalityRecord → Option FinalityRecord
outcome none = none
outcome (some r) = some (record r { tx_hash = none })

outcome-hashed :
    (id j : ℕ) (tx_hash : String) (rows : Rows)
    → outcome (get id (modify j (with_tx_hash tx_hash) rows)) ≡ outcome (get id rows)
unfolding get modify
outcome-hashed id j tx_hash [] = refl
outcome-hashed id j tx_hash ((i, r) ∷ rows) = ground (arith, outcome-hashed id j tx_hash rows)

if-rows :
    (id : ℕ) (o : Option FinalityRecord) (b : Bool) (x y : World)
    → get id x.rows ≡ o
    → get id y.rows ≡ o
    → get id (if b then x else y).rows ≡ o
if-rows id o true x y h k = h
if-rows id o false x y h k = k

-- A loop leaves the rows of the other transactions.
get-expire :
    (id n : ℕ) (l : Loop) (w : World)
    → (l.transaction_id == id) ≡ false
    → get id (expire n l w).rows ≡ get id w.rows
unfolding expire mark_finality_timeout
get-expire id n l w other = get-modify_other id l.transaction_id _ w.rows other

get-loop_head :
    (cfg : Config) (id draw n : ℕ) (l : Loop) (w : World)
    → (l.transaction_id == id) ≡ false
    → get id (loop_head cfg draw n l w).rows ≡ get id w.rows
unfolding loop_head increment_poll_attempt
get-loop_head cfg id draw n l w other =
    if-rows id _ (ltb w.now l.deadline) _ _
      (if-rows id _ l.aborted (end_loop n w) _ refl
        (get-modify_other id l.transaction_id _ w.rows other))
      (get-expire id n l w other)

module _ (cfg : Config) (id : ℕ) (s : Status) (w : World) (h : IsValid w)
    (is : status_of id w ≡ some s) (final : s ≢ pending) where
  abbrev Same : World → Type 0
  Same v = get id v.rows ≡ get id w.rows

  -- A live loop works on another row.
  apart : (n : ℕ) (l : Loop) → get n w.loops ≡ some l → (l.transaction_id == id) ≡ false
  apart n l here = elim (Bool-cases (l.transaction_id == id)) [
    | inr other ↦ other
    | inl same ↦
        let also =
          subst (λ i. status (get i w.rows) ≡ some pending) (eq_of_== l.transaction_id id same)
            (h.is_pending n l here) in
        absurd (final (ground (arith, is, also)))
  ]

  ask_horizon-Same :
      (draw n : ℕ) (l : Loop) (own stored : Option String)
      → (l.transaction_id == id) ≡ false
      → Same (ask_horizon cfg draw n l own stored w)
  ask_horizon-Same draw n l (some a) stored other = refl
  ask_horizon-Same draw n l none (some a) other = refl
  ask_horizon-Same draw n l none none other = get-loop_head cfg id draw n _ w other

  resume-Same :
      (draw n : ℕ) (l : Loop) (p : Phase)
      → (l.transaction_id == id) ≡ false
      → Same (resume cfg draw n l p w)
  resume-Same draw n l polling other = refl
  resume-Same draw n l (waiting t) other =
      if-rows id _ (leb t w.now) _ w
        (if-rows id _ l.aborted (end_loop n w) _ refl (ask_horizon-Same draw n l l.tx_hash _ other))
        refl

  after_poll-Same :
      (draw n : ℕ) (l : Loop) (result : PollResult)
      → (l.transaction_id == id) ≡ false
      → Same (after_poll cfg draw n l result w)
  unfolding after_poll mark_finality_confirmed mark_finality_failed
  after_poll-Same draw n l (is_confirmed at_time fee) other =
      get-modify_other id l.transaction_id _ w.rows other
  after_poll-Same draw n l (is_failed message) other =
      get-modify_other id l.transaction_id _ w.rows other
  after_poll-Same draw n l unsettled other = get-loop_head cfg id draw n _ w other
  after_poll-Same draw n l other_error other = get-loop_head cfg id draw n _ w other
  after_poll-Same draw n l timed_out other =
      if-rows id _ (ltb w.now l.deadline) _ _ (get-loop_head cfg id draw n _ w other)
        (get-expire id n l w other)

  deliver-Same :
      (draw n : ℕ) (l : Loop) (p : Phase) (result : PollResult)
      → (l.transaction_id == id) ≡ false
      → Same (deliver cfg draw n l p result w)
  deliver-Same draw n l (waiting t) result other = refl
  deliver-Same draw n l polling result other = after_poll-Same draw n l result other

  on_loop-Same :
      (run : ℕ → Loop → World → World) (n : ℕ)
      → ((l : Loop) → get n w.loops ≡ some l → Same (run n l w))
      → Same (on_loop run n (get n w.loops) w)
  on_loop-Same run n runs = elim (Option-cases (get n w.loops)) [
    | inl absent ↦ rw absent
    | inr (l, there) ↦ rw there (runs l there)
  ]

  start_tracking-Same :
      (draw j : ℕ) (tx_hash : Option String) → Same (start_tracking cfg draw j tx_hash w).1
  unfolding start_tracking create_finality_record
  start_tracking-Same draw j tx_hash = elim (Bool-cases (is_tracking j w)) [
    | inl active ↦ rw active
    | inr idle ↦ elim (Option-cases (get j w.rows)) [
      | inr (r, there) ↦ rw (idle, there)
      | inl absent ↦
          let other : (j == id) ≡ false = elim (Bool-cases (j == id)) [
            | inr differs ↦ differs
            | inl same ↦
                ground (arith, is, subst (λ i. get i w.rows ≡ none) (eq_of_== j id same) absent)
          ] in
          rw (idle, absent)
            (get-loop_head cfg id draw w.next_loop _ _ other
              ∙ ground (arith, get-set id j (new_record w.next_row_id j tx_hash w.now) w.rows))
    ]
  ]

  cancel_tracking-Same : (j : ℕ) → Same (cancel_tracking j w).1
  unfolding cancel_tracking
  cancel_tracking-Same j = elim (Option-cases (get j w.trackers)) [
    | inl absent ↦ rw (absent, cancel_tracking)
    | inr (n, there) ↦ rw (there, cancel_tracking)
  ]

  step_settled : (e : Event) → outcome (get id (step cfg e w).rows) ≡ outcome (get id w.rows)
  unfolding step update_tx_hash set_finality_tx_hash
  step_settled (tick ms) = refl
  step_settled (start draw j tx_hash) = ap outcome (start_tracking-Same draw j tx_hash)
  step_settled (cancel j) = ap outcome (cancel_tracking-Same j)
  step_settled (attach j tx_hash) = outcome-hashed id j tx_hash w.rows
  step_settled (wake n draw) = ap outcome (
      on_loop-Same (λ n l w. resume cfg draw n l l.phase w) n
        (λ l there. resume-Same draw n l l.phase (apart n l there)))
  step_settled (answer n draw result) = ap outcome (
      on_loop-Same (λ n l w. deliver cfg draw n l l.phase result w) n
        (λ l there. deliver-Same draw n l l.phase result (apart n l there)))

status-outcome : (o : Option FinalityRecord) → status (outcome o) ≡ status o
status-outcome none = refl
status-outcome (some r) = refl

outcome-status :
    (s : Status) (o p : Option FinalityRecord)
    → outcome o ≡ outcome p
    → status p ≡ some s
    → status o ≡ some s
outcome-status s o p h is = sym (status-outcome o) ∙ ap status h ∙ status-outcome p ∙ is

reached_both :
    (cfg : Config) (id : ℕ) (s : Status) (w v : World)
    → IsValid w
    → status_of id w ≡ some s
    → s ≢ pending
    → Reaches cfg w v
    → (outcome (get id v.rows) ≡ outcome (get id w.rows)) × IsValid v
reached_both cfg id s w v h is final stay = (refl, h)
reached_both cfg id s w v h is final (after {v = u} path e) =
    let (same, valid) = reached_both cfg id s w u h is final path in
    let still = outcome-status s (get id u.rows) (get id w.rows) same is in
    (step_settled cfg id s u valid still final e ∙ same, step-IsValid cfg e u valid)

-- Once a row is confirmed, failed or timed out, no sequence of events changes it, but for its hash:
-- status, final status, times, fee, message and poll count stay as they are.
pub reached_settled :
    (cfg : Config) (id : ℕ) (s : Status) (w v : World)
    → IsValid w
    → status_of id w ≡ some s
    → s ≢ pending
    → Reaches cfg w v
    → outcome (get id v.rows) ≡ outcome (get id w.rows)
reached_settled cfg id s w v h is final path = (reached_both cfg id s w v h is final path).0

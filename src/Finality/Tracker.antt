-- ===== src/Finality/Tracker.antt =====
-- backend/src/transaction-finality.js: the registry of trackers and the polling loops as a state
-- machine. A loop rests where the source awaits: in `delay`, or in `pollHorizonTransaction`, which
-- is outside. Each event runs the code up to the next `await`, and only `tick` moves the clock.
-- An `AbortController` is the number of its loop. A tx hash is never the empty text. The writes to
-- the table do not throw, but for the UNIQUE constraint of an insert.
use stellar_royalty_splitter.Prelude.{
  ℕ, suc, ◌+◌, String, Bool, true, false, Option, none, some, List, ◌∷◌, leb, ltb, nat_eq,
  if◌then◌else◌, or_else,
}
use stellar_royalty_splitter.Prelude.Map.{Map, get, has, set, delete, modify}
use stellar_royalty_splitter.Finality.Backoff.{Config, compute_backoff_ms}
use stellar_royalty_splitter.Finality.Store.{
  FinalityRecord, Rows, coalesce, create_finality_record, set_finality_tx_hash,
  increment_poll_attempt, mark_finality_confirmed, mark_finality_failed, mark_finality_timeout,
  get_finality_by_transaction_id,
}

-- Where a loop awaits.
pub data Phase : Type 0 where
  waiting : ℕ → Phase
  polling : Phase

pub record Loop : Type 0 where
  pub transaction_id : ℕ
  pub tx_hash : Option String
  pub aborted : Bool
  pub deadline : ℕ
  pub attempt : ℕ
  pub phase : Phase

-- What `broadcastFinalityUpdate` is called with.
pub data Update : Type 0 where
  confirmed_update : ℕ → Option String → Option String → Option ℕ → Update
  failed_update : ℕ → Option String → String → Update
  timeout_update : ℕ → Option String → Update

pub record World : Type 0 where
  pub now : ℕ
  pub rows : Rows
  pub trackers : Map ℕ ℕ
  pub loops : Map ℕ Loop
  pub next_loop : ℕ
  pub next_row_id : ℕ
  pub updates : List Update

-- How `pollHorizonTransaction` settles: a result, or an error with or without status 504.
pub data PollResult : Type 0 where
  is_confirmed : Option ℕ → Option String → PollResult
  is_failed : Option String → PollResult
  unsettled : PollResult
  timed_out : PollResult
  other_error : PollResult

pub data Started : Type 0 where
  started : ℕ → Started
  already_active : Started
  constraint_failed : Started

unfoldable pub is_tracking : ℕ → World → Bool
is_tracking transaction_id w = has transaction_id w.trackers

abbrev pub end_loop : ℕ → World → World
end_loop n w = record w { loops = delete n w.loops }

-- The code behind the loop.
unfoldable pub expire : ℕ → Loop → World → World
expire n l w = record w {
  rows = mark_finality_timeout w.now l.transaction_id w.rows;
  updates = timeout_update l.transaction_id l.tx_hash ∷ w.updates;
  trackers = delete l.transaction_id w.trackers;
  loops = delete n w.loops;
}

-- From the test of the loop to the next `await`.
unfoldable pub loop_head : Config → ℕ → ℕ → Loop → World → World
loop_head cfg draw n l w =
    if ltb w.now l.deadline
    then (if l.aborted
        then end_loop n w
        else let next_poll_at = w.now + compute_backoff_ms cfg draw l.attempt in
          record w {
            rows = increment_poll_attempt l.transaction_id (some next_poll_at) w.rows;
            loops = set n (record l { phase = waiting next_poll_at }) w.loops;
          })
    else expire n l w

abbrev pub next_attempt : Config → ℕ → ℕ → Loop → World → World
next_attempt cfg draw n l w = loop_head cfg draw n (record l { attempt = l.attempt + 1 }) w

abbrev pub new_loop : Config → ℕ → Option String → ℕ → Loop
new_loop cfg transaction_id tx_hash now = record {
  transaction_id = transaction_id;
  tx_hash = tx_hash;
  aborted = false;
  deadline = now + cfg.max_poll_duration_ms;
  attempt = 0;
  phase = polling;
}

abbrev pub with_tracker : Config → ℕ → Option String → Rows → World → World
with_tracker cfg transaction_id tx_hash rows w = record w {
  rows = rows;
  next_row_id = suc w.next_row_id;
  trackers = set transaction_id w.next_loop w.trackers;
  loops = set w.next_loop (new_loop cfg transaction_id tx_hash w.now) w.loops;
  next_loop = suc w.next_loop;
}

unfoldable pub start_tracking : Config → ℕ → ℕ → Option String → World → Started × World
start_tracking cfg draw transaction_id tx_hash w =
    if is_tracking transaction_id w
    then (already_active, w)
    else elim (create_finality_record w.next_row_id transaction_id tx_hash w.now w.rows) [
      | none ↦ (constraint_failed, w)
      | some rows ↦ (
        started w.next_row_id,
        loop_head cfg draw w.next_loop (new_loop cfg transaction_id tx_hash w.now)
            (with_tracker cfg transaction_id tx_hash rows w),
      )
    ]

abbrev pub abort : Loop → Loop
abort l = record l { aborted = true }

unfoldable pub cancel_tracking : ℕ → World → Bool × World
cancel_tracking transaction_id w = elim (get transaction_id w.trackers) [
  | none ↦ (false, w)
  | some n ↦ (
    true,
    record w { loops = modify n abort w.loops; trackers = delete transaction_id w.trackers },
  )
]

unfoldable pub update_tx_hash : ℕ → String → World → World
update_tx_hash transaction_id tx_hash w = record w {
  rows = set_finality_tx_hash transaction_id tx_hash w.rows;
}

abbrev stored_hash : Option FinalityRecord → Option String
stored_hash none = none
stored_hash (some r) = r.tx_hash

abbrev poll_with : ℕ → Loop → Option String → World → World
poll_with n l tx_hash w = record w {
  loops = set n (record l { tx_hash = tx_hash; phase = polling }) w.loops;
}

-- `if (!txHash)`, with the hash of the loop and that of the row.
abbrev pub ask_horizon : Config → ℕ → ℕ → Loop → Option String → Option String → World → World
ask_horizon cfg draw n l (some h) stored w = poll_with n l (some h) w
ask_horizon cfg draw n l none (some h) w = poll_with n l (some h) w
ask_horizon cfg draw n l none none w = next_attempt cfg draw n l w

-- Behind the `delay`.
abbrev pub after_delay : Config → ℕ → ℕ → Loop → World → World
after_delay cfg draw n l w =
    if l.aborted
    then end_loop n w
    else ask_horizon cfg draw n l l.tx_hash
        (stored_hash (get_finality_by_transaction_id l.transaction_id w.rows)) w

abbrev default_error : String
default_error = "Transaction failed on-chain"

-- Behind the poll.
unfoldable pub after_poll : Config → ℕ → ℕ → Loop → PollResult → World → World
after_poll cfg draw n l (is_confirmed created_at fee_paid) w = record w {
  rows = mark_finality_confirmed w.now l.transaction_id fee_paid created_at w.rows;
  updates = confirmed_update l.transaction_id l.tx_hash fee_paid created_at ∷ w.updates;
  loops = delete n w.loops;
}
after_poll cfg draw n l (is_failed error_message) w = record w {
  rows = mark_finality_failed w.now l.transaction_id (coalesce error_message default_error) w.rows;
  updates =
      failed_update l.transaction_id l.tx_hash (or_else error_message default_error) ∷ w.updates;
  loops = delete n w.loops;
}
after_poll cfg draw n l unsettled w = next_attempt cfg draw n l w
after_poll cfg draw n l timed_out w =
    if ltb w.now l.deadline then next_attempt cfg draw n l w else expire n l w
after_poll cfg draw n l other_error w = next_attempt cfg draw n l w

-- What can happen; the second number of a resumption is the draw of `Math.random`.
pub data Event : Type 0 where
  tick : ℕ → Event
  start : ℕ → ℕ → Option String → Event
  cancel : ℕ → Event
  attach : ℕ → String → Event
  wake : ℕ → ℕ → Event
  answer : ℕ → ℕ → PollResult → Event

abbrev pub resume : Config → ℕ → ℕ → Loop → Phase → World → World
resume cfg draw n l (waiting t) w = if leb t w.now then after_delay cfg draw n l w else w
resume cfg draw n l polling w = w

abbrev pub deliver : Config → ℕ → ℕ → Loop → Phase → PollResult → World → World
deliver cfg draw n l (waiting t) result w = w
deliver cfg draw n l polling result w = after_poll cfg draw n l result w

abbrev pub on_loop : (ℕ → Loop → World → World) → ℕ → Option Loop → World → World
on_loop run n none w = w
on_loop run n (some l) w = run n l w

unfoldable pub step : Config → Event → World → World
unfolding start_tracking cancel_tracking update_tx_hash
step cfg (tick ms) w = record w { now = w.now + ms }
step cfg (start draw id tx_hash) w = (start_tracking cfg draw id tx_hash w).1
step cfg (cancel id) w = (cancel_tracking id w).1
step cfg (attach id tx_hash) w = update_tx_hash id tx_hash w
step cfg (wake n draw) w = on_loop (λ n l w. resume cfg draw n l l.phase w) n (get n w.loops) w
step cfg (answer n draw result) w =
    on_loop (λ n l w. deliver cfg draw n l l.phase result w) n (get n w.loops) w

-- ===== src/Finality/Store.antt =====
-- backend/src/database/transaction-finality.js. The table is a map from `transaction_id`, which is
-- UNIQUE, to the row, and an ISO time is its milliseconds. The count of the writes is left out.
use stellar_royalty_splitter.Prelude.{
  ℕ, ◌+◌, ◌/◌, String, Bool, true, false, ◌&&◌, Option, none, some, List, [], ◌∷◌, leb, ◌==◌,
  nat_eq, string_eq, if◌then◌else◌,
}
use stellar_royalty_splitter.Prelude.Map.{Map, get, set, modify}

pub data Status : Type 0 where
  pending confirmed failed timeout : Status

pub record FinalityRecord : Type 0 where
  pub id : ℕ
  pub transaction_id : ℕ
  pub tx_hash : Option String
  pub status : Status
  pub confirmations : ℕ
  pub fee_paid : Option String
  pub submission_at : ℕ
  pub first_confirmation_at : Option ℕ
  pub final_status : Option Status
  pub final_status_at : Option ℕ
  pub error_message : Option String
  pub poll_attempts : ℕ
  pub next_poll_at : Option ℕ

abbrev pub Rows : Type 0
Rows = Map ℕ FinalityRecord

abbrev pub new_record : ℕ → ℕ → Option String → ℕ → FinalityRecord
new_record id transaction_id tx_hash now = record {
  id = id;
  transaction_id = transaction_id;
  tx_hash = tx_hash;
  status = pending;
  confirmations = 0;
  fee_paid = none;
  submission_at = now;
  first_confirmation_at = none;
  final_status = none;
  final_status_at = none;
  error_message = none;
  poll_attempts = 0;
  next_poll_at = none;
}

-- `createFinalityRecord` with the next row id; `none` is the violated UNIQUE constraint.
unfoldable pub create_finality_record : ℕ → ℕ → Option String → ℕ → Rows → Option Rows
create_finality_record id transaction_id tx_hash now rows = elim (get transaction_id rows) [
  | none ↦ some (set transaction_id (new_record id transaction_id tx_hash now) rows)
  | some r ↦ none
]

abbrev pub with_tx_hash : String → FinalityRecord → FinalityRecord
with_tx_hash tx_hash r = record r { tx_hash = some tx_hash }

unfoldable pub set_finality_tx_hash : ℕ → String → Rows → Rows
set_finality_tx_hash transaction_id tx_hash rows = modify transaction_id (with_tx_hash tx_hash) rows

abbrev pub polled : Option ℕ → FinalityRecord → FinalityRecord
polled next_poll_at r = record r {
  poll_attempts = r.poll_attempts + 1;
  next_poll_at = next_poll_at;
}

unfoldable pub increment_poll_attempt : ℕ → Option ℕ → Rows → Rows
increment_poll_attempt transaction_id next_poll_at rows =
    modify transaction_id (polled next_poll_at) rows

-- `COALESCE(first, otherwise)` and `first ?? otherwise`.
abbrev pub coalesce : {A : Type 0} → Option A → A → Option A
coalesce none otherwise = some otherwise
coalesce (some a) otherwise = some a

abbrev first_time : Option ℕ → Option ℕ → ℕ → Option ℕ
first_time (some t) first_confirmation_at now = some t
first_time none first_confirmation_at now = coalesce first_confirmation_at now

abbrev pub as_confirmed : ℕ → Option String → Option ℕ → FinalityRecord → FinalityRecord
as_confirmed now fee_paid first_confirmation_at r = record r {
  status = confirmed;
  confirmations = 1;
  fee_paid = fee_paid;
  first_confirmation_at = first_time r.first_confirmation_at first_confirmation_at now;
  final_status = some confirmed;
  final_status_at = some now;
  next_poll_at = none;
}

unfoldable pub mark_finality_confirmed : ℕ → ℕ → Option String → Option ℕ → Rows → Rows
mark_finality_confirmed now transaction_id fee_paid first_confirmation_at rows =
    modify transaction_id (as_confirmed now fee_paid first_confirmation_at) rows

abbrev pub as_failed : ℕ → Option String → FinalityRecord → FinalityRecord
as_failed now error_message r = record r {
  status = failed;
  final_status = some failed;
  final_status_at = some now;
  error_message = error_message;
  next_poll_at = none;
}

unfoldable pub mark_finality_failed : ℕ → ℕ → Option String → Rows → Rows
mark_finality_failed now transaction_id error_message rows =
    modify transaction_id (as_failed now error_message) rows

abbrev pub window_message : String
window_message = "Finality polling window (10 min) expired without confirmation"

abbrev pub as_timeout : ℕ → FinalityRecord → FinalityRecord
as_timeout now r = record r {
  status = timeout;
  final_status = some timeout;
  final_status_at = some now;
  error_message = some window_message;
  next_poll_at = none;
}

unfoldable pub mark_finality_timeout : ℕ → ℕ → Rows → Rows
mark_finality_timeout now transaction_id rows = modify transaction_id (as_timeout now) rows

abbrev pub get_finality_by_transaction_id : ℕ → Rows → Option FinalityRecord
get_finality_by_transaction_id transaction_id rows = get transaction_id rows

abbrev has_hash : String → Option String → Bool
has_hash tx_hash none = false
has_hash tx_hash (some h) = h == tx_hash

unfoldable pub get_finality_by_tx_hash : String → Rows → Option FinalityRecord
get_finality_by_tx_hash tx_hash [] = none
get_finality_by_tx_hash tx_hash ((j, r) ∷ rows) =
    if has_hash tx_hash r.tx_hash then some r else get_finality_by_tx_hash tx_hash rows

abbrev is_pending : Status → Bool
is_pending pending = true
is_pending confirmed = false
is_pending failed = false
is_pending timeout = false

-- `next_poll_at IS NULL OR next_poll_at <= ?`
abbrev is_due : ℕ → Option ℕ → Bool
is_due now none = true
is_due now (some t) = leb t now

-- Rows are inserted at growing times, so the order of insertion is that of `submission_at`.
unfoldable pub get_pending_finality_records : ℕ → Rows → List FinalityRecord
get_pending_finality_records now [] = []
get_pending_finality_records now ((j, r) ∷ rows) =
    let rest = get_pending_finality_records now rows in
    if is_pending r.status && is_due now r.next_poll_at then r ∷ rest else rest

-- `submission_at < ?` with a value of `CURRENT_TIMESTAMP` and an ISO text: on the same day the blank in
-- front of the time comes before the `T`, so that the days decide.
abbrev pub is_submitted_before : ℕ → FinalityRecord → Bool
is_submitted_before cutoff r = leb (r.submission_at / 86400000) (cutoff / 86400000)

-- `deleteOldFinalityRecords`: the rows that are kept, and how many are not.
unfoldable pub delete_old_finality_records : ℕ → Rows → ℕ × Rows
delete_old_finality_records cutoff [] = (0, [])
delete_old_finality_records cutoff ((j, r) ∷ rows) =
    let (deleted, rest) = delete_old_finality_records cutoff rows in
    if is_submitted_before cutoff r then (deleted + 1, rest) else (deleted, (j, r) ∷ rest)

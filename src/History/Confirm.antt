-- ===== src/History/Confirm.antt =====
-- `POST /transaction/confirm/:txHash` of backend/src/routes/history.js, up to the poll of Horizon and
-- behind it: other requests run in between. What the poll answers is an argument. A body's
-- `transactionId` is given as its text, and the archive as a list of transactions.
use stellar_royalty_splitter.Prelude.{
  ℕ, String, Bool, true, false, not, ◌&&◌, Option, none, some, List, ◌==◌, nat_eq, string_eq,
  if◌then◌else◌, find_first, length, all, leb, or_else, is_some,
}
use stellar_royalty_splitter.Prelude.Text.{
  Text, codes, is_hex_char, Parsed, nan, pos, neg, parse_decimal,
}
use stellar_royalty_splitter.History.Store.{
  Transaction, Store, has_hash, get_transaction_by_id, update_transaction_hash,
  update_transaction_status,
}

pub record ConfirmBody : Type 0 where
  pub transaction_id : Option Text
  pub block_time : Option String
  pub error_message : Option String

-- What `pollHorizonTransaction` answers: whether the transaction was successful, and when it was
-- created, or the status of what it throws.
pub data Poll : Type 0 where
  polled : Bool → Option String → Poll
  thrown : Option ℕ → Poll

pub data ConfirmReply : Type 0 where
  invalid_hash invalid_transaction_id not_found linked_to_other : ConfirmReply
  already : String → ConfirmReply
  poll_failed : ℕ → ConfirmReply
  marked_as : String → ConfirmReply

-- The handler answers, or goes on to poll.
pub data Before : Type 0 where
  answered : ConfirmReply → Before
  polls : Before

-- `/^[0-9a-fA-F]{64}$/`
abbrev pub is_transaction_hash : Text → Bool
is_transaction_hash text = all is_hex_char text && length text == 64

abbrev pub poll_status : Bool → String
poll_status true = "confirmed"
poll_status false = "failed"

abbrev has_other_hash : String → Transaction → Bool
has_other_hash tx_hash t =
    let linked = or_else t.tx_hash "" in not (linked == "") && not (linked == tx_hash)

abbrev pub check_status : Option Transaction → Before
check_status none = answered not_found
check_status (some t) = if t.status == "pending" then polls else answered (already t.status)

-- `deliverDistributeWebhooks` is called with the transaction, if at all.
abbrev pub delivered_row : Bool → Option Transaction → Option Transaction
delivered_row successful none = none
delivered_row successful (some t) = if successful && t.type == "distribute" then some t else none

module _ (archive : List Transaction) where
  abbrev pub or_archived : String → Option Transaction → Option Transaction
  or_archived tx_hash none = find_first (has_hash tx_hash) archive
  or_archived tx_hash (some t) = some t

  -- `getTransactionDetails`, without the payouts and the audit log of its answer
  unfoldable pub get_transaction_details : String → Store → Option Transaction
  get_transaction_details tx_hash s =
      or_archived tx_hash (find_first (has_hash tx_hash) s.transactions)

  abbrev link_pending : String → ℕ → Option Transaction → Store → Before × Store
  link_pending tx_hash id none s = (answered not_found, s)
  link_pending tx_hash id (some pending) s =
      let linked = update_transaction_hash id tx_hash s in
      let next = check_status (get_transaction_details tx_hash linked) in
      if not (pending.status == "pending")
      then (answered (already pending.status), s)
      else (if has_other_hash tx_hash pending
          then (answered linked_to_other, s)
          else (next, linked))

  abbrev link_parsed : String → Parsed → Store → Before × Store
  link_parsed tx_hash nan s = (answered invalid_transaction_id, s)
  link_parsed tx_hash (neg n) s = (answered invalid_transaction_id, s)
  link_parsed tx_hash (pos n) s =
      if leb 1 n
      then link_pending tx_hash n (get_transaction_by_id n s) s
      else (answered invalid_transaction_id, s)

  abbrev pub check_existing : String → Option Text → Option Transaction → Store → Before × Store
  check_existing tx_hash id (some existing) s = (check_status (some existing), s)
  check_existing tx_hash none none s = (answered not_found, s)
  check_existing tx_hash (some id) none s = link_parsed tx_hash (parse_decimal id) s

  -- Up to `await pollHorizonTransaction`
  unfoldable pub begin_confirm : String → ConfirmBody → Store → Before × Store
  unfolding get_transaction_details get_transaction_by_id update_transaction_hash parse_decimal
      is_hex_char
  begin_confirm tx_hash body s =
      if is_transaction_hash (codes tx_hash)
      then check_existing tx_hash body.transaction_id (get_transaction_details tx_hash s) s
      else (answered invalid_hash, s)

  -- Behind `await pollHorizonTransaction`
  unfoldable pub finish_confirm :
      String → ConfirmBody → Poll → Store → ConfirmReply × Option Transaction × Store
  unfolding get_transaction_details update_transaction_status
  finish_confirm tx_hash body (thrown status) s = (poll_failed (or_else status 504), none, s)
  finish_confirm tx_hash body (polled successful created_at) s =
      let block_time = if is_some body.block_time then body.block_time else created_at in
      let stored =
        update_transaction_status tx_hash (poll_status successful) block_time body.error_message
          s in
      (
        marked_as (poll_status successful),
        delivered_row successful (get_transaction_details tx_hash stored),
        stored,
      )

-- ===== src/History/Tests.antt =====
-- A contract with three transactions, two of them of the same second, and one of another contract.
use stellar_royalty_splitter.Prelude.{
  ℕ, suc, ◌≡◌, refl, String, Bool, true, false, Option, none, some, [], ◌∷◌, arith,
}
use stellar_royalty_splitter.Prelude.Text.{
  codes, parse_int, pos, neg, nan, digits_of, unsigned, is_base32_char, is_strkey, is_hex_char,
  to_lower, Text, same_text,
}
use stellar_royalty_splitter.Prelude.Sorting.{sort, insert}
use stellar_royalty_splitter.Prelude.TextOrder.{text_less, matches, like}
use stellar_royalty_splitter.History.Store.{
  Transaction, Store, Filters, row, Cursor, cursor_of, newer, is_listed, get_transaction_count,
  get_transaction_history, get_transaction_history_cursor,
}
use stellar_royalty_splitter.History.Newest.{DistinctIds}
use stellar_royalty_splitter.History.Paging.{cursor_page-offset_page}
use stellar_royalty_splitter.History.Walk.{walk, walk_ends}
use stellar_royalty_splitter.History.Parameters.{
  Pagination, Decoded, parse_pagination, is_contract_id,
}
use stellar_royalty_splitter.History.Routes.{Query, OffsetInfo, offset_page, get_history}

abbrev contract : String
contract = "CAAAAAAAAAAAAAAAAAAAAAAAAAAAAAAAAAAAAAAAAAAAAAAAAAAAAAAA"

abbrev transaction : ℕ → String → String → Transaction
transaction id owner timestamp = record {
  id = id;
  tx_hash = none;
  contract_id = owner;
  type = "distribute";
  initiator_address = "G";
  requested_amount = some "100";
  token_id = none;
  timestamp = codes timestamp;
  block_time = none;
  status = "pending";
  error_message = none;
  retry_count = 0;
  last_retry_time = none;
}

abbrev early : Transaction
early = transaction 3 contract "2025-01-01 08:00:00"

abbrev late_a : Transaction
late_a = transaction 1 contract "2025-01-02 08:00:00"

abbrev late_b : Transaction
late_b = transaction 2 contract "2025-01-02 08:00:00"

abbrev foreign : Transaction
foreign = transaction 4 "other" "2025-01-03 08:00:00"

abbrev store : Store
store = record {
  transactions = early ∷ late_a ∷ late_b ∷ foreign ∷ [];
  payouts =
      record {
        transaction_id = 2;
        contract_id = contract;
        collaborator_address = codes "GABC";
        amount_received = "50";
      }
      ∷ [];
  next_id = 5;
  writes = 0;
}

abbrev unfiltered : Filters
unfiltered = record { type = none; recipient = none; start_date = none; end_date = none }

abbrev paid_to : String → Filters
paid_to recipient = record unfiltered { recipient = some (codes recipient) }

run_tests :
    (get_transaction_history store contract 10 0 unfiltered
      ≡ record { transaction = late_b; payout_count = 1 }
        ∷ (record { transaction = late_a; payout_count = 0 }
            ∷ (record { transaction = early; payout_count = 0 } ∷ [])))
    × (get_transaction_count store contract (paid_to "abc") ≡ 1)
    × (get_transaction_count store contract (paid_to "x") ≡ 0)
    × (get_transaction_count store contract
          (record unfiltered { start_date = some (codes "2025-01-02") })
        ≡ 2)
    × (parse_int (codes " -12ab") ≡ neg 12)
    × (parse_int (codes "0x1F") ≡ pos 31)
    × (parse_int (codes "abc") ≡ nan)
unfolding get_transaction_history get_transaction_count is_listed newer sort insert text_less
    same_text matches like to_lower parse_int unsigned digits_of is_hex_char
run_tests = (refl, refl, refl, refl, refl, refl, refl)

-- The text of a row that lies behind an ISO start date, compared with it, comes before it.
iso_start_date_test :
    get_transaction_count store contract
      (record unfiltered { start_date = some (codes "2025-01-02T00:00:00Z") })
    ≡ 0
unfolding get_transaction_count is_listed text_less
iso_start_date_test = refl

distinct : DistinctIds store.transactions
distinct = (
  ((λ e. absurd (omega arith)), ((λ e. absurd (omega arith)), ((λ e. absurd (omega arith)), tt))),
  (
    ((λ e. absurd (omega arith)), ((λ e. absurd (omega arith)), tt)),
    (((λ e. absurd (omega arith)), tt), (tt, tt)),
  ),
)

first_row : get_transaction_history store contract 1 0 unfiltered ≡ row store late_b ∷ []
unfolding get_transaction_history is_listed newer sort insert text_less same_text
first_row = refl

cursor_page-offset_page_example :
    (get_transaction_history_cursor store contract 2
      (some (cursor_of (row store late_b)))
      unfiltered).rows
    ≡ get_transaction_history store contract 2 1 unfiltered
cursor_page-offset_page_example =
    cursor_page-offset_page store contract unfiltered 2 0 (row store late_b) distinct first_row

walk_ends_example :
    let total = get_transaction_count store contract unfiltered in
    walk (suc total) store contract 2 none unfiltered
    ≡ some (get_transaction_history store contract total 0 unfiltered)
walk_ends_example = walk_ends store contract unfiltered 2 distinct (omega arith)

abbrev no_offset : Pagination
no_offset = record { limit = 1; offset = 0 }

abbrev two_rows : Query
two_rows = record {
  type = some "distribute";
  recipient = none;
  start_date = none;
  end_date = none;
  limit = some (codes "2");
  offset = none;
  cursor = none;
}

abbrev two_rows_info : OffsetInfo
two_rows_info = record {
  limit = 2;
  offset = 0;
  total = 3;
  has_next_page = true;
  has_prev_page = false;
}

abbrev any_date : Text → Bool
any_date text = true

abbrev no_cursor : Text → Option Decoded
no_cursor text = none

abbrev blank : Cursor → Text
blank c = []

two_rows_reply :
    get_history any_date no_cursor blank contract two_rows store
    ≡ offset_page (row store late_b ∷ (row store late_a ∷ [])) two_rows_info
unfolding get_history get_transaction_history get_transaction_count is_listed newer sort insert
    text_less same_text parse_pagination parse_int unsigned digits_of is_contract_id is_strkey
    is_base32_char
two_rows_reply = refl

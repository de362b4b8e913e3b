-- ===== src/History/Store.antt =====
-- The tables of transactions and payouts, and their statements, of
-- backend/src/database/transactions.js. A text that a statement compares or searches is the list of
-- its code points.
use stellar_royalty_splitter.Prelude.{
  ℕ, suc, ◌+◌, String, Bool, true, false, ◌&&◌, ◌||◌, not, Option, none, some, List, [], ◌∷◌, ◌++◌,
  map, ◌==◌, nat_eq, string_eq, if◌then◌else◌, any, keep, find_first, update_where, take, drop,
  length, count_if, ltb, or_else, is_some,
}
use stellar_royalty_splitter.Prelude.Lists.Slices.{last}
use stellar_royalty_splitter.Prelude.Sorting.{sort}
use stellar_royalty_splitter.Prelude.Text.{Text, text_key}
use stellar_royalty_splitter.Prelude.TextOrder.{text_less, like}

pub record Transaction : Type 0 where
  pub id : ℕ
  pub tx_hash : Option String
  pub contract_id : String
  pub type : String
  pub initiator_address : String
  pub requested_amount : Option String
  pub token_id : Option String
  pub timestamp : Text
  pub block_time : Option String
  pub status : String
  pub error_message : Option String
  pub retry_count : ℕ
  pub last_retry_time : Option Text

pub record Payout : Type 0 where
  pub transaction_id : ℕ
  pub contract_id : String
  pub collaborator_address : Text
  pub amount_received : String

pub record Store : Type 0 where
  pub transactions : List Transaction
  pub payouts : List Payout
  pub next_id : ℕ
  pub writes : ℕ

abbrev pub max_retry_count : ℕ
max_retry_count = 3

abbrev pub count_write : Store → Store
count_write s = record s { writes = s.writes + 1 }

-- `recordTransaction`; the default of `timestamp` is the present time.
unfoldable pub record_transaction :
    String → String → String → Option String → Option String → Text → Store → ℕ × Store
record_transaction contract type initiator requested_amount token_id now s =
    let row : Transaction = record {
      id = s.next_id;
      tx_hash = none;
      contract_id = contract;
      type = type;
      initiator_address = initiator;
      requested_amount = requested_amount;
      token_id = token_id;
      timestamp = now;
      block_time = none;
      status = "pending";
      error_message = none;
      retry_count = 0;
      last_retry_time = none;
    } in
    (
      s.next_id,
      count_write
          (record s { transactions = s.transactions ++ (row ∷ []); next_id = s.next_id + 1 }),
    )

-- `updateTransactionHash`
unfoldable pub update_transaction_hash : ℕ → String → Store → Store
update_transaction_hash id tx_hash s = count_write (record s {
  transactions =
      update_where (λ (t : Transaction). t.id == id)
        (λ (t : Transaction). record t { tx_hash = some tx_hash }) s.transactions;
})

abbrev pub has_hash : String → Transaction → Bool
has_hash tx_hash t = is_some t.tx_hash && or_else t.tx_hash "" == tx_hash

-- `updateTransactionStatus`
unfoldable pub update_transaction_status :
    String → String → Option String → Option String → Store → Store
update_transaction_status tx_hash status block_time error_message s = count_write (record s {
  transactions =
      update_where (has_hash tx_hash)
        (λ (t : Transaction). record t {
          status = status;
          block_time = block_time;
          error_message = error_message;
        })
        s.transactions;
})

-- `addDistributionPayout`
unfoldable pub add_distribution_payout : ℕ → String → Text → String → Store → Store
add_distribution_payout transaction_id contract collaborator amount s =
    let row : Payout = record {
      transaction_id = transaction_id;
      contract_id = contract;
      collaborator_address = collaborator;
      amount_received = amount;
    } in
    count_write (record s { payouts = s.payouts ++ (row ∷ []) })

-- The filters that are set; an empty text sets none.
pub record Filters : Type 0 where
  pub type : Option String
  pub recipient : Option Text
  pub start_date : Option Text
  pub end_date : Option Text

abbrev passes {ℓ} : {A : Type ℓ} → Option A → (A → Bool) → Bool
passes none p = true
passes (some a) p = p a

abbrev pub is_payout_of : ℕ → Payout → Bool
is_payout_of id p = p.transaction_id == id

abbrev pub pays : Text → List Payout → ℕ → Bool
pays recipient payouts id =
    any
      (λ (p : Payout).
        p.transaction_id == id && like p.collaborator_address (b'%' ∷ (recipient ++ (b'%' ∷ []))))
      payouts

-- The conditions that the three queries share.
unfoldable pub is_listed : Store → String → Filters → Transaction → Bool
is_listed s contract f t =
    t.contract_id == contract
    && (passes f.type (λ type. t.type == type)
        && (passes f.recipient (λ recipient. pays recipient s.payouts t.id)
            && (passes f.start_date (λ start. not (text_less t.timestamp start))
                && passes f.end_date (λ end. not (text_less end t.timestamp)))))

-- `ORDER BY t.timestamp DESC, t.id DESC`
unfoldable pub newer : Transaction → Transaction → Bool
newer a b = text_less b.timestamp a.timestamp || (b.timestamp == a.timestamp && ltb b.id a.id)

-- A row of the listing: the transaction, and how many payouts it is joined to.
pub record Row : Type 0 where
  pub transaction : Transaction
  pub payout_count : ℕ

abbrev pub row : Store → Transaction → Row
row s t = record { transaction = t; payout_count = count_if (is_payout_of t.id) s.payouts }

-- `getTransactionCount`
unfoldable pub get_transaction_count : Store → String → Filters → ℕ
get_transaction_count s contract f = count_if (is_listed s contract f) s.transactions

-- `getTransactionHistory`
unfoldable pub get_transaction_history : Store → String → ℕ → ℕ → Filters → List Row
get_transaction_history s contract limit offset f =
    map (row s)
      (take limit (drop offset (sort newer (keep (is_listed s contract f) s.transactions))))

pub record Cursor : Type 0 where
  pub timestamp : Text
  pub id : ℕ

-- `(t.timestamp < ? OR (t.timestamp = ? AND t.id < ?))`
abbrev pub is_behind : Cursor → Transaction → Bool
is_behind c t = text_less t.timestamp c.timestamp || (t.timestamp == c.timestamp && ltb t.id c.id)

pub record Page : Type 0 where
  pub rows : List Row
  pub next_cursor : Option Cursor

abbrev pub cursor_of : Row → Cursor
cursor_of r = record { timestamp = r.transaction.timestamp; id = r.transaction.id }

abbrev pub cursor_at : Option Row → Option Cursor
cursor_at none = none
cursor_at (some r) = some (cursor_of r)

-- One row more than the page is read, to see whether there is a next one.
abbrev pub page : ℕ → List Row → Page
page limit found =
    let has_more = ltb limit (length found) in
    let rows = if has_more then take limit found else found in
    record { rows = rows; next_cursor = if has_more then cursor_at (last rows) else none }

-- `getTransactionHistoryCursor`
unfoldable pub get_transaction_history_cursor : Store → String → ℕ → Option Cursor → Filters → Page
get_transaction_history_cursor s contract limit cursor f =
    let conditions =
      λ (t : Transaction). is_listed s contract f t && passes cursor (λ c. is_behind c t) in
    page limit (map (row s) (take (suc limit) (sort newer (keep conditions s.transactions))))

-- `getTransactionById`
unfoldable pub get_transaction_by_id : ℕ → Store → Option Transaction
get_transaction_by_id id s = find_first (λ (t : Transaction). t.id == id) s.transactions

-- `ORDER BY CASE WHEN last_retry_time IS NULL THEN 0 ELSE 1 END, last_retry_time ASC, id ASC`
unfoldable pub retried_before : Transaction → Transaction → Bool
retried_before a b = elim a.last_retry_time [
  | none ↦ elim b.last_retry_time [ none ↦ ltb a.id b.id | some u ↦ true ]
  | some t ↦ elim b.last_retry_time [
    | none ↦ false
    | some u ↦ text_less t u || (t == u && ltb a.id b.id)
  ]
]

-- `getRetryEligibleTransactions`
unfoldable pub get_retry_eligible_transactions : ℕ → Store → List Transaction
get_retry_eligible_transactions limit s = take limit (
    sort retried_before (
      keep (λ (t : Transaction). t.status == "failed" && ltb t.retry_count max_retry_count)
        s.transactions))

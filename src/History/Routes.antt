-- ===== src/History/Routes.antt =====
-- `GET /history/:contractId` of backend/src/routes/history.js, up to the call of the cache. The parser
-- of dates and the coding of cursors, base64 around JSON, are arguments.
use stellar_royalty_splitter.Prelude.{
  ℕ, ◌+◌, String, Bool, true, ◌||◌, Option, none, some, List, ◌==◌, nat_eq, string_eq,
  if◌then◌else◌, length, ltb, is_some,
}
use stellar_royalty_splitter.Prelude.Text.{codes, Text}
use stellar_royalty_splitter.History.Store.{
  Store, Filters, Row, Cursor, get_transaction_count, get_transaction_history,
  get_transaction_history_cursor,
}
use stellar_royalty_splitter.History.Parameters.{
  is_contract_id, Pagination, CursorPagination, Checked, valid, refused, parse_pagination, Decoded,
  parse_cursor_pagination,
}

pub record Query : Type 0 where
  pub type : Option String
  pub recipient : Option Text
  pub start_date : Option Text
  pub end_date : Option Text
  pub limit : Option Text
  pub offset : Option Text
  pub cursor : Option Text

pub record OffsetInfo : Type 0 where
  pub limit : ℕ
  pub offset : ℕ
  pub total : ℕ
  pub has_next_page : Bool
  pub has_prev_page : Bool

pub data Reply : Type 0 where
  bad_request : String → Reply
  cursor_page : List Row → ℕ → Option Text → Bool → Reply
  offset_page : List Row → OffsetInfo → Reply

-- An empty text sets no filter.
abbrev pub set_text : Option Text → Option Text
set_text none = none
set_text (some text) = if length text == 0 then none else some text

abbrev pub is_valid_type : Option String → Bool
is_valid_type none = true
is_valid_type (some type) = type == "distribute" || type == "initialize"

abbrev pub filters_of : Query → Filters
filters_of q = record {
  type = q.type;
  recipient = set_text q.recipient;
  start_date = set_text q.start_date;
  end_date = set_text q.end_date;
}

abbrev pub offset_reply : Store → String → Filters → Checked Pagination → Reply
offset_reply s contract f (refused message) = bad_request message
offset_reply s contract f (valid p) =
    let total = get_transaction_count s contract f in
    offset_page (get_transaction_history s contract p.limit p.offset f) (record {
      limit = p.limit;
      offset = p.offset;
      total = total;
      has_next_page = ltb (p.offset + p.limit) total;
      has_prev_page = ltb 0 p.offset;
    })

module _ (is_date : Text → Bool) (decode : Text → Option Decoded) (encode : Cursor → Text) where
  abbrev pub is_valid_date : Option Text → Bool
  is_valid_date none = true
  is_valid_date (some text) = is_date text

  abbrev pub encoded : Option Cursor → Option Text
  encoded none = none
  encoded (some c) = some (encode c)

  abbrev pub cursor_reply : Store → String → Filters → Checked CursorPagination → Reply
  cursor_reply s contract f (refused message) = bad_request message
  cursor_reply s contract f (valid p) =
      let shown = get_transaction_history_cursor s contract p.limit p.cursor f in
      cursor_page shown.rows p.limit (encoded shown.next_cursor) (is_some shown.next_cursor)

  abbrev pub listed : Store → String → Query → Option Text → Reply
  listed s contract q none =
      offset_reply s contract (filters_of q) (parse_pagination q.limit q.offset 50 100)
  listed s contract q (some cursor) =
      cursor_reply s contract (filters_of q) (parse_cursor_pagination decode q.limit cursor 50 100)

  -- `GET /history/:contractId`
  unfoldable pub get_history : String → Query → Store → Reply
  get_history contract q s =
      if is_contract_id (codes contract)
      then (if is_valid_type q.type
          then (if is_valid_date q.start_date
              then (if is_valid_date q.end_date
                  then listed s contract q (set_text q.cursor)
                  else bad_request "Invalid endDate. Use ISO 8601 or YYYY-MM-DD format.")
              else bad_request "Invalid startDate. Use ISO 8601 or YYYY-MM-DD format.")
          else bad_request "type must be one of: distribute, initialize")
      else bad_request "Invalid contract ID format"

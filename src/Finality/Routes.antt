-- ===== src/Finality/Routes.antt =====
-- backend/src/routes/transaction-finality.js. A handler answers a status with a body; the body of a
-- success is the row, with whether it is tracked. A thrown error is answered by 500. Path parameters
-- of more than fifteen digits, which a double may not hold, are refused here.
use stellar_royalty_splitter.Prelude.{
  ℕ, ◌+◌, ◌*◌, ◌-◌, ◌≡◌, refl, String, Bool, true, false, not, ◌&&◌, Option, none, some, List, [],
  ◌∷◌, leb, length, all, ◌==◌, nat_eq, if◌then◌else◌, ap, ◌∙◌,
}
use stellar_royalty_splitter.Prelude.Text.{codes, is_digit, is_hex_char}
use stellar_royalty_splitter.Prelude.Map.{get}
use stellar_royalty_splitter.Finality.Backoff.{Config}
use stellar_royalty_splitter.Finality.Store.{
  Status, pending, confirmed, failed, timeout, FinalityRecord, create_finality_record,
  get_finality_by_transaction_id,
}
use stellar_royalty_splitter.Finality.Tracker.{
  World, Started, started, already_active, constraint_failed, is_tracking, start_tracking,
  cancel_tracking, update_tx_hash,
}

abbrev starts_with_zero : List ℕ → Bool
starts_with_zero [] = true
starts_with_zero (c ∷ cs) = c == b'0'

unfoldable pub number : ℕ → List ℕ → ℕ
number n [] = n
number n (c ∷ cs) = number (10 * n + (c - b'0')) cs

-- `parseTransactionId`: a positive integer, written as `String` writes it.
unfoldable pub parse_transaction_id : String → Option ℕ
unfolding number
parse_transaction_id raw =
    let cs = codes raw in
    if all is_digit cs && (not (starts_with_zero cs) && leb (length cs) 15)
    then some (number 0 cs)
    else none

-- `req.body.txHash`
pub data HashField : Type 0 where
  absent : HashField
  no_string : HashField
  text : String → HashField

pub data Reply : Type 0 where
  record_view : FinalityRecord → Bool → Reply
  unknown_view : ℕ → Reply
  cancelled_view : Bool → ℕ → Reply
  error : ℕ → String → Reply

unfoldable pub format_finality_record : Option FinalityRecord → ℕ → World → Reply
format_finality_record none transaction_id w = unknown_view transaction_id
format_finality_record (some r) transaction_id w = record_view r (is_tracking r.transaction_id w)

unfoldable pub is_tx_hash : HashField → Bool
is_tx_hash absent = true
is_tx_hash no_string = false
is_tx_hash (text h) = all is_hex_char (codes h) && (length (codes h) == 64)

abbrev pub hash_of : HashField → Option String
hash_of absent = none
hash_of no_string = none
hash_of (text h) = some h

abbrev attach_hash : ℕ → Option String → Option String → World → World
attach_hash transaction_id (some given) none w = update_tx_hash transaction_id given w
attach_hash transaction_id given stored w = w

abbrev pub or_hash : Option String → Option String → Option String
or_hash (some h) other = some h
or_hash none other = other

abbrev internal : Reply
internal = error 500 "internal_error"

-- What is answered behind `startTracking`, which may have thrown.
abbrev after_start : ℕ → Option FinalityRecord → Started × World → Reply × World
after_start transaction_id r (constraint_failed, w) = (internal, w)
after_start transaction_id r (already_active, w) = (format_finality_record r transaction_id w, w)
after_start transaction_id r (started id, w) = (format_finality_record r transaction_id w, w)

-- A new row is read again behind `startTracking`.
abbrev after_first_start : ℕ → Started × World → Reply × World
after_first_start transaction_id (s, w) =
    after_start transaction_id (get_finality_by_transaction_id transaction_id w.rows) (s, w)

abbrev must_restart : ℕ → FinalityRecord → World → Bool
must_restart transaction_id r w =
    (elim r.status [ pending ↦ true | confirmed ↦ false | failed ↦ false | timeout ↦ false ])
    && not (is_tracking transaction_id w)

-- The rest of the handler, with the row as it is read behind the update of the hash.
abbrev rejoin : Config → ℕ → ℕ → HashField → Option FinalityRecord → World → Reply × World
rejoin cfg draw transaction_id field none w = (internal, w)
rejoin cfg draw transaction_id field (some r) w =
    if must_restart transaction_id r w
    then after_start transaction_id (some r)
        (start_tracking cfg draw transaction_id (or_hash r.tx_hash (hash_of field)) w)
    else (format_finality_record (some r) transaction_id w, w)

-- `POST /:id/finality`; `exists` tells whether the transaction is in its table.
unfoldable pub post_finality : Config → (ℕ → Bool) → ℕ → String → HashField → World → Reply × World
post_finality cfg exists draw raw field w = elim (parse_transaction_id raw) [
  | none ↦ (error 400 "invalid_param", w)
  | some transaction_id ↦
      if not (exists transaction_id)
      then (error 404 "not_found", w)
      else (if not (is_tx_hash field)
          then (error 400 "invalid_param", w)
          else elim (get_finality_by_transaction_id transaction_id w.rows) [
            | none ↦
                after_first_start transaction_id
                  (start_tracking cfg draw transaction_id (hash_of field) w)
            | some r ↦
                let w' = attach_hash transaction_id (hash_of field) r.tx_hash w in
                rejoin cfg draw transaction_id field
                  (get_finality_by_transaction_id transaction_id w'.rows) w'
          ])
]

unfoldable pub get_finality : (ℕ → Bool) → String → World → Reply
get_finality exists raw w = elim (parse_transaction_id raw) [
  | none ↦ error 400 "invalid_param"
  | some transaction_id ↦
      if not (exists transaction_id)
      then error 404 "not_found"
      else elim (get_finality_by_transaction_id transaction_id w.rows) [
        | none ↦ error 404 "not_found"
        | some r ↦ format_finality_record (some r) transaction_id w
      ]
]

unfoldable pub delete_finality : String → World → Reply × World
delete_finality raw w = elim (parse_transaction_id raw) [
  | none ↦ (error 400 "invalid_param", w)
  | some transaction_id ↦
      let (cancelled, w') = cancel_tracking transaction_id w in
      (cancelled_view cancelled transaction_id, w')
]

start_tracking_fails :
    (cfg : Config) (draw id : ℕ) (tx_hash : Option String) (r : FinalityRecord) (w : World)
    → get id w.rows ≡ some r
    → is_tracking id w ≡ false
    → start_tracking cfg draw id tx_hash w ≡ (constraint_failed, w)
unfolding start_tracking create_finality_record
start_tracking_fails cfg draw id tx_hash r w row untracked = rw (untracked, start_tracking, row)

must_restart_pending :
    (id : ℕ) (s : Status) (r : FinalityRecord) (w : World)
    → r.status ≡ s
    → s ≡ pending
    → is_tracking id w ≡ false
    → must_restart id r w ≡ true
must_restart_pending id s r w is waits untracked = rw (is ∙ waits, untracked)

rejoin_fails :
    (cfg : Config) (draw id : ℕ) (r : FinalityRecord) (w : World)
    → get id w.rows ≡ some r
    → must_restart id r w ≡ true
    → is_tracking id w ≡ false
    → rejoin cfg draw id absent (some r) w ≡ (internal, w)
rejoin_fails cfg draw id r w row must untracked =
    rw (must, start_tracking_fails cfg draw id (or_hash r.tx_hash none) r w row untracked)

-- A POST for a pending row that is not tracked, as after a cancel or a restart of the server, is
-- answered by 500 and changes nothing if no hash is given: the insert of a second row fails.
pub post_finality_restart_fails :
    (cfg : Config) (exists : ℕ → Bool) (draw : ℕ) (raw : String) (id : ℕ) (r : FinalityRecord)
    (w : World)
    → parse_transaction_id raw ≡ some id
    → exists id ≡ true
    → get id w.rows ≡ some r
    → r.status ≡ pending
    → is_tracking id w ≡ false
    → post_finality cfg exists draw raw absent w ≡ (error 500 "internal_error", w)
unfolding post_finality start_tracking create_finality_record is_tx_hash
post_finality_restart_fails cfg exists draw raw id r w parsed there row waits untracked =
    let must = must_restart_pending id r.status r w refl waits untracked in
    rw (parsed, post_finality, there, row)
      (ap (λ o. rejoin cfg draw id absent o w) row
        ∙ rejoin_fails cfg draw id r w row must untracked)

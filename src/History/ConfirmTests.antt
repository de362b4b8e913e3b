-- ===== src/History/ConfirmTests.antt =====
-- The confirmation of a distribution that is linked to its hash.
use stellar_royalty_splitter.Prelude.{◌≡◌, refl, String, true, none, some, [], ◌∷◌, string_eq}
use stellar_royalty_splitter.Prelude.Text.{
  codes, is_hex_char, parse_decimal, unsigned_decimal, digits_of, trim_start, is_space,
}
use stellar_royalty_splitter.History.Store.{
  Transaction, Store, get_transaction_by_id, update_transaction_hash,
}
use stellar_royalty_splitter.History.Confirm.{
  ConfirmBody, polled, answered, polls, already, not_found, invalid_hash, invalid_transaction_id,
  linked_to_other, is_transaction_hash, delivered_row, get_transaction_details, begin_confirm,
  finish_confirm,
}
use stellar_royalty_splitter.History.Confirmed.{settled, confirm_settles, confirm_races}

abbrev hash : String
hash = "0123456789abcdefABCDEF0123456789abcdefABCDEF0123456789abcdefABCD"

abbrev pending : Transaction
pending = record {
  id = 1;
  tx_hash = some hash;
  contract_id = "C";
  type = "distribute";
  initiator_address = "G";
  requested_amount = some "100";
  token_id = none;
  timestamp = codes "2025-01-03 00:00:00";
  block_time = none;
  status = "pending";
  error_message = none;
  retry_count = 0;
  last_retry_time = none;
}

abbrev store : Store
store = record { transactions = pending ∷ []; payouts = []; next_id = 2; writes = 1 }

abbrev unlinked : Store
unlinked = record store { transactions = record pending { tx_hash = none } ∷ [] }

abbrev elsewhere : Store
elsewhere = record store { transactions = record pending { tx_hash = some "ff" } ∷ [] }

abbrev plain : ConfirmBody
plain = record { transaction_id = none; block_time = none; error_message = none }

abbrev with_id : ConfirmBody
with_id = record plain { transaction_id = some (codes "1") }

confirm_tests :
    ((begin_confirm [] "ff" plain store).0 ≡ answered invalid_hash)
    × ((begin_confirm [] hash plain unlinked).0 ≡ answered not_found)
    × (begin_confirm [] hash with_id unlinked ≡ (polls, record store { writes = 2 }))
    × ((begin_confirm [] hash with_id elsewhere).0 ≡ answered linked_to_other)
    × ((begin_confirm [] hash (record plain { transaction_id = some (codes "-1") }) unlinked).0
        ≡ answered invalid_transaction_id)
unfolding begin_confirm get_transaction_details get_transaction_by_id update_transaction_hash
    is_hex_char parse_decimal unsigned_decimal digits_of trim_start is_space
confirm_tests = (refl, refl, refl, refl, refl)

hash-valid : is_transaction_hash (codes hash) ≡ true
unfolding is_hex_char
hash-valid = refl

confirm_settles_example :
    let (reply, sent, after) = finish_confirm [] hash plain (polled true (some "2025")) store in
    (begin_confirm [] hash plain store ≡ (polls, store))
    × (get_transaction_details [] hash after ≡ some (settled plain true (some "2025") pending))
    × (sent ≡ delivered_row true (some (settled plain true (some "2025") pending)))
    × (begin_confirm [] hash with_id after ≡ (answered (already "confirmed"), after))
confirm_settles_example =
    confirm_settles [] hash store pending plain (some "2025") true with_id hash-valid refl refl refl

confirm_races_example :
    let (reply, sent, between) = finish_confirm [] hash plain (polled true (some "2025")) store in
    let (reply', sent', after) = finish_confirm [] hash with_id (polled true none) between in
    (begin_confirm [] hash plain store ≡ (polls, store))
    × (begin_confirm [] hash with_id store ≡ (polls, store))
    × (sent ≡ some (settled plain true (some "2025") pending))
    × (sent' ≡ some (settled with_id true none pending))
    × (get_transaction_details [] hash after ≡ some (settled with_id true none pending))
confirm_races_example =
    confirm_races [] hash store pending plain (some "2025") with_id none hash-valid refl refl refl
      refl

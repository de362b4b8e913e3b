-- ===== src/History/Confirmed.antt =====
-- Confirmations of a transaction, one behind the other and at the same time.
use stellar_royalty_splitter.Prelude.{
  ◌≡◌, refl, ap, ◌∙◌, String, Bool, true, false, Option, some, List, ◌==◌, string_eq, if◌then◌else◌,
  find_first, is_some,
}
use stellar_royalty_splitter.Prelude.Rows.{find_first-update_where}
use stellar_royalty_splitter.Prelude.Text.{codes}
use stellar_royalty_splitter.History.Store.{Transaction, Store, has_hash, update_transaction_status}
use stellar_royalty_splitter.History.Confirm.{
  ConfirmBody, polled, already, answered, polls, is_transaction_hash, poll_status,
  get_transaction_details, delivered_row, begin_confirm, finish_confirm,
}

abbrev pub settled : ConfirmBody → Bool → Option String → Transaction → Transaction
settled body successful created_at t = record t {
  status = poll_status successful;
  block_time = if is_some body.block_time then body.block_time else created_at;
  error_message = body.error_message;
}

module _ (archive : List Transaction) (tx_hash : String) where
  finish_confirm_row :
      (body : ConfirmBody) (successful : Bool) (created_at : Option String) (s : Store)
      (t : Transaction)
      → find_first (has_hash tx_hash) s.transactions ≡ some t
      → has_hash tx_hash t ≡ true
      → find_first
          (has_hash tx_hash)
          (finish_confirm archive tx_hash body (polled successful created_at) s).2.transactions
        ≡ some (settled body successful created_at t)
  unfolding finish_confirm update_transaction_status
  finish_confirm_row body successful created_at s t found has =
      find_first-update_where (has_hash tx_hash) (has_hash tx_hash)
        (settled body successful created_at) s.transactions t (λ y. refl) found has

  sent_row :
      (body : ConfirmBody) (successful : Bool) (created_at : Option String) (s : Store)
      (t : Transaction)
      → find_first (has_hash tx_hash) s.transactions ≡ some t
      → has_hash tx_hash t ≡ true
      → (finish_confirm archive tx_hash body (polled successful created_at) s).1
        ≡ delivered_row successful (some (settled body successful created_at t))
  unfolding finish_confirm get_transaction_details
  sent_row body successful created_at s t found has =
      rw (finish_confirm_row body successful created_at s t found has) refl

  begin_confirm_found :
      (body : ConfirmBody) (s : Store) (t : Transaction)
      → is_transaction_hash (codes tx_hash) ≡ true
      → find_first (has_hash tx_hash) s.transactions ≡ some t
      → begin_confirm archive tx_hash body s
        ≡ ((if t.status == "pending" then polls else answered (already t.status)), s)
  unfolding begin_confirm get_transaction_details
  begin_confirm_found body s t valid found = rw (valid, found) refl

  settled_conflicts :
      (successful : Bool)
      → (if poll_status successful == "pending"
          then polls
          else answered (already (poll_status successful)))
        ≡ answered (already (poll_status successful))
  settled_conflicts true = refl
  settled_conflicts false = refl

  module _ (s : Store) (t : Transaction) (body : ConfirmBody) (created_at : Option String) where
    -- A pending transaction is settled by one confirmation, with the status that the poll answers, and
    -- every later confirmation is refused and changes nothing. Webhooks get the settled row, for a
    -- distribution that was successful. The hash has 64 hexadecimal digits and stands in the table.
    pub confirm_settles :
        (successful : Bool) (again : ConfirmBody)
        → is_transaction_hash (codes tx_hash) ≡ true
        → find_first (has_hash tx_hash) s.transactions ≡ some t
        → has_hash tx_hash t ≡ true
        → (t.status == "pending") ≡ true
        → let (reply, sent, after) =
            finish_confirm archive tx_hash body (polled successful created_at) s in
          let row = settled body successful created_at t in
          (begin_confirm archive tx_hash body s ≡ (polls, s))
          × (get_transaction_details archive tx_hash after ≡ some row)
          × (sent ≡ delivered_row successful (some row))
          × (begin_confirm archive tx_hash again after
              ≡ (answered (already (poll_status successful)), after))
    unfolding get_transaction_details
    confirm_settles successful again valid found has pending =
        let after = (finish_confirm archive tx_hash body (polled successful created_at) s).2 in
        let row = settled body successful created_at t in
        let stored = finish_confirm_row body successful created_at s t found has in
        (
          begin_confirm_found body s t valid found ∙ rw pending refl,
          rw stored refl,
          sent_row body successful created_at s t found has,
          begin_confirm_found again after row valid stored
              ∙ ap (λ b. (b, after)) (settled_conflicts successful),
        )

    -- Two confirmations of a distribution that both begin before one of them is polled: each of them
    -- delivers the webhooks if its poll is successful, and the second one overwrites the block time
    -- and the error message of the first.
    pub confirm_races :
        (other : ConfirmBody) (other_created_at : Option String)
        → is_transaction_hash (codes tx_hash) ≡ true
        → find_first (has_hash tx_hash) s.transactions ≡ some t
        → has_hash tx_hash t ≡ true
        → (t.status == "pending") ≡ true
        → (t.type == "distribute") ≡ true
        → let (reply, sent, between) =
            finish_confirm archive tx_hash body (polled true created_at) s in
          let (reply', sent', after) =
            finish_confirm archive tx_hash other (polled true other_created_at) between in
          (begin_confirm archive tx_hash body s ≡ (polls, s))
          × (begin_confirm archive tx_hash other s ≡ (polls, s))
          × (sent ≡ some (settled body true created_at t))
          × (sent' ≡ some (settled other true other_created_at t))
          × (get_transaction_details archive tx_hash after
              ≡ some (settled other true other_created_at t))
    unfolding get_transaction_details
    confirm_races other other_created_at valid found has pending distribute =
        let between = (finish_confirm archive tx_hash body (polled true created_at) s).2 in
        let row = settled body true created_at t in
        let first = finish_confirm_row body true created_at s t found has in
        let second = finish_confirm_row other true other_created_at between row first has in
        (
          begin_confirm_found body s t valid found ∙ rw pending refl,
          begin_confirm_found other s t valid found ∙ rw pending refl,
          sent_row body true created_at s t found has ∙ rw distribute refl,
          sent_row other true other_created_at between row first has ∙ rw distribute refl,
          rw second refl,
        )

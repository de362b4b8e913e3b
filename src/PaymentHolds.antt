-- ===== src/PaymentHolds.antt =====
-- Holds on the payment of a transaction: backend/src/database/payment-holds.js. A transaction is given
-- by its id, its contract and the columns of migration 10; no migration creates the table of the
-- audit trail, whose columns are those of the statements. The details are left out of the trail.
pub mod Routes
pub mod Released
mod Tests
use stellar_royalty_splitter.Prelude.{
  ℕ, ◌+◌, String, Bool, true, false, not, ◌&&◌, Option, none, some, List, [], ◌∷◌, ◌++◌, ◌==◌,
  string_eq, nat_eq, if◌then◌else◌, keep, find_first, update_where, or_else, is_some,
}
use stellar_royalty_splitter.Prelude.Text.{Text, codes}
use stellar_royalty_splitter.Prelude.TextOrder.{text_less}
use stellar_royalty_splitter.Prelude.Sorting.{sort}

pub record HeldTransaction : Type 0 where
  pub id : ℕ
  pub contract_id : String
  pub hold_reason : Option String
  pub hold_until : Option Text
  pub hold_placed_at : Option Text
  pub hold_placed_by : Option String
  pub hold_status : Option String
  pub hold_released_at : Option Text
  pub hold_released_by : Option String
  pub hold_approved_at : Option Text
  pub hold_approved_by : Option String
  pub hold_approval_note : Option String

pub record HoldAudit : Type 0 where
  pub transaction_id : ℕ
  pub action : String
  pub reason : String
  pub performed_by : String
  pub created_at : Text

pub record Holds : Type 0 where
  pub transactions : List HeldTransaction
  pub trail : List HoldAudit
  pub writes : ℕ

abbrev pub has_transaction_id : ℕ → HeldTransaction → Bool
has_transaction_id id t = t.id == id

abbrev pub has_status : String → HeldTransaction → Bool
has_status status t = is_some t.hold_status && or_else t.hold_status "" == status

abbrev pub is_active_hold : ℕ → HeldTransaction → Bool
is_active_hold id t = has_transaction_id id t && has_status "active" t

-- `getTransactionWithHold`
unfoldable pub get_transaction_with_hold : ℕ → Holds → Option HeldTransaction
get_transaction_with_hold id s = find_first (has_transaction_id id) s.transactions

-- An update of the transaction and an entry of the trail, with what is read back.
abbrev pub change_hold :
    ℕ → (HeldTransaction → HeldTransaction) → HoldAudit → Holds → Option HeldTransaction × Holds
change_hold id f entry s =
    let after : Holds = record {
      transactions = update_where (has_transaction_id id) f s.transactions;
      trail = s.trail ++ (entry ∷ []);
      writes = s.writes + 2;
    } in
    (get_transaction_with_hold id after, after)

abbrev pub if_found :
    Option HeldTransaction → Option HeldTransaction × Holds → Holds → Option HeldTransaction × Holds
if_found none changed s = (none, s)
if_found (some existing) changed s = changed

abbrev pub placed : String → Option Text → String → Text → HeldTransaction → HeldTransaction
placed reason until by now t = record t {
  hold_reason = some reason;
  hold_until = until;
  hold_placed_at = some now;
  hold_placed_by = some by;
  hold_status = some "active";
}

-- `placeHold`
unfoldable pub place_hold :
    ℕ → String → Option Text → String → Text → Holds → Option HeldTransaction × Holds
unfolding get_transaction_with_hold
place_hold id reason until by now s =
    let entry : HoldAudit = record {
      transaction_id = id;
      action = "placed";
      reason = reason;
      performed_by = by;
      created_at = now;
    } in
    if_found (find_first (has_transaction_id id) s.transactions)
      (change_hold id (placed reason until by now) entry s) s

abbrev pub released : String → Text → HeldTransaction → HeldTransaction
released by now t = record t {
  hold_status = some "released";
  hold_released_at = some now;
  hold_released_by = some by;
}

-- `releaseHold`
unfoldable pub release_hold :
    ℕ → String → Option String → Text → Holds → Option HeldTransaction × Holds
unfolding get_transaction_with_hold
release_hold id by remark now s =
    let entry : HoldAudit = record {
      transaction_id = id;
      action = "released";
      reason = or_else remark "Released";
      performed_by = by;
      created_at = now;
    } in
    if_found (find_first (is_active_hold id) s.transactions)
      (change_hold id (released by now) entry s) s

abbrev pub approved : String → Option String → Text → HeldTransaction → HeldTransaction
approved by remark now t = record t {
  hold_approved_by = some by;
  hold_approved_at = some now;
  hold_approval_note = remark;
}

-- `approveHoldRelease`
unfoldable pub approve_hold_release :
    ℕ → String → Option String → Text → Holds → Option HeldTransaction × Holds
unfolding get_transaction_with_hold
approve_hold_release id by remark now s =
    let entry : HoldAudit = record {
      transaction_id = id;
      action = "approved";
      reason = "Approved for release";
      performed_by = by;
      created_at = now;
    } in
    if_found (find_first (is_active_hold id) s.transactions)
      (change_hold id (approved by remark now) entry s) s

abbrev placed_later : HeldTransaction → HeldTransaction → Bool
placed_later a b = text_less (or_else b.hold_placed_at []) (or_else a.hold_placed_at [])

-- `getHeldTransactions`
unfoldable pub get_held_transactions : String → String → Holds → List HeldTransaction
get_held_transactions contract status s =
    sort placed_later (keep (λ t. t.contract_id == contract && has_status status t) s.transactions)

-- `getAllHeldTransactions`
unfoldable pub get_all_held_transactions : String → Holds → List HeldTransaction
get_all_held_transactions status s = sort placed_later (keep (has_status status) s.transactions)

-- `getHoldAuditTrail`
unfoldable pub get_hold_audit_trail : ℕ → Holds → List HoldAudit
get_hold_audit_trail id s =
    sort (λ (a b : HoldAudit). text_less a.created_at b.created_at)
      (keep (λ e. e.transaction_id == id) s.trail)

-- `getTransactionsPendingHoldRelease`
unfoldable pub get_transactions_pending_hold_release : Holds → List HeldTransaction
get_transactions_pending_hold_release s =
    sort
      (λ (a b : HeldTransaction).
        text_less (or_else a.hold_approved_at []) (or_else b.hold_approved_at []))
      (keep (λ t. has_status "active" t && is_some t.hold_approved_by) s.transactions)

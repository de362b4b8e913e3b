-- ===== src/PaymentHolds/Tests.antt =====
-- A hold that is placed, approved and released.
use stellar_royalty_splitter.Prelude.{◌≡◌, refl, none, some, [], ◌∷◌, find_first}
use stellar_royalty_splitter.Prelude.Text.{codes}
use stellar_royalty_splitter.Audit.{add_audit_log}
use stellar_royalty_splitter.PaymentHolds.{
  HeldTransaction, is_active_hold, place_hold, approve_hold_release, release_hold,
  get_transaction_with_hold, get_transactions_pending_hold_release,
}
use stellar_royalty_splitter.PaymentHolds.Routes.{
  HoldWorld, missing_field, no_hold, failed, post_place, post_release, post_approve_release,
}
use stellar_royalty_splitter.PaymentHolds.Released.{released_entry, post_release_once}
use stellar_royalty_splitter.Prelude.Sorting.{sort, insert}

abbrev payment : HeldTransaction
payment = record {
  id = 1;
  contract_id = "C";
  hold_reason = none;
  hold_until = none;
  hold_placed_at = none;
  hold_placed_by = none;
  hold_status = none;
  hold_released_at = none;
  hold_released_by = none;
  hold_approved_at = none;
  hold_approved_by = none;
  hold_approval_note = none;
}

abbrev held_payment : HeldTransaction
held_payment = record payment { hold_reason = some "review"; hold_status = some "active" }

abbrev world_of : HeldTransaction → HoldWorld
world_of t = record {
  holds = record { transactions = t ∷ []; trail = []; writes = 0 };
  log = record { entries = []; next_id = 1; writes = 0 };
}

hold_tests :
    ((post_place 1 "review" none none (codes "2025") (world_of payment)).0 ≡ failed)
    × ((post_place 1 "" none none (codes "2025") (world_of payment)).0 ≡ missing_field)
    × ((post_place 2 "review" none none (codes "2025") (world_of payment)).0 ≡ no_hold)
    × ((post_release 1 none none (codes "2025") (world_of payment)).0 ≡ no_hold)
    × (get_transactions_pending_hold_release
          (approve_hold_release 1 "admin" none (codes "2025") (world_of held_payment).holds).1
        ≡ record held_payment {
          hold_approved_by = some "admin";
          hold_approved_at = some (codes "2025");
        }
          ∷ [])
unfolding post_place post_release place_hold approve_hold_release release_hold
    get_transaction_with_hold get_transactions_pending_hold_release add_audit_log sort insert
hold_tests = (refl, refl, refl, refl, refl)

post_release_once_example :
    let (reply, after) = post_release 1 none none (codes "2025") (world_of held_payment) in
    (reply ≡ failed)
    × (after.log ≡ (world_of held_payment).log)
    × (find_first (is_active_hold 1) after.holds.transactions ≡ none)
    × (after.holds.trail ≡ released_entry 1 "admin" none (codes "2025") ∷ [])
    × (post_release 1 (some "G") none (codes "2026") after ≡ (no_hold, after))
    × (post_approve_release 1 (some "G") none (codes "2026") after ≡ (no_hold, after))
post_release_once_example =
    post_release_once 1 none none (some "G") none (codes "2025") (codes "2026")
      (world_of held_payment) held_payment refl refl

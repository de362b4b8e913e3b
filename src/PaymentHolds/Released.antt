-- ===== src/PaymentHolds/Released.antt =====
-- What `POST /release` of backend/src/routes/payment-holds.js does to a hold.
use stellar_royalty_splitter.Prelude.{
  ℕ, ◌≡◌, refl, String, false, Option, none, some, List, [], ◌∷◌, ◌++◌, ◌==◌, nat_eq, string_eq,
  find_first, update_where, or_else, Bool-cases, inl, inr,
}
use stellar_royalty_splitter.Prelude.Text.{Text}
use stellar_royalty_splitter.Audit.{add_audit_log}
use stellar_royalty_splitter.PaymentHolds.{
  HeldTransaction, HoldAudit, Holds, has_transaction_id, is_active_hold, change_hold, released,
  release_hold, approve_hold_release, get_transaction_with_hold,
}
use stellar_royalty_splitter.PaymentHolds.Routes.{
  HoldWorld, no_hold, failed, post_release, post_approve_release,
}

released_inactive :
    (id : ℕ) (by : String) (now : Text) (t : HeldTransaction)
    → is_active_hold id (released by now t) ≡ false
released_inactive id by now t = elim (Bool-cases (t.id == id)) [
  | inl h ↦ rw h refl
  | inr h ↦ rw h refl
]

-- No hold of the transaction is active any more.
released_all :
    (id : ℕ) (by : String) (now : Text) (rows : List HeldTransaction)
    → find_first (is_active_hold id) (update_where (has_transaction_id id) (released by now) rows)
      ≡ none
released_all id by now [] = refl
released_all id by now (t ∷ rows) = elim (Bool-cases (t.id == id)) [
  | inl h ↦ rw (h, released_inactive id by now t) (released_all id by now rows)
  | inr h ↦ rw (h, h) (released_all id by now rows)
]

released_row :
    (id : ℕ) (by : String) (now : Text) (rows : List HeldTransaction) (t : HeldTransaction)
    → find_first (is_active_hold id) rows ≡ some t
    → (r : HeldTransaction) × (find_first
          (has_transaction_id id)
          (update_where (has_transaction_id id) (released by now) rows)
        ≡ some r)
released_row id by now [] t h = cc
released_row id by now (x ∷ rows) t h = elim (Bool-cases (x.id == id)) [
  | inl is ↦ rw (is, is) (_, refl)
  | inr other ↦ rw (other, other) (released_row id by now rows t (rw other at h))
]

abbrev pub released_entry : ℕ → String → Option String → Text → HoldAudit
released_entry id by remark now = record {
  transaction_id = id;
  action = "released";
  reason = or_else remark "Released";
  performed_by = by;
  created_at = now;
}

abbrev released_holds : ℕ → String → Option String → Text → Holds → Holds
released_holds id by remark now s =
    (change_hold id (released by now) (released_entry id by remark now) s).1

post_release_active :
    (id : ℕ) (by remark : Option String) (now : Text) (w : HoldWorld) (t : HeldTransaction)
    → (id == 0) ≡ false
    → find_first (is_active_hold id) w.holds.transactions ≡ some t
    → post_release id by remark now w
      ≡ (failed, record w { holds = released_holds id (or_else by "admin") remark now w.holds })
unfolding post_release release_hold get_transaction_with_hold add_audit_log
post_release_active id by remark now w t named active =
    let (r, found) = released_row id (or_else by "admin") now w.holds.transactions t active in
    rw (named, active, found) refl

post_release_inactive :
    (id : ℕ) (by remark : Option String) (now : Text) (w : HoldWorld)
    → (id == 0) ≡ false
    → find_first (is_active_hold id) w.holds.transactions ≡ none
    → post_release id by remark now w ≡ (no_hold, w)
unfolding post_release release_hold get_transaction_with_hold add_audit_log
post_release_inactive id by remark now w named inactive = rw (named, inactive) refl

post_approve_release_inactive :
    (id : ℕ) (by remark : Option String) (now : Text) (w : HoldWorld)
    → (id == 0) ≡ false
    → find_first (is_active_hold id) w.holds.transactions ≡ none
    → post_approve_release id by remark now w ≡ (no_hold, w)
unfolding post_approve_release approve_hold_release get_transaction_with_hold add_audit_log
post_approve_release_inactive id by remark now w named inactive = rw (named, inactive) refl

-- The release of an active hold, whether it was approved or not, ends the hold and adds one entry to
-- the trail, and is answered by an error all the same, as the log refuses its action. A
-- request to release it, or to approve its release, that comes next, answers that there is no hold and
-- changes nothing. The id is not 0.
pub post_release_once :
    (id : ℕ) (by remark by' remark' : Option String) (now later : Text) (w : HoldWorld)
    (t : HeldTransaction)
    → (id == 0) ≡ false
    → find_first (is_active_hold id) w.holds.transactions ≡ some t
    → let (reply, after) = post_release id by remark now w in
      (reply ≡ failed)
      × (after.log ≡ w.log)
      × (find_first (is_active_hold id) after.holds.transactions ≡ none)
      × (after.holds.trail
          ≡ w.holds.trail ++ (released_entry id (or_else by "admin") remark now ∷ []))
      × (post_release id by' remark' later after ≡ (no_hold, after))
      × (post_approve_release id by' remark' later after ≡ (no_hold, after))
post_release_once id by remark by' remark' now later w t named active =
    let user = or_else by "admin" in
    let whole = post_release_active id by remark now w t named active in
    let ended = released_all id user now w.holds.transactions in
    rw whole (
      refl,
      refl,
      ended,
      refl,
      post_release_inactive id by' remark' later
          (record w { holds = released_holds id user remark now w.holds }) named ended,
      post_approve_release_inactive id by' remark' later
          (record w { holds = released_holds id user remark now w.holds }) named ended,
    )

-- ===== src/PaymentHolds/Routes.antt =====
-- The handlers of backend/src/routes/payment-holds.js that change a hold, behind the check of the role.
-- The details of an entry of the audit log are left out.
use stellar_royalty_splitter.Prelude.{
  ℕ, String, Option, none, some, ◌==◌, nat_eq, string_eq, if◌then◌else◌, or_else,
}
use stellar_royalty_splitter.Prelude.Text.{Text}
use stellar_royalty_splitter.Audit.{text, Log, add_audit_log}
use stellar_royalty_splitter.PaymentHolds.{
  HeldTransaction, Holds, place_hold, release_hold, approve_hold_release,
}

pub record HoldWorld : Type 0 where
  pub holds : Holds
  pub log : Log

pub data HoldReply : Type 0 where
  missing_field no_hold failed : HoldReply
  held : HeldTransaction → HoldReply

abbrev logged_hold : HeldTransaction → Option Log → HoldWorld → HoldReply × HoldWorld
logged_hold t none w = (failed, w)
logged_hold t (some log) w = (held t, record w { log = log })

abbrev pub hold_answer :
    String → String → Text → Option HeldTransaction × Holds → HoldWorld → HoldReply × HoldWorld
hold_answer action by now (none, s) w = (no_hold, record w { holds = s })
hold_answer action by now (some t, s) w =
    logged_hold t (add_audit_log t.contract_id action (some by) (text "") now w.log)
      (record w { holds = s })

-- `POST /place`; the id 0 is no id.
unfoldable pub post_place :
    ℕ → String → Option Text → Option String → Text → HoldWorld → HoldReply × HoldWorld
unfolding place_hold add_audit_log
post_place id reason until by now w =
    let user = or_else by "admin" in
    let answer =
      hold_answer "payment_hold_placed" user now (place_hold id reason until user now w.holds) w in
    if id == 0 then (missing_field, w) else (if reason == "" then (missing_field, w) else answer)

-- `POST /release`
unfoldable pub post_release :
    ℕ → Option String → Option String → Text → HoldWorld → HoldReply × HoldWorld
unfolding release_hold add_audit_log
post_release id by remark now w =
    let user = or_else by "admin" in
    let answer =
      hold_answer "payment_hold_released" user now (release_hold id user remark now w.holds) w in
    if id == 0 then (missing_field, w) else answer

-- `POST /approve-release`
unfoldable pub post_approve_release :
    ℕ → Option String → Option String → Text → HoldWorld → HoldReply × HoldWorld
unfolding approve_hold_release add_audit_log
post_approve_release id by remark now w =
    let user = or_else by "admin" in
    let answer =
      hold_answer "hold_release_approved" user now (approve_hold_release id user remark now w.holds)
        w in
    if id == 0 then (missing_field, w) else answer

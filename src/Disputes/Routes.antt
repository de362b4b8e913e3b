-- ===== src/Disputes/Routes.antt =====
-- The handlers of backend/src/routes/disputes.js that change a dispute, behind the validation of the
-- body. The e-mails that they send are left out.
use stellar_royalty_splitter.Prelude.{
  ℕ, String, Bool, true, false, Option, none, some, ◌==◌, string_eq, not, if◌then◌else◌,
}
use stellar_royalty_splitter.Disputes.Store.{
  Status, open_ticket, under_review, resolved, closed, contributor, admin, Comment, Store, Ticket,
  get_dispute_by_ticket_id, update_dispute_status, add_dispute_comment,
}

pub data Reply : Type 0 where
  service_unavailable unauthorized dispute_not_found forbidden dispute_closed : Reply
  commented : Comment → Reply
  updated : Option Ticket → Reply

-- `requireAdminToken`, with the configured token and the one of the request; an empty text is none.
unfoldable pub require_admin_token : Option String → Option String → Option Reply
require_admin_token none token = some service_unavailable
require_admin_token (some configured) none = some unauthorized
require_admin_token (some configured) (some token) =
    if token == configured then none else some unauthorized

abbrev pub is_finished : Status → Bool
is_finished open_ticket = false
is_finished under_review = false
is_finished resolved = true
is_finished closed = true

abbrev answer_comment : Comment × Store → Reply × Store
answer_comment (c, s) = (commented c, s)

-- `POST /:ticketId/comments`
unfoldable pub post_comment : String → String → String → ℕ → Store → Reply × Store
post_comment ticket_id wallet message now s = elim (get_dispute_by_ticket_id ticket_id s) [
  | none ↦ (dispute_not_found, s)
  | some t ↦
      if not (t.dispute.wallet_address == wallet)
      then (forbidden, s)
      else (if is_finished t.dispute.status
          then (dispute_closed, s)
          else answer_comment (add_dispute_comment t.dispute.id contributor message now s))
]

-- `POST /admin/:ticketId/comments`, behind the token.
unfoldable pub admin_comment : String → String → ℕ → Store → Reply × Store
admin_comment ticket_id message now s = elim (get_dispute_by_ticket_id ticket_id s) [
  | none ↦ (dispute_not_found, s)
  | some t ↦ answer_comment (add_dispute_comment t.dispute.id admin message now s)
]

abbrev answer_update : Option Ticket × Store → Reply × Store
answer_update (t, s) = (updated t, s)

-- `PATCH /admin/:ticketId/status`, behind the token.
unfoldable pub admin_status : String → Status → Option (Option String) → ℕ → Store → Reply × Store
admin_status ticket_id status note now s = elim (get_dispute_by_ticket_id ticket_id s) [
  | none ↦ (dispute_not_found, s)
  | some t ↦ answer_update (update_dispute_status t.dispute.id status note now s)
]

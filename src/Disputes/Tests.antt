-- ===== src/Disputes/Tests.antt =====
-- A ticket that is opened, commented on, and closed.
use stellar_royalty_splitter.Prelude.{◌≡◌, refl, none, some, [], ◌∷◌, length, nat_eq, string_eq}
use stellar_royalty_splitter.Disputes.Store.{
  closed, Dispute, Store, create_dispute, get_dispute_by_ticket_id, get_dispute_comments,
  update_dispute_status, add_dispute_comment, new_dispute,
}
use stellar_royalty_splitter.Disputes.Routes.{
  unauthorized, service_unavailable, forbidden, dispute_not_found, dispute_closed,
  require_admin_token, post_comment, admin_comment, admin_status,
}
use stellar_royalty_splitter.Disputes.Comments.{Answered, post_comment_lem}

abbrev empty : Store
empty = record { disputes = []; comments = []; next_dispute = 1; next_comment = 1; writes = 0 }

abbrev dispute : Dispute
dispute = new_dispute 1 "DSP-A3F2C019" "GALICE" none "other" "Nothing has arrived." 10

abbrev opened : Store
opened = record empty { disputes = dispute ∷ []; next_dispute = 2; writes = 1 }

abbrev finished : Store
finished = (admin_status "DSP-A3F2C019" closed none 30 opened).1

ticket_tests :
    (create_dispute "DSP-A3F2C019" "GALICE" none "other" "Nothing has arrived." 10 empty
      ≡ some (record { dispute = dispute; comments = [] }, opened))
    × (create_dispute "DSP-A3F2C019" "GBOB" none "other" "Again." 20 opened ≡ none)
    × ((post_comment "DSP-A3F2C019" "GBOB" "Mine?" 20 opened).0 ≡ forbidden)
    × ((post_comment "DSP-0" "GBOB" "Mine?" 20 opened).0 ≡ dispute_not_found)
    × ((post_comment "DSP-A3F2C019" "GALICE" "Still?" 40 finished).0 ≡ dispute_closed)
    × (length (admin_comment "DSP-A3F2C019" "We look." 40 finished).1.comments ≡ 1)
unfolding create_dispute post_comment admin_comment admin_status get_dispute_by_ticket_id
    get_dispute_comments update_dispute_status add_dispute_comment
ticket_tests = (refl, refl, refl, refl, refl, refl)

token_tests :
    (require_admin_token none (some "t") ≡ some service_unavailable)
    × (require_admin_token (some "t") (some "u") ≡ some unauthorized)
    × (require_admin_token (some "t") (some "t") ≡ none)
unfolding require_admin_token
token_tests = (refl, refl, refl)

post_comment_lem_example :
    Answered "DSP-A3F2C019" "GALICE" "Any news?" 20 opened
      (post_comment "DSP-A3F2C019" "GALICE" "Any news?" 20 opened)
post_comment_lem_example = post_comment_lem "DSP-A3F2C019" "GALICE" "Any news?" 20 opened

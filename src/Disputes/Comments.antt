-- ===== src/Disputes/Comments.antt =====
-- Who may comment on a dispute, and what becomes of a comment.
use stellar_royalty_splitter.Prelude.{
  ℕ, ◌≡◌, refl, ap, String, true, false, Option, none, some, List, [], ◌∷◌, ◌++◌, ◌==◌, nat_eq,
  string_eq, keep, find_first, update_where, Bool-cases, Option-cases, inl, inr, arith, ==_self,
  eq_of_==, or_else,
}
use stellar_royalty_splitter.Prelude.Rows.{find_first-update_where, find_first-any_of}
use mathlib.Core.Path.{subst}
use stellar_royalty_splitter.Disputes.Store.{
  Status, Author, contributor, Dispute, Comment, Store, Ticket, is_on, count_write, has_ticket,
  has_id, reviewed, with_comments, get_dispute_comments, get_dispute_by_ticket_id,
  update_dispute_status, add_dispute_comment,
}
use stellar_royalty_splitter.Disputes.Routes.{
  Reply, service_unavailable, unauthorized, dispute_not_found, forbidden, dispute_closed, commented,
  updated, is_finished, post_comment, admin_status,
}

keep-append :
    (id : ℕ) (xs : List Comment) (c : Comment)
    → is_on id c ≡ true
    → keep (is_on id) (xs ++ (c ∷ [])) ≡ keep (is_on id) xs ++ (c ∷ [])
keep-append id [] c is = ground arith
keep-append id (x ∷ xs) c is = ground (arith, keep-append id xs c is)

-- The ticket with one more comment.
abbrev pub with_comment : Comment → Ticket → Ticket
with_comment c t = record t { comments = t.comments ++ (c ∷ []) }

abbrev one_more : Comment → Option Ticket → Option Ticket
one_more c none = none
one_more c (some t) = some (with_comment c t)

-- A comment of the contributor, with the message and at the time of the request.
abbrev pub IsCommentOf : String → ℕ → Ticket → Comment → Type 0
IsCommentOf message now t c =
    (c.author ≡ contributor)
    × (c.message ≡ message)
    × (c.created_at ≡ now)
    × (c.dispute_id ≡ t.dispute.id)

-- What the handler comes to, by its answer.
abbrev pub Answered : String → String → String → ℕ → Store → Reply × Store → Type 0
Answered ticket_id wallet message now s (commented c, s') =
    (t : Ticket) × (get_dispute_by_ticket_id ticket_id s ≡ some t)
    × (t.dispute.wallet_address ≡ wallet)
    × (is_finished t.dispute.status ≡ false)
    × IsCommentOf message now t c
    × (get_dispute_by_ticket_id ticket_id s' ≡ some (with_comment c t))
Answered ticket_id wallet message now s (service_unavailable, s') = s' ≡ s
Answered ticket_id wallet message now s (unauthorized, s') = s' ≡ s
Answered ticket_id wallet message now s (dispute_not_found, s') =
    (get_dispute_by_ticket_id ticket_id s ≡ none) × (s' ≡ s)
Answered ticket_id wallet message now s (forbidden, s') = s' ≡ s
Answered ticket_id wallet message now s (dispute_closed, s') = s' ≡ s
Answered ticket_id wallet message now s (updated t, s') = s' ≡ s

abbrev ticket : Dispute → List Comment → Ticket
ticket d cs = record { dispute = d; comments = cs }

abbrev with_comments_of : Dispute → Store → Ticket
with_comments_of d s = ticket d (get_dispute_comments d.id s)

with_comments-add :
    (d : Option Dispute) (t : Ticket) (author : Author) (message : String) (now : ℕ) (s : Store)
    → with_comments d s ≡ some t
    → with_comments d (add_dispute_comment t.dispute.id author message now s).1
      ≡ some (with_comment (add_dispute_comment t.dispute.id author message now s).0 t)
unfolding get_dispute_comments add_dispute_comment
with_comments-add none t author message now s is = cc
with_comments-add (some d) t author message now s is =
    let same : with_comments_of d s ≡ t = ap (λ o. or_else o t) is in
    subst
      (λ (u : Ticket).
        with_comments (some d) (add_dispute_comment u.dispute.id author message now s).1
        ≡ some (with_comment (add_dispute_comment u.dispute.id author message now s).0 u))
      same (ap (λ cs. some (ticket d cs)) (keep-append d.id s.comments _ (==_self d.id)))

-- A contributor's comment, with the message, the time and the author of the request, is added exactly behind the last comment of the ticket, and only if the
-- ticket exists, is the wallet's own, and is neither resolved nor closed. Every other answer leaves
-- the tables as they are.
pub post_comment_lem :
    (ticket_id wallet message : String) (now : ℕ) (s : Store)
    → Answered ticket_id wallet message now s (post_comment ticket_id wallet message now s)
unfolding post_comment get_dispute_by_ticket_id add_dispute_comment
post_comment_lem ticket_id wallet message now s =
    elim (Option-cases (get_dispute_by_ticket_id ticket_id s)) [
      | inl absent ↦ rw (absent, post_comment) (absent, refl)
      | inr (t, is) ↦ elim (Bool-cases (t.dispute.wallet_address == wallet)) [
        | inr other ↦ rw (is, post_comment, other) refl
        | inl own ↦ elim (Bool-cases (is_finished t.dispute.status)) [
          | inl over ↦ rw (is, post_comment, own, over) refl
          | inr going ↦
              rw (is, post_comment, own, going)
                (
                  t,
                  is,
                  eq_of_== t.dispute.wallet_address wallet own,
                  going,
                  (refl, refl, refl, refl),
                  with_comments-add (find_first (has_ticket ticket_id) s.disputes) t contributor
                      message now s is,
                )
        ]
      ]
    ]

-- Every comment of a contributor on the ticket is refused.
abbrev pub Silent : String → Store → Type 0
Silent ticket_id s =
    (wallet message : String) (now : ℕ) → (post_comment ticket_id wallet message now s).1 ≡ s

finished-Silent :
    (ticket_id : String) (s : Store) (t : Ticket)
    → get_dispute_by_ticket_id ticket_id s ≡ some t
    → is_finished t.dispute.status ≡ true
    → Silent ticket_id s
unfolding post_comment
finished-Silent ticket_id s t is over wallet message now =
    elim (Bool-cases (t.dispute.wallet_address == wallet)) [
      | inr other ↦ rw (is, post_comment, other)
      | inl own ↦ rw (is, post_comment, own, over)
    ]

updated-Silent :
    (ticket_id : String) (d : Dispute) (status : Status) (note : Option (Option String)) (now : ℕ)
    (s : Store)
    → find_first (has_ticket ticket_id) s.disputes ≡ some d
    → is_finished status ≡ true
    → Silent ticket_id (update_dispute_status d.id status note now s).1
unfolding update_dispute_status get_dispute_by_ticket_id
updated-Silent ticket_id d status note now s is over =
    let known =
      find_first-any_of (has_ticket ticket_id) (has_id d.id) s.disputes d is (==_self d.id) in
    let found =
      find_first-update_where (has_ticket ticket_id) (has_id d.id) (reviewed status note now)
        s.disputes d (λ x. refl) is (==_self d.id) in
    let s' : Store =
      count_write (record s {
        disputes = update_where (has_id d.id) (reviewed status note now) s.disputes;
      }) in
    rw (known, update_dispute_status)
      (finished-Silent ticket_id s' (with_comments_of (reviewed status note now d) s')
        (ap (λ o. with_comments o s') found) over)

-- What a review comes to.
abbrev Reviewed : String → Reply × Store → Type 0
Reviewed ticket_id (updated t, s) = Silent ticket_id s
Reviewed ticket_id (commented c, s) = Unit
Reviewed ticket_id (service_unavailable, s) = Unit
Reviewed ticket_id (unauthorized, s) = Unit
Reviewed ticket_id (dispute_not_found, s) = Unit
Reviewed ticket_id (forbidden, s) = Unit
Reviewed ticket_id (dispute_closed, s) = Unit

admin_status-Reviewed :
    (ticket_id : String) (status : Status) (note : Option (Option String)) (now : ℕ) (s : Store)
    → is_finished status ≡ true
    → Reviewed ticket_id (admin_status ticket_id status note now s)
unfolding admin_status get_dispute_by_ticket_id
admin_status-Reviewed ticket_id status note now s over =
    elim (Option-cases (find_first (has_ticket ticket_id) s.disputes)) [
      | inl absent ↦ rw (absent, admin_status) tt
      | inr (d, is) ↦ rw (is, admin_status) (updated-Silent ticket_id d status note now s is over)
    ]

-- Once an administrator has set a ticket to resolved or closed, every comment of a contributor on it
-- is refused and changes nothing.
pub admin_status_silences :
    (ticket_id : String) (status : Status) (note : Option (Option String)) (now : ℕ) (s s' : Store)
    (t : Option Ticket)
    → is_finished status ≡ true
    → admin_status ticket_id status note now s ≡ (updated t, s')
    → Silent ticket_id s'
admin_status_silences ticket_id status note now s s' t over h =
    subst (Reviewed ticket_id) h (admin_status-Reviewed ticket_id status note now s over)

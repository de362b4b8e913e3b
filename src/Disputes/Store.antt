-- ===== src/Disputes/Store.antt =====
-- backend/src/database/disputes.js. A table is the list of its rows in the order of insertion; the
-- times of the rows grow. A ticket id is an input, as it is drawn at random.
use stellar_royalty_splitter.Prelude.{
  ℕ, suc, ◌+◌, String, Bool, Option, none, some, List, [], ◌∷◌, ◌++◌, ◌==◌, nat_eq, string_eq,
  if◌then◌else◌, any, keep, find_first, update_where, take, drop, length,
}

pub data Status : Type 0 where
  open_ticket under_review resolved closed : Status

pub data Author : Type 0 where
  contributor admin : Author

pub record Dispute : Type 0 where
  pub id : ℕ
  pub ticket_id : String
  pub wallet_address : String
  pub contract_id : Option String
  pub category : String
  pub description : String
  pub status : Status
  pub admin_note : Option String
  pub created_at : ℕ
  pub updated_at : ℕ

pub record Comment : Type 0 where
  pub id : ℕ
  pub dispute_id : ℕ
  pub author : Author
  pub message : String
  pub created_at : ℕ

pub record Store : Type 0 where
  pub disputes : List Dispute
  pub comments : List Comment
  pub next_dispute : ℕ
  pub next_comment : ℕ
  pub writes : ℕ

-- A dispute with its comments, as `withComments` attaches them.
pub record Ticket : Type 0 where
  pub dispute : Dispute
  pub comments : List Comment

abbrev pub count_write : Store → Store
count_write s = record s { writes = s.writes + 1 }

abbrev pub is_on : ℕ → Comment → Bool
is_on dispute_id c = c.dispute_id == dispute_id

-- `getDisputeComments`, oldest first.
unfoldable pub get_dispute_comments : ℕ → Store → List Comment
get_dispute_comments dispute_id s = keep (is_on dispute_id) s.comments

abbrev pub with_comments : Option Dispute → Store → Option Ticket
with_comments none s = none
with_comments (some d) s = some (record { dispute = d; comments = get_dispute_comments d.id s })

abbrev pub has_ticket : String → Dispute → Bool
has_ticket ticket_id d = d.ticket_id == ticket_id

abbrev pub has_id : ℕ → Dispute → Bool
has_id id d = d.id == id

-- `getDisputeByTicketId`
unfoldable pub get_dispute_by_ticket_id : String → Store → Option Ticket
get_dispute_by_ticket_id ticket_id s =
    with_comments (find_first (has_ticket ticket_id) s.disputes) s

abbrev pub new_dispute : ℕ → String → String → Option String → String → String → ℕ → Dispute
new_dispute id ticket_id wallet contract_id category description now = record {
  id = id;
  ticket_id = ticket_id;
  wallet_address = wallet;
  contract_id = contract_id;
  category = category;
  description = description;
  status = open_ticket;
  admin_note = none;
  created_at = now;
  updated_at = now;
}

-- `createDispute`; `none` is a ticket id that is taken, where the insert throws.
unfoldable pub create_dispute :
    String → String → Option String → String → String → ℕ → Store → Option (Ticket × Store)
create_dispute ticket_id wallet contract_id category description now s =
    if any (has_ticket ticket_id) s.disputes
    then none
    else (let d : Dispute =
          new_dispute s.next_dispute ticket_id wallet contract_id category description now in
        some (
          record { dispute = d; comments = [] },
          count_write
              (record s { disputes = s.disputes ++ (d ∷ []); next_dispute = suc s.next_dispute }),
        ))

abbrev noted : Option (Option String) → Option String → Option String
noted none old = old
noted (some note) old = note

abbrev pub reviewed : Status → Option (Option String) → ℕ → Dispute → Dispute
reviewed status note now d = record d {
  status = status;
  admin_note = noted note d.admin_note;
  updated_at = now;
}

-- `updateDisputeStatus`; the note is set only if it is given, also to null.
unfoldable pub update_dispute_status :
    ℕ → Status → Option (Option String) → ℕ → Store → Option Ticket × Store
update_dispute_status dispute_id status note now s =
    if any (has_id dispute_id) s.disputes
    then (let s' : Store = count_write (record s {
      disputes = update_where (has_id dispute_id) (reviewed status note now) s.disputes;
    }) in
        (with_comments (find_first (has_id dispute_id) s'.disputes) s', s'))
    else (none, s)

-- `addDisputeComment`
unfoldable pub add_dispute_comment : ℕ → Author → String → ℕ → Store → Comment × Store
add_dispute_comment dispute_id author message now s =
    let c : Comment = record {
      id = s.next_comment;
      dispute_id = dispute_id;
      author = author;
      message = message;
      created_at = now;
    } in
    (
      c,
      count_write
          (record s { comments = s.comments ++ (c ∷ []); next_comment = suc s.next_comment }),
    )

abbrev reverse_onto : {A : Type 0} → List A → List A → List A
reverse_onto [] ys = ys
reverse_onto (x ∷ xs) ys = reverse_onto xs (x ∷ ys)

abbrev is_from : String → Dispute → Bool
is_from wallet d = d.wallet_address == wallet

-- `getDisputesByWallet`, newest first.
unfoldable pub get_disputes_by_wallet : String → ℕ → ℕ → Store → List Dispute
get_disputes_by_wallet wallet limit offset s =
    take limit (drop offset (reverse_onto (keep (is_from wallet) s.disputes) []))

-- `countDisputesByWallet`
unfoldable pub count_disputes_by_wallet : String → Store → ℕ
count_disputes_by_wallet wallet s = length (keep (is_from wallet) s.disputes)

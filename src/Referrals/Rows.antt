-- ===== src/Referrals/Rows.antt =====
-- Referral and bonus rows under an insert and an activation.
use stellar_royalty_splitter.Prelude.{
  ℕ, suc, ◌+◌, ◌<◌, ◌≡◌, ◌≢◌, refl, String, false, List, [], ◌∷◌, ◌++◌, ◌==◌, string_eq, nat_eq,
  if◌then◌else◌, any, All, update_where, Bool-cases, inl, inr, arith,
}
use stellar_royalty_splitter.Referrals.Store.{Referral, Bonus, is_active, is_bonus_of, has_id}
use stellar_royalty_splitter.Referrals.Activate.{activated}
use stellar_royalty_splitter.Referrals.Dashboard.{total_bonus, count_by}
use stellar_royalty_splitter.Referrals.Bonuses.{Distinct}

any-append_last :
    (id : ℕ) (rows : List Referral) (r : Referral)
    → any (has_id id) rows ≡ false
    → r.id ≢ id
    → any (has_id id) (rows ++ (r ∷ [])) ≡ false
any-append_last id [] r absent other = ground arith
any-append_last id (x ∷ rows) r absent other = ground (arith, any-append_last id rows r)

pub append-Distinct :
    (rows : List Referral) (r : Referral)
    → Distinct rows
    → All (λ x. x.id < r.id) rows
    → Distinct (rows ++ (r ∷ []))
append-Distinct [] r distinct below = (refl, tt)
append-Distinct (x ∷ rows) r distinct below = (
  any-append_last x.id rows r distinct.0 (λ same. absurd (omega (arith, below.0, same))),
  append-Distinct rows r distinct.1 below.1,
)

pub append-below :
    (n : ℕ) (rows : List Referral) (r : Referral)
    → All (λ x. x.id < n) rows
    → r.id ≡ n
    → All (λ x. x.id < suc n) (rows ++ (r ∷ []))
append-below n [] r below is = (omega arith, tt)
append-below n (x ∷ rows) r below is = (omega (arith, below.0), append-below n rows r below.1 is)

pub count_by-append :
    (referrer : String) (rows : List Referral) (r : Referral)
    → is_active r.status ≡ false
    → count_by referrer is_active (rows ++ (r ∷ [])) ≡ count_by referrer is_active rows
count_by-append referrer [] r idle = ground arith
count_by-append referrer (x ∷ rows) r idle = ground (arith, count_by-append referrer rows r idle)

pub total_bonus-append :
    (referrer : String) (bonuses : List Bonus) (b : Bonus)
    → total_bonus referrer (bonuses ++ (b ∷ []))
      ≡ (if is_bonus_of referrer b then b.bonus_amount_stroops else 0)
        + total_bonus referrer bonuses
total_bonus-append referrer [] b = ground arith
total_bonus-append referrer (x ∷ bonuses) b = ground (arith, total_bonus-append referrer bonuses b)

pub update-below :
    (n id now : ℕ) (rows : List Referral)
    → All (λ x. x.id < n) rows
    → All (λ x. x.id < n) (update_where (has_id id) (activated now) rows)
update-below n id now [] below = tt
update-below n id now (x ∷ rows) below = ground (arith, update-below n id now rows)

any-update :
    (j id now : ℕ) (rows : List Referral)
    → any (has_id j) (update_where (has_id id) (activated now) rows) ≡ any (has_id j) rows
any-update j id now [] = refl
any-update j id now (x ∷ rows) = ground (arith, any-update j id now rows)

pub update-Distinct :
    (id now : ℕ) (rows : List Referral)
    → Distinct rows
    → Distinct (update_where (has_id id) (activated now) rows)
update-Distinct id now [] distinct = tt
update-Distinct id now (x ∷ rows) distinct =
    let rest = update-Distinct id now rows distinct.1 in
    elim (Bool-cases (x.id == id)) [
      | inl is ↦ rw (is, any-update x.id id now rows) (distinct.0, rest)
      | inr other ↦ rw (other, any-update x.id id now rows) (distinct.0, rest)
    ]

-- ===== src/Referrals/Bonuses.antt =====
-- An activation awards its bonus once, and the bonuses of a referrer are those of the activations.
use stellar_royalty_splitter.Prelude.{
  ℕ, ◌+◌, ◌≡◌, refl, sym, ap, String, Bool, true, false, Option, some, List, [], ◌∷◌, ◌==◌,
  string_eq, nat_eq, ==_self, eq_of_==, if◌then◌else◌, any, find_first, update_where, Bool-cases,
  Option-cases, inl, inr, arith, or_else,
}
use stellar_royalty_splitter.Prelude.Rows.{find_first-update_where, find_first-any_of}
use mathlib.Core.Path.{subst}
use stellar_royalty_splitter.Referrals.Store.{
  Status, pending, active, bonus_paid, Referral, Bonus, Store, is_pending, is_active, is_referred,
  is_by, has_id, get_referral_by_referred,
}
use stellar_royalty_splitter.Referrals.Activate.{
  activated, activate, activate_referral, Activated, unchanged, awarded, not_found,
}
use stellar_royalty_splitter.Referrals.Dashboard.{count_by}

-- What a later activation comes to, if this one has awarded a bonus.
abbrev Last : String → String → ℕ → ℕ → Activated × Store → Type 0
Last referred reason amount now (awarded r b, s) =
    (q : Referral) × (activate_referral referred amount reason now s ≡ (unchanged q, s))
    × (q.status ≡ active)
Last referred reason amount now (not_found, s) = Unit
Last referred reason amount now (unchanged q, s) = Unit

activate_active :
    (referred reason : String) (amount now : ℕ) (s : Store) (q : Referral)
    → get_referral_by_referred referred s ≡ some q
    → is_pending q.status ≡ false
    → activate_referral referred amount reason now s ≡ (unchanged q, s)
unfolding activate_referral
activate_active referred reason amount now s q is idle = rw (is, activate_referral, idle)

activate_referral-Last :
    (referred reason reason' : String) (amount amount' now now' : ℕ) (s : Store)
    → Last referred reason' amount' now' (activate_referral referred amount reason now s)
unfolding activate_referral activate get_referral_by_referred
activate_referral-Last referred reason reason' amount amount' now now' s =
    elim (Option-cases (get_referral_by_referred referred s)) [
      | inl absent ↦ rw (absent, activate_referral) tt
      | inr (r, is) ↦ elim (Bool-cases (is_pending r.status)) [
        | inr idle ↦ rw (is, activate_referral, idle) tt
        | inl waits ↦
            let found =
              find_first-update_where (is_referred referred) (has_id r.id) (activated now)
                s.referrals r (λ x. refl) is (==_self r.id) in
            rw (is, activate_referral, waits)
              (
                activated now r,
                activate_active referred reason' amount' now' (activate r amount reason now s)
                    (activated now r) found refl,
                refl,
              )
      ]
    ]

-- An activation that awards a bonus is the last one of the referred address: every later call finds
-- the referral active, awards nothing, and changes nothing.
pub activate_referral_once :
    (referred reason reason' : String) (amount amount' now now' : ℕ) (s s' : Store)
    (r : Option Referral) (b : Option Bonus)
    → activate_referral referred amount reason now s ≡ (awarded r b, s')
    → (q : Referral) × (activate_referral referred amount' reason' now' s' ≡ (unchanged q, s'))
      × (q.status ≡ active)
unfolding activate_referral activate get_referral_by_referred
activate_referral_once referred reason reason' amount amount' now now' s s' r b h =
    subst (Last referred reason' amount' now') h
      (activate_referral-Last referred reason reason' amount amount' now now' s)

-- No id stands twice.
abbrev pub Distinct : List Referral → Type 0
Distinct [] = Unit
Distinct (r ∷ rows) = (any (has_id r.id) rows ≡ false) × Distinct rows

update_absent :
    (id : ℕ) (f : Referral → Referral) (rows : List Referral)
    → any (has_id id) rows ≡ false
    → update_where (has_id id) f rows ≡ rows
update_absent id f [] h = refl
update_absent id f (x ∷ rows) h = ground (arith, update_absent id f rows)

pending_not_active : (s : Status) → is_pending s ≡ true → is_active s ≡ false
pending_not_active pending h = refl
pending_not_active active h = cc
pending_not_active bonus_paid h = refl

-- What an activation of `r` makes of the number of active referrals of a referrer.
abbrev pub Counted : String → ℕ → Referral → List Referral → Type 0
Counted referrer now r rows =
    count_by referrer is_active (update_where (has_id r.id) (activated now) rows)
    ≡ (if is_by referrer r then 1 else 0) + count_by referrer is_active rows

head-Counted :
    (referrer : String) (now : ℕ) (r : Referral) (rows : List Referral)
    → any (has_id r.id) rows ≡ false
    → is_pending r.status ≡ true
    → Counted referrer now r (r ∷ rows)
head-Counted referrer now r rows absent waits =
    let idle = pending_not_active r.status waits in
    let same = update_absent r.id (activated now) rows absent in
    rw (==_self r.id, same) (ground (arith, idle))

tail-Counted :
    (referrer : String) (now : ℕ) (x r : Referral) (rows : List Referral)
    → (x.id == r.id) ≡ false
    → Counted referrer now r rows
    → Counted referrer now r (x ∷ rows)
tail-Counted referrer now x r rows other rest = rw other (ground (arith, rest))

pub find_first-Counted :
    (referrer : String) (now : ℕ) (p : Referral → Bool) (rows : List Referral) (r : Referral)
    → Distinct rows
    → find_first p rows ≡ some r
    → is_pending r.status ≡ true
    → Counted referrer now r rows
find_first-Counted referrer now p [] r distinct is waits = cc
find_first-Counted referrer now p (x ∷ rows) r distinct is waits = elim (Bool-cases (p x)) [
  | inl hit ↦
      let same : x ≡ r = ap (λ o. or_else o r) (rw hit at is) in
      subst (λ y. Counted referrer now r (y ∷ rows)) (sym same)
        (head-Counted referrer now r rows
          (subst (λ y. any (has_id y.id) rows ≡ false) same distinct.0) waits)
  | inr miss ↦
      let there : find_first p rows ≡ some r = rw miss at is in
      let known = find_first-any_of p (has_id r.id) rows r there (==_self r.id) in
      let other : (x.id == r.id) ≡ false = elim (Bool-cases (x.id == r.id)) [
        | inr differs ↦ differs
        | inl eq ↦
            let also =
              subst (λ i. any (has_id i) rows ≡ false) (eq_of_== x.id r.id eq) distinct.0 in
            ground (arith, also, known)
      ] in
      tail-Counted referrer now x r rows other
        (find_first-Counted referrer now p rows r distinct.1 there waits)
]

-- ===== src/Referrals/Balance.antt =====
-- The bonuses that are paid are those of the active referrals, as long as no bonus is awarded by hand.
use stellar_royalty_splitter.Prelude.{
  ℕ, suc, ◌+◌, ◌*◌, ◌<◌, ◌≡◌, refl, sym, ap, ◌∙◌, String, true, false, Option, some, List, [], ◌∷◌,
  ◌++◌, ◌==◌, string_eq, nat_eq, any, find_first, All, count_if, Bool-cases, Option-cases, ◌⊎◌, inl,
  inr, arith, or_else,
}
use mathlib.Core.Path.{subst}
use stellar_royalty_splitter.Referrals.Store.{
  Status, pending, active, bonus_paid, Link, Referral, Bonus, Store, default_referral_bonus_stroops,
  is_pending, is_active, is_bonus_paid, is_referred, is_by, get_referral_link_by_code,
  get_referral_link_by_wallet, get_referral_by_referred,
}
use stellar_royalty_splitter.Referrals.Register.{
  generate_referral_link, register_referral, insert_referral,
}
use stellar_royalty_splitter.Referrals.Activate.{new_bonus, activate, activate_referral}
use stellar_royalty_splitter.Referrals.Dashboard.{total_bonus, count_by, get_referral_dashboard}
use stellar_royalty_splitter.Referrals.Unique.{generate-Inserted, generate-found}
use stellar_royalty_splitter.Referrals.Bonuses.{Distinct, find_first-Counted}
use stellar_royalty_splitter.Referrals.Rows.{
  append-Distinct, append-below, count_by-append, total_bonus-append, update-below, update-Distinct,
}

abbrev pub empty : Store
empty = record {
  links = [];
  referrals = [];
  bonuses = [];
  next_link = 1;
  next_referral = 1;
  next_bonus = 1;
  writes = 0;
}

-- The stores that the operations lead to, with the default bonus.
pub data Reached : Store → Type 0 where
  at_first : Reached empty
  linked :
      {s : Store}
      → Reached s
      → (wallet : String) (codes : ℕ → String) (now : ℕ) (l : Link) (s' : Store)
      → generate_referral_link wallet codes now s ≡ some (l, s')
      → Reached s'
  referred :
      {s : Store}
      → Reached s
      → (code address : String) (now : ℕ) → Reached (register_referral code address now s).1
  qualified :
      {s : Store}
      → Reached s
      → (address reason : String) (now : ℕ)
      → Reached (activate_referral address default_referral_bonus_stroops reason now s).1

record Balanced (next : ℕ) (referrals : List Referral) (bonuses : List Bonus) : Type 0 where
  distinct : Distinct referrals
  below : All (λ r. r.id < next) referrals
  paid :
      (referrer : String)
      → total_bonus referrer bonuses
        ≡ default_referral_bonus_stroops * count_by referrer is_active referrals

abbrev IsBalanced : Store → Type 0
IsBalanced s = Balanced s.next_referral s.referrals s.bonuses

inserted-Balanced :
    (s : Store) (r : Referral)
    → IsBalanced s
    → r.id ≡ s.next_referral
    → is_active r.status ≡ false
    → Balanced (suc s.next_referral) (s.referrals ++ (r ∷ [])) s.bonuses
inserted-Balanced s r h is idle = record {
  distinct = append-Distinct s.referrals r h.distinct (rw is h.below);
  below = append-below s.next_referral s.referrals r h.below is;
  paid = λ referrer. rw (count_by-append referrer s.referrals r idle) (h.paid referrer);
}

insert_referral-IsBalanced :
    (link : Link) (code address : String) (now : ℕ) (s : Store)
    → IsBalanced s
    → IsBalanced (insert_referral link code address now s).1
unfolding insert_referral
insert_referral-IsBalanced link code address now s h =
    elim (Bool-cases (any (is_referred address) s.referrals)) [
      | inl known ↦ rw (known, insert_referral) h
      | inr new ↦ rw (new, insert_referral) (inserted-Balanced s _ h refl refl)
    ]

register_referral-IsBalanced :
    (code address : String) (now : ℕ) (s : Store)
    → IsBalanced s
    → IsBalanced (register_referral code address now s).1
unfolding register_referral
register_referral-IsBalanced code address now s h =
    elim (Option-cases (get_referral_link_by_code code s)) [
      | inl absent ↦ rw (absent, register_referral) h
      | inr (link, is) ↦ elim (Bool-cases (link.wallet_address == address)) [
        | inl self ↦ rw (is, register_referral, self) h
        | inr other ↦
            rw (is, register_referral, other) (insert_referral-IsBalanced link code address now s h)
      ]
    ]

-- The activation of a pending row pays for it.
activate-IsBalanced :
    (address reason : String) (now : ℕ) (s : Store) (r : Referral)
    → IsBalanced s
    → find_first (is_referred address) s.referrals ≡ some r
    → is_pending r.status ≡ true
    → IsBalanced (activate r default_referral_bonus_stroops reason now s)
unfolding activate
activate-IsBalanced address reason now s r h is waits = record {
  distinct = update-Distinct r.id now s.referrals h.distinct;
  below = update-below s.next_referral r.id now s.referrals h.below;
  paid = λ referrer.
      rw
        (
          total_bonus-append referrer s.bonuses (
              new_bonus s.next_bonus r.id r.referrer_address default_referral_bonus_stroops reason
                now),
          find_first-Counted referrer now (is_referred address) s.referrals r h.distinct is waits,
        )
        (ground (arith, h.paid referrer));
}

activate_referral-IsBalanced :
    (address reason : String) (now : ℕ) (s : Store)
    → IsBalanced s
    → IsBalanced (activate_referral address default_referral_bonus_stroops reason now s).1
unfolding activate_referral get_referral_by_referred
activate_referral-IsBalanced address reason now s h =
    elim (Option-cases (get_referral_by_referred address s)) [
      | inl absent ↦ rw (absent, activate_referral) h
      | inr (r, is) ↦ elim (Bool-cases (is_pending r.status)) [
        | inr idle ↦ rw (is, activate_referral, idle) h
        | inl waits ↦
            rw (is, activate_referral, waits)
              (activate-IsBalanced address reason now s r h is waits)
      ]
    ]

generate_referral_link-IsBalanced :
    (wallet : String) (codes : ℕ → String) (now : ℕ) (s s' : Store) (l : Link)
    → IsBalanced s
    → generate_referral_link wallet codes now s ≡ some (l, s')
    → IsBalanced s'
generate_referral_link-IsBalanced wallet codes now s s' l h is =
    elim (Option-cases (get_referral_link_by_wallet wallet s)) [
      | inr (e, there) ↦
          let same : s ≡ s' =
            ap (λ (o : Option (Link × Store)). (or_else {A = Link × Store} o (l, s')).1)
              (sym (generate-found wallet codes now s e there) ∙ is) in
          subst IsBalanced same h
      | inl absent ↦
          let (links, owner, same) = generate-Inserted wallet codes now s s' l absent is in
          rw (same.0, same.1, same.2) h
    ]

Reached-IsBalanced : (s : Store) → Reached s → IsBalanced s
Reached-IsBalanced s at_first = record { distinct = tt; below = tt; paid = λ referrer. refl }
Reached-IsBalanced _ (linked {s = s} path wallet codes now l s' is) =
    generate_referral_link-IsBalanced wallet codes now s s' l (Reached-IsBalanced s path) is
Reached-IsBalanced _ (referred {s = s} path code address now) =
    register_referral-IsBalanced code address now s (Reached-IsBalanced s path)
Reached-IsBalanced _ (qualified {s = s} path address reason now) =
    activate_referral-IsBalanced address reason now s (Reached-IsBalanced s path)

one_status :
    (t : Status)
    → ((is_pending t ≡ true) × (is_active t ≡ false) × (is_bonus_paid t ≡ false))
      ⊎ ((is_pending t ≡ false) × (is_active t ≡ true) × (is_bonus_paid t ≡ false))
      ⊎ ((is_pending t ≡ false) × (is_active t ≡ false) × (is_bonus_paid t ≡ true))
one_status pending = inl (refl, refl, refl)
one_status active = inr (inl (refl, refl, refl))
one_status bonus_paid = inr (inr (refl, refl, refl))

count_by_sum :
    (referrer : String) (rows : List Referral)
    → count_if (is_by referrer) rows
      ≡ count_by referrer is_pending rows
        + count_by referrer is_active rows
        + count_by referrer is_bonus_paid rows
count_by_sum referrer [] = refl
count_by_sum referrer (r ∷ rows) = ground (arith, one_status r.status, count_by_sum referrer rows)

-- In every store that links, registrations and activations with the default bonus lead to, the
-- dashboard of every referrer shows a total of the default bonus for each active referral, and its
-- counts by status add up to the number of all referrals.
pub dashboard_balances :
    (s : Store) (referrer : String) (limit offset : ℕ)
    → Reached s
    → let d = get_referral_dashboard referrer limit offset s in
      (d.total_bonus_stroops ≡ default_referral_bonus_stroops * d.active_referrals)
      × (d.total_referrals ≡ d.pending_referrals + d.active_referrals + d.bonus_paid_referrals)
unfolding get_referral_dashboard
dashboard_balances s referrer limit offset path =
    ((Reached-IsBalanced s path).paid referrer, count_by_sum referrer s.referrals)

-- ===== src/Referrals/Unique.antt =====
-- One link for each wallet, and one referral for each referred address.
use stellar_royalty_splitter.Prelude.{
  ℕ, zero, suc, ◌≡◌, ◌≢◌, refl, sym, ap, ◌∙◌, String, true, false, ◌||◌, none, some, [], ◌∷◌, ◌++◌,
  ◌==◌, string_eq, ==_self, any, find_first, Bool-cases, Option-cases, inl, inr, arith, or_else,
}
use stellar_royalty_splitter.Prelude.Rows.{find_first-append, any-find_first, find_first-any}
use mathlib.Core.Path.{subst}
use stellar_royalty_splitter.Referrals.Store.{
  Link, Referral, Store, is_referred, get_referral_link_by_wallet, get_referral_link_by_code,
  get_referral_by_referred,
}
use stellar_royalty_splitter.Referrals.Register.{
  insert_link, insert_retrying, generate_referral_link, Registered, registered, already_referred,
  code_not_found, self_referral, insert_referral, register_referral, new_referral,
}

-- The links behind an insert.
abbrev pub Inserted : String → Store → Link × Store → Type 0
Inserted wallet s (l, s') =
    (s'.links ≡ s.links ++ (l ∷ []))
    × (l.wallet_address ≡ wallet)
    × ((s'.referrals ≡ s.referrals)
        × (s'.bonuses ≡ s.bonuses)
        × (s'.next_referral ≡ s.next_referral))

insert_link-Inserted :
    (wallet code : String) (now : ℕ) (s : Store) (done : Link × Store)
    → insert_link wallet code now s ≡ some done
    → Inserted wallet s done
unfolding insert_link
insert_link-Inserted wallet code now s done h =
    elim (Bool-cases (any (λ l. l.wallet_address == wallet || l.referral_code == code) s.links)) [
      | inl taken ↦ cc
      | inr free ↦
          subst (Inserted wallet s) (ap (λ o. or_else o done) (rw free at h))
            (refl, refl, (refl, refl, refl))
    ]

insert_retrying-Inserted :
    (left attempts : ℕ) (wallet : String) (codes : ℕ → String) (now : ℕ) (s : Store)
    (done : Link × Store)
    → insert_retrying left attempts wallet codes now s ≡ some done
    → Inserted wallet s done
unfolding insert_retrying
insert_retrying-Inserted zero attempts wallet codes now s done h = cc
insert_retrying-Inserted (suc left) attempts wallet codes now s done h =
    elim (Option-cases (insert_link wallet (codes attempts) now s)) [
      | inl taken ↦
          insert_retrying-Inserted left (suc attempts) wallet codes now s done (rw taken at h)
      | inr (first, is) ↦
          insert_link-Inserted wallet (codes attempts) now s done (ground (arith, h, is))
    ]

pub generate-Inserted :
    (wallet : String) (codes : ℕ → String) (now : ℕ) (s s' : Store) (l : Link)
    → get_referral_link_by_wallet wallet s ≡ none
    → generate_referral_link wallet codes now s ≡ some (l, s')
    → Inserted wallet s (l, s')
unfolding generate_referral_link
generate-Inserted wallet codes now s s' l absent h =
    elim (Option-cases (insert_retrying 5 0 wallet codes now s)) [
      | inl failed ↦ cc
      | inr ((k, t), is) ↦
          let inserted : Inserted wallet s (k, t) =
            insert_retrying-Inserted 5 0 wallet codes now s (k, t) is in
          subst (Inserted wallet s)
            (ap (λ o. or_else o (l, s')) (rw (absent, generate_referral_link, is) at h)) inserted
    ]

pub generate-found :
    (wallet : String) (codes : ℕ → String) (now : ℕ) (s : Store) (l : Link)
    → get_referral_link_by_wallet wallet s ≡ some l
    → generate_referral_link wallet codes now s ≡ some (l, s)
unfolding generate_referral_link
generate-found wallet codes now s l is = rw (is, generate_referral_link)

-- A wallet has one link: once a call has answered a link, every later call for the wallet answers
-- the same link and changes nothing, whatever codes it would have drawn.
pub generate_referral_link_again :
    (wallet : String) (codes codes' : ℕ → String) (now now' : ℕ) (s s' : Store) (l : Link)
    → generate_referral_link wallet codes now s ≡ some (l, s')
    → generate_referral_link wallet codes' now' s' ≡ some (l, s')
unfolding get_referral_link_by_wallet
generate_referral_link_again wallet codes codes' now now' s s' l h =
    elim (Option-cases (get_referral_link_by_wallet wallet s)) [
      | inr (e, is) ↦
          let first = generate-found wallet codes now s e is in
          let same : (e, s) ≡ (l, s') = ap (λ o. or_else o (l, s')) (sym first ∙ h) in
          subst (λ p. generate_referral_link wallet codes' now' p.1 ≡ some p) same
            (generate-found wallet codes' now' s e is)
      | inl absent ↦
          let (links, owner, rest) = generate-Inserted wallet codes now s s' l absent h in
          generate-found wallet codes' now' s' l (
            ap (find_first (λ k. k.wallet_address == wallet)) links
            ∙ find_first-append (λ k. k.wallet_address == wallet) s.links l absent
                (rw (owner, ==_self wallet)))
    ]

register_known :
    (code referred : String) (now : ℕ) (s : Store)
    → any (is_referred referred) s.referrals ≡ true
    → (register_referral code referred now s).1 ≡ s
unfolding register_referral
register_known code referred now s known = elim (Option-cases (get_referral_link_by_code code s)) [
  | inl absent ↦ rw (absent, register_referral)
  | inr (link, is) ↦ elim (Bool-cases (link.wallet_address == referred)) [
    | inl self ↦ rw (is, register_referral, self)
    | inr other ↦ rw (is, register_referral, other, known)
  ]
]

-- What a registration answers, if it succeeds.
abbrev Once : String → Registered × Store → Type 0
Once referred (registered r, s) =
    (get_referral_by_referred referred s ≡ some r)
    × (r.referrer_address ≢ r.referred_address)
    × ((code : String) (now : ℕ) → (register_referral code referred now s).1 ≡ s)
Once referred (code_not_found, s) = Unit
Once referred (self_referral, s) = Unit
Once referred (already_referred r, s) = Unit

insert_referral-Once :
    (link : Link) (code referred : String) (now : ℕ) (s : Store)
    → (link.wallet_address == referred) ≡ false
    → Once referred (insert_referral link code referred now s)
unfolding insert_referral get_referral_by_referred
insert_referral-Once link code referred now s other =
    elim (Bool-cases (any (is_referred referred) s.referrals)) [
      | inl known ↦ rw (known, insert_referral) tt
      | inr new ↦
          let r = new_referral s.next_referral link.wallet_address referred code now in
          let found =
            find_first-append (is_referred referred) s.referrals r
              (any-find_first (is_referred referred) s.referrals new) (==_self referred) in
          rw (new, insert_referral)
            (
              found,
              (λ same. ground (arith, rw same at other, ==_self referred)),
              (λ c n.
                  register_known c referred n _
                    (find_first-any (is_referred referred) (s.referrals ++ (r ∷ [])) r found)),
            )
    ]

register_referral-Once :
    (code referred : String) (now : ℕ) (s : Store)
    → Once referred (register_referral code referred now s)
unfolding register_referral
register_referral-Once code referred now s =
    elim (Option-cases (get_referral_link_by_code code s)) [
      | inl absent ↦ rw (absent, register_referral) tt
      | inr (link, is) ↦ elim (Bool-cases (link.wallet_address == referred)) [
        | inl self ↦ rw (is, register_referral, self) tt
        | inr other ↦
            rw (is, register_referral, other) (insert_referral-Once link code referred now s other)
      ]
    ]

-- A registration that succeeds is found by the referred address, is by another wallet, and is the
-- only one: every later registration of the address, with any code, changes nothing.
pub register_referral_once :
    (code referred : String) (now : ℕ) (s s' : Store) (r : Referral)
    → register_referral code referred now s ≡ (registered r, s')
    → (get_referral_by_referred referred s' ≡ some r)
      × (r.referrer_address ≢ r.referred_address)
      × ((code' : String) (now' : ℕ) → (register_referral code' referred now' s').1 ≡ s')
register_referral_once code referred now s s' r h =
    subst (Once referred) h (register_referral-Once code referred now s)

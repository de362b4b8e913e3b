-- ===== src/Referrals/Register.antt =====
-- `generateReferralLink` and `registerReferral` of backend/src/database/referrals.js. A generated
-- code is an input for each attempt of the loop.
use stellar_royalty_splitter.Prelude.{
  ℕ, zero, suc, String, ◌||◌, Option, none, some, [], ◌∷◌, ◌++◌, ◌==◌, string_eq, if◌then◌else◌,
  any,
}
use stellar_royalty_splitter.Referrals.Store.{
  pending, Link, Referral, Store, count_write, is_referred, get_referral_link_by_wallet,
  get_referral_link_by_code, get_referral_by_referred,
}

-- The insert of a link; `none` is a violated UNIQUE constraint.
unfoldable pub insert_link : String → String → ℕ → Store → Option (Link × Store)
insert_link wallet code now s =
    if any (λ l. l.wallet_address == wallet || l.referral_code == code) s.links
    then none
    else (let l : Link = record {
      id = s.next_link;
      wallet_address = wallet;
      referral_code = code;
      created_at = now;
    } in
        some (l, record s { links = s.links ++ (l ∷ []); next_link = suc s.next_link }))

abbrev or_retry : Option (Link × Store) → Option (Link × Store) → Option (Link × Store)
or_retry (some done) rest = some done
or_retry none rest = rest

-- `while (attempts < 5)`, by the attempts that are left; `none` is the error that is thrown.
unfoldable pub insert_retrying : ℕ → ℕ → String → (ℕ → String) → ℕ → Store → Option (Link × Store)
unfolding insert_link
insert_retrying zero attempts wallet codes now s = none
insert_retrying (suc left) attempts wallet codes now s =
    let rest = insert_retrying left (suc attempts) wallet codes now s in
    or_retry (insert_link wallet (codes attempts) now s) rest

abbrev written : Option (Link × Store) → Option (Link × Store)
written none = none
written (some (l, s)) = some (l, count_write s)

-- `generateReferralLink`
unfoldable pub generate_referral_link : String → (ℕ → String) → ℕ → Store → Option (Link × Store)
generate_referral_link wallet codes now s = elim (get_referral_link_by_wallet wallet s) [
  | some existing ↦ some (existing, s)
  | none ↦ written (insert_retrying 5 0 wallet codes now s)
]

-- What `registerReferral` throws, with the status of the error, or returns.
pub data Registered : Type 0 where
  code_not_found : Registered
  self_referral : Registered
  already_referred : Option Referral → Registered
  registered : Referral → Registered

abbrev pub new_referral : ℕ → String → String → String → ℕ → Referral
new_referral id referrer referred code now = record {
  id = id;
  referrer_address = referrer;
  referred_address = referred;
  referral_code = code;
  status = pending;
  created_at = now;
  activated_at = none;
}

-- The insert behind the two checks.
unfoldable pub insert_referral : Link → String → String → ℕ → Store → Registered × Store
insert_referral link code referred now s =
    if any (is_referred referred) s.referrals
    then (already_referred (get_referral_by_referred referred s), s)
    else (let r : Referral = new_referral s.next_referral link.wallet_address referred code now in
        (
          registered r,
          count_write (record s {
            referrals = s.referrals ++ (r ∷ []);
            next_referral = suc s.next_referral;
          }),
        ))

-- `registerReferral`
unfoldable pub register_referral : String → String → ℕ → Store → Registered × Store
unfolding insert_referral
register_referral code referred now s = elim (get_referral_link_by_code code s) [
  | none ↦ (code_not_found, s)
  | some link ↦
      if link.wallet_address == referred
      then (self_referral, s)
      else insert_referral link code referred now s
]

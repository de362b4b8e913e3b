-- ===== src/Referrals/Tests.antt =====
-- Two wallets, a registration by code, and its activation.
use stellar_royalty_splitter.Prelude.{
  ℕ, ◌+◌, ◌*◌, ◌≡◌, ◌≢◌, refl, String, some, [], ◌∷◌, nat_eq, string_eq,
}
use stellar_royalty_splitter.Referrals.Store.{
  active, Link, Referral, Store, default_referral_bonus_stroops, get_referral_link_by_wallet,
  get_referral_link_by_code, get_referral_by_referred, count_referrals_by_referrer,
}
use stellar_royalty_splitter.Referrals.Register.{
  insert_retrying, generate_referral_link, code_not_found, self_referral, already_referred,
  registered, new_referral, register_referral,
}
use stellar_royalty_splitter.Referrals.Activate.{
  not_found, unchanged, activated, new_bonus, activate_referral,
}
use stellar_royalty_splitter.Referrals.Dashboard.{get_referral_dashboard}
use stellar_royalty_splitter.Referrals.Unique.{register_referral_once}
use stellar_royalty_splitter.Referrals.Bonuses.{activate_referral_once}
use stellar_royalty_splitter.Referrals.Balance.{
  empty, at_first, linked, referred, qualified, dashboard_balances,
}

abbrev one_code : ℕ → String
one_code n = "REF-3A9F21B04C7E"

abbrev link : Link
link = record {
  id = 1;
  wallet_address = "GALICE";
  referral_code = "REF-3A9F21B04C7E";
  created_at = 10;
}

abbrev with_link : Store
with_link = record empty { links = link ∷ []; next_link = 2; writes = 1 }

abbrev bob : Referral
bob = new_referral 1 "GALICE" "GBOB" "REF-3A9F21B04C7E" 20

abbrev with_bob : Store
with_bob = record with_link { referrals = bob ∷ []; next_referral = 2; writes = 2 }

abbrev paid : Store
paid = (activate_referral "GBOB" default_referral_bonus_stroops "first" 30 with_bob).1

linked_first : generate_referral_link "GALICE" one_code 10 empty ≡ some (link, with_link)
unfolding generate_referral_link insert_retrying get_referral_link_by_wallet
linked_first = refl

registration_tests :
    (register_referral "REF-3A9F21B04C7E" "GBOB" 20 with_link ≡ (registered bob, with_bob))
    × ((register_referral "REF-0" "GBOB" 20 with_link).0 ≡ code_not_found)
    × ((register_referral "REF-3A9F21B04C7E" "GALICE" 20 with_link).0 ≡ self_referral)
    × ((register_referral "REF-3A9F21B04C7E" "GBOB" 40 with_bob).0 ≡ already_referred (some bob))
unfolding register_referral get_referral_link_by_code get_referral_by_referred
registration_tests = (refl, refl, refl, refl)

activation_tests :
    ((activate_referral "GEVE" 5 "none" 30 with_bob).0 ≡ not_found)
    × ((activate_referral "GBOB" 5 "again" 40 paid).0 ≡ unchanged (activated 30 bob))
    × ((get_referral_dashboard "GALICE" 50 0 paid).total_bonus_stroops ≡ 50000000)
    × ((get_referral_dashboard "GALICE" 50 0 paid).active_referrals ≡ 1)
    × (count_referrals_by_referrer "GALICE" paid ≡ 1)
unfolding activate_referral get_referral_by_referred get_referral_dashboard
    count_referrals_by_referrer
activation_tests = (refl, refl, refl, refl, refl)

register_referral_once_example :
    (get_referral_by_referred "GBOB" with_bob ≡ some bob)
    × (bob.referrer_address ≢ bob.referred_address)
    × ((code' : String) (now' : ℕ) → (register_referral code' "GBOB" now' with_bob).1 ≡ with_bob)
unfolding register_referral get_referral_link_by_code
register_referral_once_example =
    register_referral_once "REF-3A9F21B04C7E" "GBOB" 20 with_link with_bob bob refl

activate_referral_once_example :
    (q : Referral) × (activate_referral "GBOB" 7 "again" 40 paid ≡ (unchanged q, paid))
    × (q.status ≡ active)
unfolding activate_referral get_referral_by_referred
activate_referral_once_example =
    activate_referral_once "GBOB" "first" "again" default_referral_bonus_stroops 7 30 40 with_bob
      paid (some (activated 30 bob))
      (some (new_bonus 1 1 "GALICE" default_referral_bonus_stroops "first" 30)) refl

abbrev after_both : Store
after_both =
    (activate_referral "GBOB" default_referral_bonus_stroops "first" 30
      (register_referral "REF-3A9F21B04C7E" "GBOB" 20 with_link).1).1

dashboard_balances_example :
    let d = get_referral_dashboard "GALICE" 50 0 after_both in
    (d.total_bonus_stroops ≡ default_referral_bonus_stroops * d.active_referrals)
    × (d.total_referrals ≡ d.pending_referrals + d.active_referrals + d.bonus_paid_referrals)
dashboard_balances_example = dashboard_balances after_both "GALICE" 50 0 (
    qualified
      (referred (linked at_first "GALICE" one_code 10 link with_link linked_first)
        "REF-3A9F21B04C7E" "GBOB" 20)
      "GBOB" "first" 30)

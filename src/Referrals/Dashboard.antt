-- ===== src/Referrals/Dashboard.antt =====
-- `getReferralDashboard` of backend/src/database/referrals.js. The amount in XLM, a rounding of the
-- stroops for display, is left out.
use stellar_royalty_splitter.Prelude.{
  ℕ, ◌+◌, String, Bool, ◌&&◌, Option, none, some, List, [], ◌∷◌, if◌then◌else◌, count_if, string_eq,
}
use stellar_royalty_splitter.Referrals.Store.{
  Link, Referral, Bonus, Store, Status, is_pending, is_active, is_bonus_paid, is_by, is_bonus_of,
  get_referral_link_by_wallet, get_referrals_by_referrer,
}

pub record Dashboard : Type 0 where
  pub referral_code : Option String
  pub total_referrals : ℕ
  pub pending_referrals : ℕ
  pub active_referrals : ℕ
  pub bonus_paid_referrals : ℕ
  pub total_bonus_stroops : ℕ
  pub referrals : List Referral

abbrev code_of : Option Link → Option String
code_of none = none
code_of (some l) = some l.referral_code

-- `SUM(bonusAmountStroops)` over the bonuses of a referrer.
abbrev pub total_bonus : String → List Bonus → ℕ
total_bonus referrer [] = 0
total_bonus referrer (b ∷ bonuses) =
    let rest = total_bonus referrer bonuses in
    if is_bonus_of referrer b then b.bonus_amount_stroops + rest else rest

-- The referrals of a referrer with a status.
abbrev pub count_by : String → (Status → Bool) → List Referral → ℕ
count_by referrer is_status rs = count_if (λ r. is_by referrer r && is_status r.status) rs

-- `getReferralDashboard`
unfoldable pub get_referral_dashboard : String → ℕ → ℕ → Store → Dashboard
get_referral_dashboard referrer limit offset s = record {
  referral_code = code_of (get_referral_link_by_wallet referrer s);
  total_referrals = count_if (is_by referrer) s.referrals;
  pending_referrals = count_by referrer is_pending s.referrals;
  active_referrals = count_by referrer is_active s.referrals;
  bonus_paid_referrals = count_by referrer is_bonus_paid s.referrals;
  total_bonus_stroops = total_bonus referrer s.bonuses;
  referrals = get_referrals_by_referrer referrer limit offset s;
}

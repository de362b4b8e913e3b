-- ===== src/Referrals/Store.antt =====
-- The tables of backend/src/database/referrals.js and their queries. A table is the list of its rows
-- in the order of insertion; the times of the rows grow, so that `ORDER BY createdAt DESC` reverses it.
use stellar_royalty_splitter.Prelude.{
  ℕ, ◌+◌, String, Bool, true, false, Option, none, some, List, [], ◌∷◌, ◌==◌, nat_eq, string_eq,
  keep, find_first, take, drop, length,
}

pub data Status : Type 0 where
  pending active bonus_paid : Status

pub record Link : Type 0 where
  pub id : ℕ
  pub wallet_address : String
  pub referral_code : String
  pub created_at : ℕ

pub record Referral : Type 0 where
  pub id : ℕ
  pub referrer_address : String
  pub referred_address : String
  pub referral_code : String
  pub status : Status
  pub created_at : ℕ
  pub activated_at : Option ℕ

pub record Bonus : Type 0 where
  pub id : ℕ
  pub referral_id : ℕ
  pub referrer_address : String
  pub bonus_amount_stroops : ℕ
  pub reason : String
  pub awarded_at : ℕ

pub record Store : Type 0 where
  pub links : List Link
  pub referrals : List Referral
  pub bonuses : List Bonus
  pub next_link : ℕ
  pub next_referral : ℕ
  pub next_bonus : ℕ
  pub writes : ℕ

abbrev pub default_referral_bonus_stroops : ℕ
default_referral_bonus_stroops = 50000000

abbrev pub is_pending : Status → Bool
is_pending pending = true
is_pending active = false
is_pending bonus_paid = false

abbrev pub is_active : Status → Bool
is_active pending = false
is_active active = true
is_active bonus_paid = false

abbrev pub is_bonus_paid : Status → Bool
is_bonus_paid pending = false
is_bonus_paid active = false
is_bonus_paid bonus_paid = true

abbrev pub count_write : Store → Store
count_write s = record s { writes = s.writes + 1 }

-- `getReferralLinkByWallet`
unfoldable pub get_referral_link_by_wallet : String → Store → Option Link
get_referral_link_by_wallet wallet s = find_first (λ l. l.wallet_address == wallet) s.links

-- `getReferralLinkByCode`
unfoldable pub get_referral_link_by_code : String → Store → Option Link
get_referral_link_by_code code s = find_first (λ l. l.referral_code == code) s.links

abbrev pub is_referred : String → Referral → Bool
is_referred address r = r.referred_address == address

abbrev pub has_id : ℕ → Referral → Bool
has_id id r = r.id == id

-- `getReferralByReferred`
unfoldable pub get_referral_by_referred : String → Store → Option Referral
get_referral_by_referred address s = find_first (is_referred address) s.referrals

abbrev pub reverse_onto : {A : Type 0} → List A → List A → List A
reverse_onto [] ys = ys
reverse_onto (x ∷ xs) ys = reverse_onto xs (x ∷ ys)

abbrev pub newest_first : {A : Type 0} → List A → List A
newest_first xs = reverse_onto xs []

abbrev pub page : {A : Type 0} → ℕ → ℕ → List A → List A
page limit offset xs = take limit (drop offset xs)

abbrev pub is_by : String → Referral → Bool
is_by referrer r = r.referrer_address == referrer

-- `getReferralsByReferrer`
unfoldable pub get_referrals_by_referrer : String → ℕ → ℕ → Store → List Referral
get_referrals_by_referrer referrer limit offset s =
    page limit offset (newest_first (keep (is_by referrer) s.referrals))

-- `countReferralsByReferrer`
unfoldable pub count_referrals_by_referrer : String → Store → ℕ
count_referrals_by_referrer referrer s = length (keep (is_by referrer) s.referrals)

abbrev pub is_bonus_of : String → Bonus → Bool
is_bonus_of referrer b = b.referrer_address == referrer

-- `getBonusesByReferrer`
unfoldable pub get_bonuses_by_referrer : String → Store → List Bonus
get_bonuses_by_referrer referrer s = newest_first (keep (is_bonus_of referrer) s.bonuses)

abbrev same_status : Status → Status → Bool
same_status pending s = is_pending s
same_status active s = is_active s
same_status bonus_paid s = is_bonus_paid s

abbrev pub filtered : Option Status → List Referral → List Referral
filtered none rs = rs
filtered (some status) rs = keep (λ r. same_status status r.status) rs

-- `getAllReferrals`
unfoldable pub get_all_referrals : Option Status → ℕ → ℕ → Store → List Referral
get_all_referrals status limit offset s =
    page limit offset (newest_first (filtered status s.referrals))

-- `countAllReferrals`
unfoldable pub count_all_referrals : Option Status → Store → ℕ
count_all_referrals status s = length (filtered status s.referrals)

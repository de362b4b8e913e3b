-- ===== src/Referrals/Activate.antt =====
-- `activateReferral` and `awardReferralBonus` of backend/src/database/referrals.js. The two writes of
-- an activation are one transaction.
use stellar_royalty_splitter.Prelude.{
  ℕ, suc, String, Option, none, some, [], ◌∷◌, ◌++◌, ◌==◌, nat_eq, string_eq, if◌then◌else◌,
  find_first, update_where,
}
use stellar_royalty_splitter.Referrals.Store.{
  active, Referral, Bonus, Store, count_write, has_id, is_pending, get_referral_by_referred,
}

abbrev pub activated : ℕ → Referral → Referral
activated now r = record r { status = active; activated_at = some now }

abbrev pub new_bonus : ℕ → ℕ → String → ℕ → String → ℕ → Bonus
new_bonus id referral_id referrer amount reason now = record {
  id = id;
  referral_id = referral_id;
  referrer_address = referrer;
  bonus_amount_stroops = amount;
  reason = reason;
  awarded_at = now;
}

abbrev pub insert_bonus : ℕ → String → ℕ → String → ℕ → Store → Store
insert_bonus referral_id referrer amount reason now s = count_write (record s {
  bonuses = s.bonuses ++ (new_bonus s.next_bonus referral_id referrer amount reason now ∷ []);
  next_bonus = suc s.next_bonus;
})

-- What `activateReferral` throws, or returns.
pub data Activated : Type 0 where
  not_found : Activated
  unchanged : Referral → Activated
  awarded : Option Referral → Option Bonus → Activated

-- The transaction.
unfoldable pub activate : Referral → ℕ → String → ℕ → Store → Store
activate r amount reason now s =
    insert_bonus r.id r.referrer_address amount reason now
      (record s { referrals = update_where (has_id r.id) (activated now) s.referrals })

-- `activateReferral`
unfoldable pub activate_referral : String → ℕ → String → ℕ → Store → Activated × Store
unfolding activate
activate_referral referred amount reason now s = elim (get_referral_by_referred referred s) [
  | none ↦ (not_found, s)
  | some r ↦
      if is_pending r.status
      then (let s' : Store = activate r amount reason now s in
          (
            awarded (find_first (has_id r.id) s'.referrals)
                (find_first (λ b. b.id == s.next_bonus) s'.bonuses),
            s',
          ))
      else (unchanged r, s)
]

-- `awardReferralBonus`
unfoldable pub award_referral_bonus : ℕ → String → ℕ → String → ℕ → Store → Bonus × Store
award_referral_bonus referral_id referrer amount reason now s = (
  new_bonus s.next_bonus referral_id referrer amount reason now,
  insert_bonus referral_id referrer amount reason now s,
)

-- ===== src/SecondaryRoyalty/Sale.antt =====
-- What `POST /` of backend/src/routes/secondary-royalty.js records.
use stellar_royalty_splitter.Prelude.{
  Option-cases, ℕ, ◌+◌, ◌*◌, ◌/◌, ◌≤◌, ◌<◌, ◌≡◌, refl, String, Bool, true, false, Option, none,
  some, List, [], ◌∷◌, ◌++◌, ◌==◌, nat_eq, string_eq, ==_self, any, Bool-cases, inl, inr, arith,
}
use mathlib.Core.Path.{subst}
use stellar_royalty_splitter.Prelude.Text.{Text}
use stellar_royalty_splitter.SecondaryRoyalty.Store.{
  SecondarySale, NewSale, is_same_sale, new_sale, record_secondary_sale,
}
use stellar_royalty_splitter.SecondaryRoyalty.Routes.{
  World, Reply, failed, royalty_is_zero, conflict, recorded, rate_set, distributed_to, post_sale,
}

-- The sale of a request, pending, with the royalty and the rate.
abbrev pub IsSaleOf : NewSale → ℕ → ℕ → Text → SecondarySale → Type 0
IsSaleOf d amount rate now sale =
    (sale.contract_id ≡ d.contract_id)
    × (sale.nft_id ≡ d.nft_id)
    × (sale.previous_owner ≡ d.previous_owner)
    × (sale.new_owner ≡ d.new_owner)
    × (sale.sale_price ≡ d.sale_price)
    × (sale.sale_token ≡ d.sale_token)
    × (sale.royalty_amount ≡ amount)
    × (sale.royalty_rate ≡ rate)
    × (sale.distributed ≡ false)
    × (sale.timestamp ≡ now)

-- What an answer says of the sale.
abbrev Recorded : NewSale → ℕ → Text → World → Reply → World → Type 0
Recorded d rate now before (recorded xdr id amount used) after =
    (used ≡ rate)
    × (1 ≤ amount)
    × (amount * 10000 ≤ d.sale_price * rate)
    × (d.sale_price * rate < (amount + 1) * 10000)
    × (sale : SecondarySale) × (after.royalties.sales ≡ before.royalties.sales ++ (sale ∷ []))
    × IsSaleOf d amount rate now sale
    × (any (is_same_sale d) before.royalties.sales ≡ false)
Recorded d rate now before failed after = Unit
Recorded d rate now before royalty_is_zero after = Unit
Recorded d rate now before conflict after = Unit
Recorded d rate now before (rate_set xdr id) after = Unit
Recorded d rate now before (distributed_to xdr id number total) after = Unit

whole_part : (n : ℕ) → (n / 10000 * 10000 ≤ n) × (n < (n / 10000 + 1) * 10000)
whole_part n = (omega arith, omega arith)

post_sale-Recorded :
    (rate : ℕ) (xdr : Option String) (wallet : String) (d : NewSale) (now : Text) (w : World)
    → let p = post_sale (some rate) xdr wallet d now w in Recorded d rate now w p.0 p.1
unfolding post_sale record_secondary_sale
post_sale-Recorded rate xdr wallet d now w =
    let amount = d.sale_price * rate / 10000 in
    elim (Bool-cases (amount == 0)) [
      | inl zero ↦ rw zero tt
      | inr some_royalty ↦ elim (Bool-cases (any (is_same_sale d) w.royalties.sales)) [
        | inl old ↦ rw (some_royalty, old) tt
        | inr new ↦ elim (Option-cases xdr) [
          | inl not_built ↦ rw (some_royalty, new, not_built) tt
          | inr (x, built) ↦
              let (low, high) = whole_part (d.sale_price * rate) in
              rw (some_royalty, new, built)
                (
                  refl,
                  ground arith,
                  low,
                  high,
                  _,
                  refl,
                  (refl, refl, refl, refl, refl, refl, refl, refl, refl, refl),
                  new,
                )
        ]
      ]
    ]

-- A sale that is answered by a transaction has a royalty of at least 1, which is the rate's share of the
-- price in basis points, rounded down; one sale with the values of the request, this royalty and this
-- rate is recorded, as pending, and none with these values was recorded before.
pub post_sale_records :
    (rate : ℕ) (xdr : Option String) (wallet : String) (d : NewSale) (now : Text) (w : World)
    (x : String) (id amount used : ℕ)
    → (post_sale (some rate) xdr wallet d now w).0 ≡ recorded x id amount used
    → let after = (post_sale (some rate) xdr wallet d now w).1 in
      (used ≡ rate)
      × (1 ≤ amount)
      × (amount * 10000 ≤ d.sale_price * rate)
      × (d.sale_price * rate < (amount + 1) * 10000)
      × (sale : SecondarySale) × (after.royalties.sales ≡ w.royalties.sales ++ (sale ∷ []))
      × IsSaleOf d amount rate now sale
      × (any (is_same_sale d) w.royalties.sales ≡ false)
post_sale_records rate xdr wallet d now w x id amount used h =
    subst (λ r. Recorded d rate now w r (post_sale (some rate) xdr wallet d now w).1) h
      (post_sale-Recorded rate xdr wallet d now w)

any-append :
    (p : SecondarySale → Bool) (sales : List SecondarySale) (s : SecondarySale)
    → p s ≡ true
    → any p (sales ++ (s ∷ [])) ≡ true
any-append p [] s h = rw h refl
any-append p (y ∷ sales) s h = ground (arith, any-append p sales s h)

same_as_new :
    (id : ℕ) (d : NewSale) (amount rate : ℕ) (now : Text)
    → is_same_sale d (new_sale id d amount rate none now) ≡ true
same_as_new id d amount rate now =
    rw
      (
        ==_self d.contract_id,
        ==_self d.nft_id,
        ==_self d.previous_owner,
        ==_self d.new_owner,
        ==_self d.sale_price,
        ==_self d.sale_token,
      )
      refl

listed_again :
    (rate : ℕ) (xdr : Option String) (wallet : String) (d : NewSale) (now : Text) (w : World)
    → (d.sale_price * rate / 10000 == 0) ≡ false
    → any (is_same_sale d) (post_sale (some rate) xdr wallet d now w).1.royalties.sales ≡ true
unfolding post_sale record_secondary_sale
listed_again rate xdr wallet d now w some_royalty =
    let amount = d.sale_price * rate / 10000 in
    let added =
      any-append (is_same_sale d) w.royalties.sales
        (new_sale w.royalties.next_sale d amount rate none now)
        (same_as_new w.royalties.next_sale d amount rate now) in
    elim (Bool-cases (any (is_same_sale d) w.royalties.sales)) [
      | inl old ↦ rw (some_royalty, old) old
      | inr new ↦ elim (Option-cases xdr) [
        | inl not_built ↦ rw (some_royalty, new, not_built) added
        | inr (x, built) ↦ rw (some_royalty, new, built) added
      ]
    ]

refused_again :
    (rate : ℕ) (xdr : Option String) (wallet : String) (d : NewSale) (now : Text) (w : World)
    → (d.sale_price * rate / 10000 == 0) ≡ false
    → any (is_same_sale d) w.royalties.sales ≡ true
    → let (reply, after) = post_sale (some rate) xdr wallet d now w in
      (reply ≡ conflict) × (after.royalties ≡ w.royalties)
unfolding post_sale record_secondary_sale
refused_again rate xdr wallet d now w some_royalty old = rw (some_royalty, old) (refl, refl)

-- After a request for a sale with a royalty, every later one for the same sale is answered by a conflict
-- and changes no sale: also if the transaction of the first one could not be built, so that its client
-- never gets one.
pub post_sale_again :
    (rate later_rate : ℕ) (xdr later_xdr : Option String) (wallet later_wallet : String)
    (d : NewSale) (now later : Text) (w : World)
    → (d.sale_price * rate / 10000 == 0) ≡ false
    → (d.sale_price * later_rate / 10000 == 0) ≡ false
    → let first = (post_sale (some rate) xdr wallet d now w).1 in
      let (reply, after) = post_sale (some later_rate) later_xdr later_wallet d later first in
      (reply ≡ conflict) × (after.royalties ≡ first.royalties)
post_sale_again rate later_rate xdr later_xdr wallet later_wallet d now later w h g =
    refused_again later_rate later_xdr later_wallet d later
      (post_sale (some rate) xdr wallet d now w).1 g (listed_again rate xdr wallet d now w h)

-- ===== src/History/Newest.antt =====
-- The order of the listings of backend/src/database/transactions.js: the newest row first, and no two
-- rows tie, as the id is a primary key.
use stellar_royalty_splitter.Prelude.{
  ◌≡◌, ◌≢◌, refl, sym, ◌∙◌, Bool, true, false, List, [], ◌∷◌, ltb, nat_eq, arith, inl, inr, keep,
  All,
}
use mathlib.Core.Path.{subst}
use mathlib.Core.Bool.{true≢false}
use stellar_royalty_splitter.Prelude.Sorting.{sort, WeakOrder, IsSorted, sort-IsSorted}
use stellar_royalty_splitter.Prelude.Sorting.Chain.{Pairwise, Pairwise-keep, Pairwise-sort, IsChain}
use stellar_royalty_splitter.Prelude.Text.{text_key, same_text_to, same_text_self}
use stellar_royalty_splitter.Prelude.TextOrder.{
  text_less, text_less_asym, text_less_trans, text_less_self, text_less_apart, text_cases,
}
use stellar_royalty_splitter.History.Store.{Transaction, newer}

-- `PRIMARY KEY`: no id stands twice.
abbrev pub DistinctIds : List Transaction → Type 0
DistinctIds = Pairwise (λ (a b : Transaction). a.id ≢ b.id)

newer_asym : (x y : Transaction) → newer y x ≡ true → newer x y ≡ false
unfolding newer
newer_asym x y h = ground (
  arith,
  text_less_asym x.timestamp y.timestamp,
  text_less_asym y.timestamp x.timestamp,
  same_text_to x.timestamp y.timestamp,
  same_text_to y.timestamp x.timestamp,
)

-- If a text lies behind another one, its row comes first whatever the ids are.
newer_by_text : (x z : Transaction) → text_less z.timestamp x.timestamp ≡ true → newer z x ≡ false
unfolding newer
newer_by_text x z h = let (later, other) = text_less_apart z.timestamp x.timestamp h in ground arith

newer_same_text : (x z : Transaction) → x.timestamp ≡ z.timestamp → newer z x ≡ ltb x.id z.id
unfolding newer
newer_same_text x z e = rw (e, text_less_self, same_text_self) refl

newer_not_text : (x z : Transaction) → newer z x ≡ false → text_less x.timestamp z.timestamp ≡ false
unfolding newer
newer_not_text x z h = ground arith

newer_not_between :
    (x y z : Transaction) → newer z y ≡ false → newer y x ≡ false → newer z x ≡ false
newer_not_between x y z h g = elim (text_cases y.timestamp z.timestamp) [
  | inl a ↦ absurd (true≢false (sym a ∙ newer_not_text y z h))
  | inr (inl a) ↦ elim (text_cases x.timestamp y.timestamp) [
    | inl b ↦ absurd (true≢false (sym b ∙ newer_not_text x y g))
    | inr (inl b) ↦
        ground (arith, newer_same_text x z (b ∙ a), newer_same_text x y b, newer_same_text y z a)
    | inr (inr b) ↦ newer_by_text x z (subst (λ t. text_less t x.timestamp ≡ true) a b)
  ]
  | inr (inr a) ↦ elim (text_cases x.timestamp y.timestamp) [
    | inl b ↦ absurd (true≢false (sym b ∙ newer_not_text x y g))
    | inr (inl b) ↦ newer_by_text x z (subst (λ t. text_less z.timestamp t ≡ true) (sym b) a)
    | inr (inr b) ↦ newer_by_text x z (text_less_trans z.timestamp y.timestamp x.timestamp a b)
  ]
]

pub newer-WeakOrder : WeakOrder newer
newer-WeakOrder = record { before_asym = newer_asym; not_between = newer_not_between }

newer_total : (x z : Transaction) → newer z x ≡ false → x.id ≢ z.id → newer x z ≡ true
unfolding newer
newer_total x z h ids = elim (text_cases x.timestamp z.timestamp) [
  | inl a ↦ absurd (true≢false (sym a ∙ newer_not_text x z h))
  | inr (inl a) ↦ rw (newer_same_text z x (sym a)) (ground (arith, newer_same_text x z a))
  | inr (inr a) ↦ rw a refl
]

both-All :
    (x : Transaction) (zs : List Transaction)
    → All (λ z. newer z x ≡ false) zs
    → All (λ (z : Transaction). x.id ≢ z.id) zs
    → All (λ z. newer x z ≡ true) zs
both-All x [] hs gs = tt
both-All x (z ∷ zs) (h, hs) (g, gs) = (newer_total x z h g, both-All x zs hs gs)

sorted-IsChain : (xs : List Transaction) → IsSorted newer xs → DistinctIds xs → IsChain newer xs
sorted-IsChain [] h g = tt
sorted-IsChain (x ∷ xs) (h, hs) (g, gs) = (both-All x xs h g, sorted-IsChain xs hs gs)

-- The rows of a listing, sorted.
pub sort-IsChain :
    (p : Transaction → Bool) (xs : List Transaction)
    → DistinctIds xs
    → IsChain newer (sort newer (keep p xs))
sort-IsChain p xs distinct =
    sorted-IsChain (sort newer (keep p xs)) (sort-IsSorted newer-WeakOrder (keep p xs)) (
      Pairwise-sort newer _ (λ (a b : Transaction) (ne : a.id ≢ b.id) e. ne (sym e)) (keep p xs)
        (Pairwise-keep _ p xs distinct))

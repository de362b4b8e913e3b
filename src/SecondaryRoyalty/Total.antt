-- ===== src/SecondaryRoyalty/Total.antt =====
-- Sums of royalties over the sales of backend/src/database/secondary-royalties.js, and what marking
-- some of them does to the sum of the pending ones.
use stellar_royalty_splitter.Prelude.{
  ℕ, zero, suc, ◌+◌, ◌≡◌, ◌≢◌, refl, sym, ap, ◌∙◌, Bool, false, not, List, [], ◌∷◌, ◌++◌, map, All,
  ◌==◌, nat_eq, ==_self, eq_of_==, keep, update_where, take, Bool-cases, inl, inr, arith,
}
use stellar_royalty_splitter.Prelude.Sorting.{sort, insert, WeakOrder, keep-sort}
use stellar_royalty_splitter.Prelude.Sorting.Chain.{Pairwise, Pairwise-keep, Pairwise-sort}
use stellar_royalty_splitter.SecondaryRoyalty.Store.{SecondarySale, is_one_of, marked, sum_of}

abbrev pub royalties : List SecondarySale → ℕ
royalties = sum_of (λ (s : SecondarySale). s.royalty_amount)

-- `PRIMARY KEY`: no id stands twice.
abbrev pub DistinctSales : List SecondarySale → Type 0
DistinctSales = Pairwise (λ (a b : SecondarySale). a.id ≢ b.id)

abbrev pub ids_of : List SecondarySale → List ℕ
ids_of = map (λ (s : SecondarySale). s.id)

royalties-append : (xs ys : List SecondarySale) → royalties (xs ++ ys) ≡ royalties xs + royalties ys
royalties-append [] ys = omega arith
royalties-append (x ∷ xs) ys = omega (arith, royalties-append xs ys)

royalties-insert :
    (before : SecondarySale → SecondarySale → Bool) (x : SecondarySale) (xs : List SecondarySale)
    → royalties (insert before x xs) ≡ x.royalty_amount + royalties xs
unfolding insert
royalties-insert before x [] = refl
royalties-insert before x (y ∷ ys) = ground (arith, royalties-insert before x ys)

royalties-sort :
    (before : SecondarySale → SecondarySale → Bool) (xs : List SecondarySale)
    → royalties (sort before xs) ≡ royalties xs
unfolding sort
royalties-sort before [] = refl
royalties-sort before (x ∷ xs) =
    omega (arith, royalties-insert before x (sort before xs), royalties-sort before xs)

royalties-split :
    (p : SecondarySale → Bool) (xs : List SecondarySale)
    → royalties xs ≡ royalties (keep p xs) + royalties (keep (λ x. not (p x)) xs)
royalties-split p [] = omega arith
royalties-split p (x ∷ xs) = ground (arith, royalties-split p xs)

-- Marked sales are pending no more.
keep-update_where :
    (q m : SecondarySale → Bool) (xs : List SecondarySale)
    → ((x : SecondarySale) → q (marked x) ≡ false)
    → keep q (update_where m marked xs) ≡ keep (λ x. not (m x)) (keep q xs)
keep-update_where q m [] h = refl
keep-update_where q m (x ∷ xs) h = ground (arith, h x, keep-update_where q m xs h)

keep_none : (xs : List SecondarySale) → keep (is_one_of []) xs ≡ []
keep_none [] = refl
keep_none (x ∷ xs) = keep_none xs

keep_skip :
    (x : SecondarySale) (ids : List ℕ) (ys : List SecondarySale)
    → All (λ (y : SecondarySale). x.id ≢ y.id) ys
    → keep (is_one_of (x.id ∷ ids)) ys ≡ keep (is_one_of ids) ys
keep_skip x ids [] h = refl
keep_skip x ids (y ∷ ys) (h, hs) = elim (Bool-cases (x.id == y.id)) [
  | inl same ↦ absurd (h (eq_of_== x.id y.id same))
  | inr other ↦ rw (other, keep_skip x ids ys hs) refl
]

-- Of sales with distinct ids, those with the ids of a first part are that part.
pub keep_first_part :
    (n : ℕ) (xs : List SecondarySale)
    → DistinctSales xs
    → keep (is_one_of (ids_of (take n xs))) xs ≡ take n xs
keep_first_part zero xs h = keep_none xs
keep_first_part (suc n) [] h = refl
keep_first_part (suc n) (x ∷ xs) (h, hs) =
    rw (==_self x.id, keep_skip x (ids_of (take n xs)) xs h, keep_first_part n xs hs) refl

module _ (q : SecondarySale → Bool) (before : SecondarySale → SecondarySale → Bool) where
  -- Marking the first sales of the sorted pending ones takes their royalties from the pending sum.
  pub royalties-update_where :
      WeakOrder before
      → ((x : SecondarySale) → q (marked x) ≡ false)
      → (n : ℕ) (sales : List SecondarySale) → DistinctSales sales
      → let chosen = take n (sort before (keep q sales)) in
        royalties (keep q sales)
        ≡ royalties chosen
          + royalties (keep q (update_where (is_one_of (ids_of chosen)) marked sales))
  royalties-update_where w unmarked n sales distinct =
      let sorted = sort before (keep q sales) in
      let chosen = take n sorted in
      let m = is_one_of (ids_of chosen) in
      let sorted_distinct : DistinctSales sorted =
        Pairwise-sort before _ (λ (a b : SecondarySale) (ne : a.id ≢ b.id) e. ne (sym e))
          (keep q sales) (Pairwise-keep _ q sales distinct) in
      let picked : royalties (keep m (keep q sales)) ≡ royalties chosen =
        sym (royalties-sort before (keep m (keep q sales)))
        ∙ (ap royalties (sym (keep-sort w m (keep q sales)))
            ∙ ap royalties (keep_first_part n sorted sorted_distinct)) in
      let left = ap royalties (keep-update_where q m sales unmarked) in
      omega (arith, royalties-split m (keep q sales), picked, left)

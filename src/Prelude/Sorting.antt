-- ===== src/Prelude/Sorting.antt =====
-- `ORDER BY`: the stable sort of the rows by a Boolean order.
pub mod Chain
use stellar_royalty_splitter.Prelude.Tests.{if◌then◌else◌, Bool-cases}
use stellar_royalty_splitter.Prelude.Lists.{length, keep, All}
use Prim.Native.Nat.{ℕ, zero, suc, ◌+◌}
use mathlib.Core.Path.{◌≡◌, refl, sym, ap, ◌∙◌}
use mathlib.Core.Logic.{inl, inr}
use mathlib.Core.Bool.{Bool, true, false, ◌||◌}
use mathlib.Core.List.{List, [], ◌∷◌, ◌++◌}
use native.Mathlib.Omega.{arith}

module _ {ℓ} {A : Type ℓ} (before : A → A → Bool) where
  -- A row goes behind the rows that come before it, and in front of the first one that does not.
  unfoldable pub insert : A → List A → List A
  insert x [] = x ∷ []
  insert x (y ∷ ys) = let rest = insert x ys in if before y x then y ∷ rest else x ∷ y ∷ ys

  unfoldable pub sort : List A → List A
  sort [] = []
  sort (x ∷ xs) = insert x (sort xs)

  -- No row stands behind one that it comes before.
  abbrev pub IsSorted : List A → Type ℓ
  IsSorted [] = Unit
  IsSorted (x ∷ xs) = All (λ z. before z x ≡ false) xs × IsSorted xs

  pub length-insert : (x : A) (xs : List A) → length (insert x xs) ≡ suc (length xs)
  unfolding insert
  length-insert x [] = refl
  length-insert x (y ∷ ys) = ground (arith, length-insert x ys)

  pub length-sort : (xs : List A) → length (sort xs) ≡ length xs
  unfolding sort
  length-sort [] = refl
  length-sort (x ∷ xs) = omega (arith, length-insert x (sort xs), length-sort xs)

  All-insert {κ} : (P : A → Type κ) (x : A) (xs : List A) → P x → All P xs → All P (insert x xs)
  unfolding insert
  All-insert P x [] p ps = (p, tt)
  All-insert P x (y ∷ ys) p (q, qs) = elim (Bool-cases (before y x)) [
    | inl h ↦ rw h (q, All-insert P x ys p qs)
    | inr h ↦ rw h (p, (q, qs))
  ]

module _ {ℓ} {A : Type ℓ} where
  pub keep-All {κ} : (P : A → Type κ) (p : A → Bool) (xs : List A) → All P xs → All P (keep p xs)
  keep-All P p [] h = tt
  keep-All P p (x ∷ xs) (h, hs) = elim (Bool-cases (p x)) [
    | inl is ↦ rw is (h, keep-All P p xs hs)
    | inr is_not ↦ rw is_not (keep-All P p xs hs)
  ]

-- What `ORDER BY` asks of its order, where rows may tie.
pub record WeakOrder {ℓ} {A : Type ℓ} (before : A → A → Bool) : Type ℓ where
  pub before_asym : (x y : A) → before y x ≡ true → before x y ≡ false
  pub not_between : (x y z : A) → before z y ≡ false → before y x ≡ false → before z x ≡ false

module _ {ℓ} {A : Type ℓ} {before : A → A → Bool} (w : WeakOrder before) where
  pub before_self : (x : A) → before x x ≡ false
  before_self x = elim (Bool-cases (before x x)) [
    | inr is_not ↦ is_not
    | inl is ↦ w.before_asym x x is
  ]

  not_between-All :
      (x y : A) (zs : List A)
      → before y x ≡ false
      → All (λ z. before z y ≡ false) zs
      → All (λ z. before z x ≡ false) zs
  not_between-All x y [] h hs = tt
  not_between-All x y (z ∷ zs) h (g, hs) = (w.not_between x y z g h, not_between-All x y zs h hs)

  insert-IsSorted :
      (x : A) (xs : List A) → IsSorted before xs → IsSorted before (insert before x xs)
  unfolding insert
  insert-IsSorted x [] h = (tt, tt)
  insert-IsSorted x (y ∷ ys) (low, h) = elim (Bool-cases (before y x)) [
    | inl first ↦
        rw first (All-insert before _ x ys (w.before_asym x y first) low, insert-IsSorted x ys h)
    | inr later ↦ rw later ((later, not_between-All x y ys later low), (low, h))
  ]

  pub sort-IsSorted : (xs : List A) → IsSorted before (sort before xs)
  unfolding sort
  sort-IsSorted [] = tt
  sort-IsSorted (x ∷ xs) = insert-IsSorted x (sort before xs) (sort-IsSorted xs)

  -- A row that nothing comes before stands in front.
  insert_first :
      (x : A) (xs : List A) → All (λ z. before z x ≡ false) xs → insert before x xs ≡ x ∷ xs
  unfolding insert
  insert_first x [] h = refl
  insert_first x (y ∷ ys) (h, hs) = rw h refl

  keep-insert :
      (p : A → Bool) (x : A) (xs : List A)
      → IsSorted before xs
      → keep p (insert before x xs) ≡ (if p x then insert before x (keep p xs) else keep p xs)
  unfolding insert
  keep-insert p x [] h = ground arith
  keep-insert p x (y ∷ ys) (low, h) =
      let keeps = keep-insert p x ys h in
      elim (Bool-cases (before y x)) [
        | inl first ↦ ground (arith, keeps)
        | inr later ↦
            let front =
              insert_first x (keep p ys) (keep-All _ p ys (not_between-All x y ys later low)) in
            ground (arith, front)
      ]

  -- `WHERE` and `ORDER BY` commute.
  pub keep-sort : (p : A → Bool) (xs : List A) → keep p (sort before xs) ≡ sort before (keep p xs)
  unfolding sort
  keep-sort p [] = refl
  keep-sort p (x ∷ xs) =
      ground (arith, keep-insert p x (sort before xs) (sort-IsSorted xs), keep-sort p xs)

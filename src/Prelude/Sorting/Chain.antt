-- ===== src/Prelude/Sorting/Chain.antt =====
-- Sorted rows without ties, as where the order ends with a primary key.
use stellar_royalty_splitter.Prelude.Tests.{Bool-cases}
use stellar_royalty_splitter.Prelude.Lists.{keep, drop, All}
use stellar_royalty_splitter.Prelude.Sorting.{
  insert, sort, WeakOrder, before_self, All-insert, keep-All,
}
use Prim.Native.Nat.{ℕ, zero, suc}
use mathlib.Core.Path.{◌≡◌, refl, ap, subst}
use mathlib.Core.Logic.{inl, inr}
use mathlib.Core.Bool.{Bool, true, false}
use mathlib.Core.List.{List, [], ◌∷◌}
use native.Mathlib.Omega.{arith}

module _ {ℓ} {A : Type ℓ} where
  -- What holds between any two rows.
  abbrev pub Pairwise {κ} : (A → A → Type κ) → List A → Type κ
  Pairwise R [] = Unit
  Pairwise R (x ∷ xs) = All (R x) xs × Pairwise R xs

  All-map {κ μ} :
      {P : A → Type κ} {Q : A → Type μ} (f : (x : A) → P x → Q x) (xs : List A)
      → All P xs
      → All Q xs
  All-map f [] h = tt
  All-map f (x ∷ xs) (h, hs) = (f x h, All-map f xs hs)

  pub Pairwise-keep {κ} :
      (R : A → A → Type κ) (p : A → Bool) (xs : List A) → Pairwise R xs → Pairwise R (keep p xs)
  Pairwise-keep R p [] h = tt
  Pairwise-keep R p (x ∷ xs) (h, hs) = elim (Bool-cases (p x)) [
    | inl is ↦ rw is (keep-All _ p xs h, Pairwise-keep R p xs hs)
    | inr is_not ↦ rw is_not (Pairwise-keep R p xs hs)
  ]

  Pairwise-insert {κ} :
      (before : A → A → Bool) (R : A → A → Type κ)
      → ((x y : A) → R x y → R y x)
      → (x : A) (xs : List A) → All (R x) xs
      → Pairwise R xs
      → Pairwise R (insert before x xs)
  unfolding insert
  Pairwise-insert before R turn x [] h hs = (tt, tt)
  Pairwise-insert before R turn x (y ∷ ys) (h, hs) (g, gs) = elim (Bool-cases (before y x)) [
    | inl is ↦
        rw is (All-insert before _ x ys (turn x y h) g, Pairwise-insert before R turn x ys hs gs)
    | inr is_not ↦ rw is_not ((h, hs), (g, gs))
  ]

  All-sort {κ} :
      (before : A → A → Bool) (P : A → Type κ) (xs : List A) → All P xs → All P (sort before xs)
  unfolding sort
  All-sort before P [] h = tt
  All-sort before P (x ∷ xs) (h, hs) =
      All-insert before P x (sort before xs) h (All-sort before P xs hs)

  pub Pairwise-sort {κ} :
      (before : A → A → Bool) (R : A → A → Type κ)
      → ((x y : A) → R x y → R y x)
      → (xs : List A) → Pairwise R xs
      → Pairwise R (sort before xs)
  unfolding sort
  Pairwise-sort before R turn [] h = tt
  Pairwise-sort before R turn (x ∷ xs) (h, hs) =
      Pairwise-insert before R turn x (sort before xs) (All-sort before _ xs h)
        (Pairwise-sort before R turn xs hs)

module _ {ℓ} {A : Type ℓ} (before : A → A → Bool) where
  -- Rows that are in order and never tie.
  abbrev pub IsChain : List A → Type 0
  IsChain = Pairwise (λ x z. before x z ≡ true)

  keep_none : (x : A) (zs : List A) → All (λ z. before x z ≡ false) zs → keep (before x) zs ≡ []
  keep_none x [] h = refl
  keep_none x (z ∷ zs) (h, hs) = rw h (keep_none x zs hs)

  keep_every : (x : A) (zs : List A) → All (λ z. before x z ≡ true) zs → keep (before x) zs ≡ zs
  keep_every x [] h = refl
  keep_every x (z ∷ zs) (h, hs) = rw h (ap (λ r. z ∷ r) (keep_every x zs hs))

module _ {ℓ} {A : Type ℓ} {before : A → A → Bool} (w : WeakOrder before) where
  All-drop {κ} :
      (P : A → Type κ) (i : ℕ) (xs : List A) (x : A) (rest : List A)
      → All P xs
      → drop i xs ≡ x ∷ rest
      → P x
  All-drop P zero [] x rest h e = cc
  All-drop P zero (y ∷ ys) x rest (h, hs) e = let same : y ≡ x = cc in subst P same h
  All-drop P (suc i) [] x rest h e = cc
  All-drop P (suc i) (y ∷ ys) x rest (h, hs) e = All-drop P i ys x rest hs e

  -- The rows behind a row of a chain are the ones that it comes before.
  pub keep-behind :
      (i : ℕ) (xs : List A) (x : A) (rest : List A)
      → IsChain before xs
      → drop i xs ≡ x ∷ rest
      → keep (before x) xs ≡ rest
  keep-behind zero [] x rest h e = cc
  keep-behind zero (y ∷ ys) x rest (h, hs) e =
      ground (arith, before_self w y, keep_every before y ys h)
  keep-behind (suc i) [] x rest h e = cc
  keep-behind (suc i) (y ∷ ys) x rest (h, hs) e =
      let ahead : before y x ≡ true = All-drop _ i ys x rest h e in
      ground (arith, w.before_asym x y ahead, keep-behind i ys x rest hs e)

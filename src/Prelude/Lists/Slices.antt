-- ===== src/Prelude/Lists/Slices.antt =====
-- `LIMIT` and `OFFSET`: how `take` and `drop` fit together.
use stellar_royalty_splitter.Prelude.Lists.{length, take, drop, keep}
use Prim.Native.Nat.{ℕ, zero, suc, ◌+◌, ◌≤◌, ◌<◌, ◌-◌, min}
use mathlib.Core.Path.{◌≡◌, refl, ap, ◌∙◌}
use mathlib.Core.Bool.{Bool, true, ◌&&◌}
use mathlib.Core.Option.{Option, none, some}
use mathlib.Core.List.{List, [], ◌∷◌, ◌++◌, map}
use native.Mathlib.Omega.{arith}
use native.Mathlib.Numerals.{unary_clauses}

-- `xs[xs.length - 1]`
abbrev pub last {ℓ} : {A : Type ℓ} → List A → Option A
last [] = none
last (x ∷ []) = some x
last (x ∷ y ∷ ys) = last (y ∷ ys)

module _ {ℓ} {A : Type ℓ} where
  pub take-all : (n : ℕ) (xs : List A) → length xs ≤ n → take n xs ≡ xs
  take-all zero [] h = refl
  take-all zero (x ∷ xs) h = absurd (omega arith)
  take-all (suc n) [] h = refl
  take-all (suc n) (x ∷ xs) h = ap (λ r. x ∷ r) (take-all n xs (omega arith))

  pub take_again : (n : ℕ) (xs : List A) → take n (take (suc n) xs) ≡ take n xs
  take_again zero xs = refl
  take_again (suc n) [] = refl
  take_again (suc n) (x ∷ xs) = ap (λ r. x ∷ r) (take_again n xs)

  pub length-take_eq : (n : ℕ) (xs : List A) → length (take n xs) ≡ min n (length xs)
  length-take_eq zero xs = omega arith
  length-take_eq (suc n) [] = omega arith
  length-take_eq (suc n) (x ∷ xs) = omega (arith, length-take_eq n xs)

  pub length-drop : (n : ℕ) (xs : List A) → length (drop n xs) ≡ length xs - n
  length-drop zero xs = omega arith
  length-drop (suc n) [] = omega arith
  length-drop (suc n) (x ∷ xs) = omega (arith, length-drop n xs)

  pub drop-drop : (m n : ℕ) (xs : List A) → drop m (drop n xs) ≡ drop (n + m) xs
  drop-drop m zero xs = let same : m ≡ 0 + m = omega arith in ap (λ k. drop k xs) same
  drop-drop zero (suc n) [] = simp unary_clauses refl
  drop-drop (suc m) (suc n) [] = simp unary_clauses refl
  drop-drop m (suc n) (x ∷ xs) =
      let same : suc (n + m) ≡ suc n + m = omega arith in
      drop-drop m n xs ∙ ap (λ k. drop k (x ∷ xs)) same

  -- Every element passes `WHERE 1`.
  pub keep_and_true : (p : A → Bool) (xs : List A) → keep (λ x. p x && true) xs ≡ keep p xs
  keep_and_true p [] = refl
  keep_and_true p (x ∷ xs) = ground (arith, keep_and_true p xs)

  pub take-append-drop : (n : ℕ) (xs : List A) → take n xs ++ drop n xs ≡ xs
  take-append-drop zero xs = refl
  take-append-drop (suc n) [] = refl
  take-append-drop (suc n) (x ∷ xs) = ap (λ r. x ∷ r) (take-append-drop n xs)

  pub drop_rest :
      (i : ℕ) (xs : List A) (x : A) (rest : List A) → drop i xs ≡ x ∷ rest → drop (suc i) xs ≡ rest
  drop_rest zero [] x rest e = cc
  drop_rest zero (y ∷ ys) x rest e = cc
  drop_rest (suc i) [] x rest e = cc
  drop_rest (suc i) (y ∷ ys) x rest e = drop_rest i ys x rest e

  -- `WHERE p AND q`
  pub keep_and : (p q : A → Bool) (xs : List A) → keep (λ x. p x && q x) xs ≡ keep q (keep p xs)
  keep_and p q [] = refl
  keep_and p q (x ∷ xs) = ground (arith, keep_and p q xs)

module _ {ℓ κ} {A : Type ℓ} {B : Type κ} (f : A → B) where
  pub length-map : (xs : List A) → length (map f xs) ≡ length xs
  length-map [] = refl
  length-map (x ∷ xs) = omega (arith, length-map xs)

  pub take-map : (n : ℕ) (xs : List A) → take n (map f xs) ≡ map f (take n xs)
  take-map zero xs = refl
  take-map (suc n) [] = refl
  take-map (suc n) (x ∷ xs) = ap (λ r. f x ∷ r) (take-map n xs)

  pub append-map : (xs ys : List A) → map f xs ++ map f ys ≡ map f (xs ++ ys)
  append-map [] ys = refl
  append-map (x ∷ xs) ys = ap (λ r. f x ∷ r) (append-map xs ys)

  -- The last element of a slice, and what lies behind it.
  pub last_taken :
      (n : ℕ) (xs : List A)
      → n < length xs
      → (x : A) × (drop n xs ≡ x ∷ drop (suc n) xs) × (last (map f (take (suc n) xs)) ≡ some (f x))
  last_taken n [] h = absurd (omega arith)
  last_taken zero (x ∷ xs) h = (x, refl, refl)
  last_taken (suc n) (x ∷ []) h = absurd (omega arith)
  last_taken (suc n) (x ∷ y ∷ ys) h = last_taken n (y ∷ ys) (omega arith)

-- ===== src/Prelude/Rows.antt =====
-- The search of a table for its first row with a property, under an insert and an update.
use stellar_royalty_splitter.Prelude.Lists.{any, find_first, update_where}
use mathlib.Core.Path.{◌≡◌, refl}
use mathlib.Core.Bool.{Bool, true, false}
use mathlib.Core.Option.{none, some}
use mathlib.Core.List.{List, [], ◌∷◌, ◌++◌}
use native.Mathlib.Omega.{arith}

module _ {ℓ} {A : Type ℓ} (p : A → Bool) where
  pub find_first-append :
      (xs : List A) (x : A)
      → find_first p xs ≡ none
      → p x ≡ true
      → find_first p (xs ++ (x ∷ [])) ≡ some x
  find_first-append [] x absent is = ground arith
  find_first-append (y ∷ xs) x absent is = ground (arith, find_first-append xs x)

  pub any-find_first : (xs : List A) → any p xs ≡ false → find_first p xs ≡ none
  any-find_first [] h = refl
  any-find_first (x ∷ xs) h = ground (arith, any-find_first xs)

  pub find_first-any : (xs : List A) (x : A) → find_first p xs ≡ some x → any p xs ≡ true
  find_first-any [] x h = cc
  find_first-any (y ∷ xs) x h = ground (arith, find_first-any xs x)

  -- An update that keeps the property changes the row that is found.
  pub find_first-update_where :
      (q : A → Bool) (f : A → A) (xs : List A) (x : A)
      → ((y : A) → p (f y) ≡ p y)
      → find_first p xs ≡ some x
      → q x ≡ true
      → find_first p (update_where q f xs) ≡ some (f x)
  find_first-update_where q f [] x keeps is hit = cc
  find_first-update_where q f (y ∷ xs) x keeps is hit =
      ground (arith, keeps y, find_first-update_where q f xs x keeps)

  -- If the row that is found has a property, some row has.
  pub find_first-any_of :
      (q : A → Bool) (xs : List A) (x : A) → find_first p xs ≡ some x → q x ≡ true → any q xs ≡ true
  find_first-any_of q [] x h is = cc
  find_first-any_of q (y ∷ xs) x h is = ground (arith, find_first-any_of q xs x)

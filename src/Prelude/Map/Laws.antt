-- ===== src/Prelude/Map/Laws.antt =====
-- The laws of a `Map`, in the form that the caches and registries use.
use stellar_royalty_splitter.Prelude.Tests.{Key, ◌==◌, if◌then◌else◌, ==_self}
use stellar_royalty_splitter.Prelude.Lists.{length, keep}
use stellar_royalty_splitter.Prelude.Map.{Map, get, has, set, delete, modify, delete_first, IsValid}
use Prim.Native.Nat.{ℕ, suc, ◌≤◌}
use mathlib.Core.Path.{◌≡◌, refl}
use mathlib.Core.Bool.{Bool, true, false}
use mathlib.Core.Option.{none, some}
use mathlib.Core.List.{[], ◌∷◌}
use native.Mathlib.Omega.{arith}

module _ {ℓ κ} {K : Type ℓ} {V : Type κ} ⦃e : Key K⦄ where
  pub get-set :
      (j k : K) (v : V) (m : Map K V) → get j (set k v m) ≡ (if k == j then some v else get j m)
  unfolding get set
  get-set j k v [] = refl
  get-set j k v ((i, w) ∷ m) =
      ground (arith, e.same_iff k j, e.same_iff i k, e.same_iff i j, get-set j k v m)

  pub get-delete : (j k : K) (m : Map K V) → get j (delete k m) ≡ (if k == j then none else get j m)
  unfolding get delete
  get-delete j k [] = ground arith
  get-delete j k ((i, w) ∷ m) =
      ground (arith, e.same_iff k j, e.same_iff i k, e.same_iff i j, get-delete j k m)

  pub get-modify_self :
      (k : K) (f : V → V) (v : V) (m : Map K V)
      → get k m ≡ some v
      → get k (modify k f m) ≡ some (f v)
  unfolding get modify
  get-modify_self k f v [] h = cc
  get-modify_self k f v ((i, w) ∷ m) h = ground (arith, get-modify_self k f v m)

  pub get-modify_other :
      (j k : K) (f : V → V) (m : Map K V) → (k == j) ≡ false → get j (modify k f m) ≡ get j m
  unfolding get modify
  get-modify_other j k f [] h = refl
  get-modify_other j k f ((i, w) ∷ m) h =
      ground (arith, e.same_iff k j, e.same_iff i k, e.same_iff i j, get-modify_other j k f m h)

  pub get-modify_absent :
      (j k : K) (f : V → V) (m : Map K V) → get j m ≡ none → get j (modify k f m) ≡ none
  unfolding get modify
  get-modify_absent j k f [] h = refl
  get-modify_absent j k f ((i, w) ∷ m) h = ground (arith, get-modify_absent j k f m)

  pub has-eq-true : (k : K) (v : V) (m : Map K V) → get k m ≡ some v → has k m ≡ true
  unfolding get has
  has-eq-true k v [] h = cc
  has-eq-true k v ((i, w) ∷ m) h = ground (arith, has-eq-true k v m)

  pub has-eq-false : (k : K) (m : Map K V) → get k m ≡ none → has k m ≡ false
  unfolding get has
  has-eq-false k [] h = refl
  has-eq-false k ((i, w) ∷ m) h = ground (arith, has-eq-false k m)

  pub length-delete : (k : K) (m : Map K V) → length (delete k m) ≤ length m
  unfolding delete
  length-delete k [] = omega arith
  length-delete k ((i, w) ∷ m) = ground (arith, length-delete k m)

  -- Deleting the first key makes room, whatever stands behind it.
  pub length-delete_first : (m : Map K V) (n : ℕ) → length m ≤ suc n → length (delete_first m) ≤ n
  unfolding delete_first
  length-delete_first [] n h = omega arith
  length-delete_first ((i, w) ∷ m) n h = ground (arith, length-delete i m, ==_self i)

  pub length-set : (k : K) (v : V) (m : Map K V) → length (set k v m) ≤ suc (length m)
  unfolding set
  length-set k v [] = omega arith
  length-set k v ((i, w) ∷ m) = ground (arith, length-set k v m)

  pub set-IsValid : (k : K) (v : V) (m : Map K V) → IsValid m → IsValid (set k v m)
  unfolding set get
  set-IsValid k v [] h = (refl, tt)
  set-IsValid k v ((i, w) ∷ m) h =
      ground (arith, e.same_iff i k, e.same_iff k i, set-IsValid k v m h.1, get-set i k v m)

  pub delete-IsValid : (k : K) (m : Map K V) → IsValid m → IsValid (delete k m)
  unfolding delete
  delete-IsValid k [] h = tt
  delete-IsValid k ((i, w) ∷ m) h =
      ground (arith, e.same_iff i k, e.same_iff k i, delete-IsValid k m h.1, get-delete i k m)

  pub delete_first-IsValid : (m : Map K V) → IsValid m → IsValid (delete_first m)
  unfolding delete_first
  delete_first-IsValid [] h = tt
  delete_first-IsValid ((i, w) ∷ m) h = delete-IsValid i ((i, w) ∷ m) h

  pub get-keep-none :
      (p : K × V → Bool) (k : K) (m : Map K V) → get k m ≡ none → get k (keep p m) ≡ none
  unfolding get
  get-keep-none p k [] h = refl
  get-keep-none p k ((i, w) ∷ m) h = ground (arith, get-keep-none p k m)

  pub keep-IsValid : (p : K × V → Bool) (m : Map K V) → IsValid m → IsValid (keep p m)
  keep-IsValid p [] h = tt
  keep-IsValid p ((i, w) ∷ m) h = ground (arith, keep-IsValid p m h.1, get-keep-none p i m h.0)

  pub get-delete_first-none : (k : K) (m : Map K V) → get k m ≡ none → get k (delete_first m) ≡ none
  unfolding delete_first
  get-delete_first-none k [] h = h
  get-delete_first-none k ((i, w) ∷ m) h = rw (get-delete k i ((i, w) ∷ m), h) (ground arith)

-- ===== src/Prelude/Map.antt =====
-- A JavaScript `Map`: an association list in insertion order, with distinct keys.
pub mod Laws
pub mod Cases
pub mod Retention
use stellar_royalty_splitter.Prelude.Tests.{Key, ◌==◌, if◌then◌else◌}
use stellar_royalty_splitter.Prelude.Lists.{length}
use Prim.Native.Nat.{ℕ}
use mathlib.Core.Path.{◌≡◌}
use mathlib.Core.Bool.{Bool, true, false}
use mathlib.Core.Option.{Option, none, some}
use mathlib.Core.List.{List, [], ◌∷◌}

abbrev pub Map {ℓ κ} : Type ℓ → Type κ → Type (ℓ ⊔ κ)
Map K V = List (K × V)

module _ {ℓ κ} {K : Type ℓ} {V : Type κ} ⦃e : Key K⦄ where
  unfoldable pub get : K → Map K V → Option V
  get k [] = none
  get k ((j, v) ∷ m) = if j == k then some v else get k m

  unfoldable pub has : K → Map K V → Bool
  has k [] = false
  has k ((j, v) ∷ m) = if j == k then true else has k m

  -- `m.set(k, v)` keeps the place of a key that is there, and else appends.
  unfoldable pub set : K → V → Map K V → Map K V
  set k v [] = (k, v) ∷ []
  set k v ((j, w) ∷ m) = if j == k then (j, v) ∷ m else (j, w) ∷ set k v m

  unfoldable pub delete : K → Map K V → Map K V
  delete k [] = []
  delete k ((j, w) ∷ m) = let rest = delete k m in if j == k then rest else (j, w) ∷ rest

  -- The update of the row whose key is `k`.
  unfoldable pub modify : K → (V → V) → Map K V → Map K V
  modify k f [] = []
  modify k f ((j, w) ∷ m) =
      let rest = modify k f m in (if j == k then (j, f w) ∷ m else (j, w) ∷ rest)

  -- `m.delete(m.keys().next().value)`
  unfoldable pub delete_first : Map K V → Map K V
  unfolding delete
  delete_first [] = []
  delete_first ((j, w) ∷ m) = delete j ((j, w) ∷ m)

  -- No key stands twice.
  abbrev pub IsValid : Map K V → Type κ
  IsValid [] = Unit
  IsValid ((j, v) ∷ m) = (get j m ≡ none) × IsValid m

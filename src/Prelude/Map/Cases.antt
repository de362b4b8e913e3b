-- ===== src/Prelude/Map/Cases.antt =====
-- What a lookup in a changed `Map` can come from.
use stellar_royalty_splitter.Prelude.Tests.{Key, ◌==◌, eq_of_==, Bool-cases, Option-cases}
use stellar_royalty_splitter.Prelude.Map.{Map, get, set, delete, modify}
use stellar_royalty_splitter.Prelude.Map.Laws.{
  get-set, get-delete, get-modify_self, get-modify_other, get-modify_absent,
}
use mathlib.Core.Path.{subst, ◌≡◌, sym, ◌∙◌}
use mathlib.Core.Logic.{◌⊎◌, inl, inr}
use mathlib.Core.Bool.{false}
use mathlib.Core.Option.{some}
use native.Mathlib.Omega.{arith}

module _ {ℓ κ} {K : Type ℓ} {V : Type κ} ⦃e : Key K⦄ where
  pub get-set_cases :
      (j k : K) (v u : V) (m : Map K V)
      → get j (set k v m) ≡ some u
      → ((k ≡ j) × (v ≡ u)) ⊎ (((k == j) ≡ false) × (get j m ≡ some u))
  get-set_cases j k v u m h = ground (arith, e.same_iff k j, get-set j k v m)

  pub get-delete_cases :
      (j k : K) (u : V) (m : Map K V)
      → get j (delete k m) ≡ some u
      → ((k == j) ≡ false) × (get j m ≡ some u)
  get-delete_cases j k u m h = ground (arith, get-delete j k m)

  pub get-modify_cases :
      (j k : K) (f : V → V) (u : V) (m : Map K V)
      → get j (modify k f m) ≡ some u
      → ((v : V) × (k ≡ j) × (get j m ≡ some v) × (f v ≡ u))
        ⊎ (((k == j) ≡ false) × (get j m ≡ some u))
  get-modify_cases j k f u m h = elim (Bool-cases (k == j)) [
    | inr other ↦ inr (other, sym (get-modify_other j k f m other) ∙ h)
    | inl is ↦
        let same = eq_of_== k j is in
        elim (Option-cases (get j m)) [
          | inl absent ↦ ground (arith, get-modify_absent j k f m absent)
          | inr (v, there) ↦
              let changed : get j (modify k f m) ≡ some (f v) =
                subst (λ i. get j (modify i f m) ≡ some (f v)) (sym same)
                  (get-modify_self j f v m there) in
              inl (v, same, there, ground arith)
        ]
  ]

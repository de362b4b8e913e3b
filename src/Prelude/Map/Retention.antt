-- ===== src/Prelude/Map/Retention.antt =====
-- How long an entry stays in a bounded map that drops its oldest key: an entry with at most `n`
-- entries behind it survives until `n` reaches the capacity.
use stellar_royalty_splitter.Prelude.Tests.{Key, ◌==◌, ==_self}
use stellar_royalty_splitter.Prelude.Lists.{length, keep, length-keep}
use stellar_royalty_splitter.Prelude.Map.{Map, get, set, delete, delete_first}
use stellar_royalty_splitter.Prelude.Map.Laws.{length-delete, length-set}
use Prim.Native.Nat.{ℕ, suc, ◌≤◌, ◌<◌}
use mathlib.Core.Path.{◌≡◌, refl}
use mathlib.Core.Logic.{◌⊎◌, inl, inr}
use mathlib.Core.Bool.{Bool, true, false}
use mathlib.Core.Option.{none, some}
use mathlib.Core.List.{[], ◌∷◌}
use native.Mathlib.Omega.{arith}

module _ {K V : Type 0} ⦃e : Key K⦄ (k : K) (v : V) where
  -- The key `k` has the value `v`, and at most `n` entries stand behind it.
  abbrev pub Retains : ℕ → Map K V → Type 0
  Retains n [] = ⊥
  Retains n ((j, w) ∷ m) =
      ((j == k) ≡ true) × (w ≡ v) × (length m ≤ n) ⊎ ((j == k) ≡ false) × Retains n m

  pub get_of_Retains : (n : ℕ) (m : Map K V) → Retains n m → get k m ≡ some v
  unfolding get
  get_of_Retains n [] h = absurd h
  get_of_Retains n ((j, w) ∷ m) (inl h) = ground arith
  get_of_Retains n ((j, w) ∷ m) (inr h) = ground (arith, get_of_Retains n m h.1)

  pub Retains-set_self : (m : Map K V) → get k m ≡ none → Retains 0 (set k v m)
  unfolding set get
  Retains-set_self [] h = inl (==_self k, refl, omega arith)
  Retains-set_self ((j, w) ∷ m) h = ground (arith, Retains-set_self m)

  pub Retains-suc : (n : ℕ) (m : Map K V) → Retains n m → Retains (suc n) m
  Retains-suc n [] h = h
  Retains-suc n ((j, w) ∷ m) (inl h) = inl (h.0, h.1, omega arith)
  Retains-suc n ((j, w) ∷ m) (inr h) = inr (h.0, Retains-suc n m h.1)

  pub Retains-set :
      (n : ℕ) (i : K) (u : V) (m : Map K V)
      → (i == k) ≡ false
      → Retains n m
      → Retains (suc n) (set i u m)
  unfolding set
  Retains-set n i u [] ne h = absurd h
  Retains-set n i u ((j, w) ∷ m) ne (inl h) =
      ground (arith, length-set i u m, e.same_iff i k, e.same_iff j k, e.same_iff j i)
  Retains-set n i u ((j, w) ∷ m) ne (inr h) =
      ground (arith, Retains-set n i u m ne h.1, Retains-suc n m h.1)

  pub Retains-delete :
      (n : ℕ) (i : K) (m : Map K V) → (i == k) ≡ false → Retains n m → Retains n (delete i m)
  unfolding delete
  Retains-delete n i [] ne h = absurd h
  Retains-delete n i ((j, w) ∷ m) ne (inl h) =
      ground (arith, length-delete i m, e.same_iff i k, e.same_iff j k, e.same_iff j i)
  Retains-delete n i ((j, w) ∷ m) ne (inr h) = ground (arith, Retains-delete n i m ne h.1)

  pub Retains-delete_first :
      (n : ℕ) (m : Map K V) → suc n < length m → Retains n m → Retains n (delete_first m)
  unfolding delete_first
  Retains-delete_first n [] len h = absurd h
  Retains-delete_first n ((j, w) ∷ m) len (inl h) = absurd (omega arith)
  Retains-delete_first n ((j, w) ∷ m) len (inr h) = Retains-delete n j ((j, w) ∷ m) h.0 (inr h)

  pub Retains-keep :
      (p : K × V → Bool) (n : ℕ) (m : Map K V)
      → ((j : K) → (j == k) ≡ true → p (j, v) ≡ true)
      → Retains n m
      → Retains n (keep p m)
  Retains-keep p n [] live h = absurd h
  Retains-keep p n ((j, w) ∷ m) live (inl h) = ground (arith, length-keep p m, live j h.0)
  Retains-keep p n ((j, w) ∷ m) live (inr h) = ground (arith, Retains-keep p n m live h.1)

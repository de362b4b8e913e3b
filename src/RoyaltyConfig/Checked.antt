-- ===== src/RoyaltyConfig/Checked.antt =====
-- A row of `parseRoyaltyConfigImport` or `buildRoyaltyConfigExport`, which either passes every check or
-- adds an error.
use stellar_royalty_splitter.Prelude.{
  ℕ, suc, ◌≡◌, refl, ◌⊎◌, inl, inr, true, false, Option, some, List, [], ◌∷◌, ◌++◌, Bool-cases,
  Option-cases, length, length-append, arith,
}
use stellar_royalty_splitter.Prelude.Text.{Text, text_key}
use stellar_royalty_splitter.RoyaltyConfig.Json.{Number, is_percentage}
use stellar_royalty_splitter.RoyaltyConfig.Rows.{
  RowError, invalid_address, duplicate_address, invalid_percentage, Rows, fails, accepts, is_seen,
  checked, is_stellar_address,
}

pub longer : {A : Type 0} (x : A) (xs : List A) → length (xs ++ (x ∷ [])) ≡ suc (length xs)
longer x xs = omega (arith, length-append xs (x ∷ []))

-- What makes a row pass.
abbrev pub Passes : {A : Type 0} → Text → Option Number → Rows A → Number → Type 0
Passes address percentage r p =
    (percentage ≡ some p)
    × (is_stellar_address address ≡ true)
    × (is_seen address r.seen_addresses ≡ false)
    × (is_percentage p ≡ true)

module _ {A : Type 0} (row : ℕ) (address : Text) (entry : Number → A) where
  pub checked-accepts :
      (percentage : Option Number) (r : Rows A) (p : Number)
      → Passes address percentage r p
      → checked row address percentage entry r ≡ accepts address p (entry p) r
  checked-accepts percentage r p (e, good, new, fits) = rw (good, new, e, fits) refl

  pub checked_cases :
      (percentage : Option Number) (r : Rows A)
      → ((e : RowError) × (checked row address percentage entry r ≡ fails e r))
        ⊎ ((p : Number) × Passes address percentage r p)
  checked_cases percentage r = elim (Bool-cases (is_stellar_address address)) [
    | inr bad ↦ inl (invalid_address row, rw bad refl)
    | inl good ↦ elim (Bool-cases (is_seen address r.seen_addresses)) [
      | inl old ↦ inl (duplicate_address row address, rw (good, old) refl)
      | inr new ↦ elim (Option-cases percentage) [
        | inl nothing ↦ inl (invalid_percentage row, rw (good, new, nothing) refl)
        | inr (p, is) ↦ elim (Bool-cases (is_percentage p)) [
          | inr bad ↦ inl (invalid_percentage row, rw (good, new, is, bad) refl)
          | inl fits ↦ inr (p, (is, good, new, fits))
        ]
      ]
    ]
  ]

-- ===== src/RoyaltyConfig/Rows.antt =====
-- The loops over the collaborators in `parseRoyaltyConfigImport` and `buildRoyaltyConfigExport` of
-- frontend/src/utils/royaltyConfig.ts. JavaScript's conversions `Number` and `String` are arguments;
-- `Number` answers nothing where the result is not finite.
use stellar_royalty_splitter.Prelude.{
  ℕ, ◌+◌, Bool, Option, none, some, List, [], ◌∷◌, ◌++◌, ◌==◌, any, if◌then◌else◌,
}
use stellar_royalty_splitter.Prelude.Text.{Text, text_key, is_strkey}
use stellar_royalty_splitter.RoyaltyConfig.Json.{
  Number, Json, string, number, object, Items, no_items, item, field, is_percentage, Total, add,
}

-- `basis_points` is the text of a percentage.
pub record Collaborator : Type 0 where
  pub address : Text
  pub basis_points : Text

-- An entry of `collaborators` in a file.
pub record Entry : Type 0 where
  pub address : Text
  pub percentage : Number

pub data RowError : Type 0 where
  not_an_object : ℕ → RowError
  invalid_address : ℕ → RowError
  duplicate_address : ℕ → Text → RowError
  invalid_percentage : ℕ → RowError

-- `STELLAR_ADDRESS_RE`
unfoldable pub is_stellar_address : Text → Bool
unfolding is_strkey
is_stellar_address = is_strkey b'G'

-- The variables of a loop.
pub record Rows (A : Type 0) : Type 0 where
  pub errors : List RowError
  pub seen_addresses : List Text
  pub total : Total
  pub result : List A

abbrev pub no_rows : {A : Type 0} → Rows A
no_rows = record {
  errors = [];
  seen_addresses = [];
  total = record { top = 0; bottom = 1 };
  result = [];
}

abbrev pub fails : {A : Type 0} → RowError → Rows A → Rows A
fails e r = record r { errors = r.errors ++ (e ∷ []) }

abbrev pub accepts : {A : Type 0} → Text → Number → A → Rows A → Rows A
accepts address percentage a r = record r {
  seen_addresses = r.seen_addresses ++ (address ∷ []);
  total = add r.total percentage;
  result = r.result ++ (a ∷ []);
}

abbrev pub is_seen : Text → List Text → Bool
is_seen address seen = any (λ other. other == address) seen

-- A row whose address is a text, checked in the order of the source.
abbrev pub checked : {A : Type 0} → ℕ → Text → Option Number → (Number → A) → Rows A → Rows A
checked row address percentage entry r =
    if is_stellar_address address
    then (if is_seen address r.seen_addresses
        then fails (duplicate_address row address) r
        else elim percentage [
          | none ↦ fails (invalid_percentage row) r
          | some p ↦
              if is_percentage p
              then accepts address p (entry p) r
              else fails (invalid_percentage row) r
        ])
    else fails (invalid_address row) r

abbrev pub number_of : Option Json → Option Number
number_of (some (number n)) = some n
number_of other = none

abbrev pub import_object :
    (Number → Text) → ℕ → Option Json → Option Json → Rows Collaborator → Rows Collaborator
import_object to_text row (some (string address)) percentage r =
    checked row address (number_of percentage)
      (λ p. record { address = address; basis_points = to_text p }) r
import_object to_text row other percentage r = fails (invalid_address row) r

-- A row of the import.
abbrev pub import_row : (Number → Text) → ℕ → Json → Rows Collaborator → Rows Collaborator
import_row to_text row (object members) r =
    import_object to_text row (field "address" members) (field "percentage" members) r
import_row to_text row entry r = fails (not_an_object row) r

unfoldable pub import_rows : (Number → Text) → ℕ → Items → Rows Collaborator → Rows Collaborator
unfolding field is_stellar_address
import_rows to_text row no_items r = r
import_rows to_text row (item entry rest) r =
    import_rows to_text (row + 1) rest (import_row to_text row entry r)

unfoldable pub export_rows :
    (Text → Option Number) → ℕ → List Collaborator → Rows Entry → Rows Entry
unfolding is_stellar_address
export_rows to_number row [] r = r
export_rows to_number row (c ∷ cs) r = export_rows to_number (row + 1) cs (
    checked row c.address (to_number c.basis_points)
      (λ p. record { address = c.address; percentage = p }) r)

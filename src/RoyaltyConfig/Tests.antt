-- ===== src/RoyaltyConfig/Tests.antt =====
-- Two collaborators with a half each, exported and imported.
use stellar_royalty_splitter.Prelude.{
  ◌≡◌, refl, ap, or_else, Option, none, some, List, [], ◌∷◌, All, length, ltb, if◌then◌else◌, ◌==◌,
  nat_eq,
}
use mathlib.Core.Path.{subst}
use stellar_royalty_splitter.Prelude.Text.{
  Text, codes, same_text, is_strkey, is_base32_char, text_key,
}
use stellar_royalty_splitter.RoyaltyConfig.Json.{
  Number, natural, null, object, no_members, field, count_items,
}
use stellar_royalty_splitter.RoyaltyConfig.Rows.{
  Collaborator, invalid_address, invalid_percentage, is_stellar_address, import_rows, export_rows,
}
use stellar_royalty_splitter.RoyaltyConfig.File.{
  RoyaltyConfigFile, ok, raised, not_json, not_a_json_object, no_version, bad_lines, sum_not_whole,
  too_many, json_of, parse_royalty_config_import, build_royalty_config_export,
}
use stellar_royalty_splitter.RoyaltyConfig.RoundTrip.{Canonical, import-export}

-- The conversions on a few numbers.
abbrev to_number : Text → Option Number
to_number text =
    if text == codes "50"
    then some (natural 50)
    else (if text == codes "0" then some (natural 0) else none)

abbrev to_text : Number → Text
to_text n = if n.top == 50 then codes "50" else codes "0"

abbrev alice : Text
alice = codes "GAAAAAAAAAAAAAAAAAAAAAAAAAAAAAAAAAAAAAAAAAAAAAAAAAAAAAAA"

abbrev bob : Text
bob = codes "GBBBBBBBBBBBBBBBBBBBBBBBBBBBBBBBBBBBBBBBBBBBBBBBBBBBBBBB"

abbrev half : Text → Collaborator
half address = record { address = address; basis_points = codes "50" }

abbrev pair : List Collaborator
pair = half alice ∷ (half bob ∷ [])

abbrev pair_file : RoyaltyConfigFile
pair_file = record {
  version = 1;
  created_at = codes "2025-01-01T00:00:00Z";
  collaborators =
      record { address = alice; percentage = natural 50 }
      ∷ (record { address = bob; percentage = natural 50 } ∷ []);
}

exported : build_royalty_config_export to_number pair (codes "2025-01-01T00:00:00Z") ≡ ok pair_file
unfolding build_royalty_config_export export_rows is_stellar_address is_strkey is_base32_char
    same_text
exported = refl

imported : parse_royalty_config_import to_text (some (json_of pair_file)) ≡ ok pair
unfolding parse_royalty_config_import import_rows is_stellar_address is_strkey is_base32_char
    same_text json_of field count_items
imported = refl

refused_tests :
    (parse_royalty_config_import to_text none ≡ raised not_json)
    × (parse_royalty_config_import to_text (some null) ≡ raised not_a_json_object)
    × (parse_royalty_config_import to_text (some (object no_members)) ≡ raised no_version)
    × (build_royalty_config_export to_number (half alice ∷ []) [] ≡ raised sum_not_whole)
    × (build_royalty_config_export to_number
          (record { address = []; basis_points = codes "50" }
            ∷ (record { address = bob; basis_points = codes "0" } ∷ []))
          []
        ≡ raised (bad_lines (invalid_address 1 ∷ (invalid_percentage 2 ∷ []))))
unfolding build_royalty_config_export export_rows is_stellar_address is_strkey is_base32_char
    same_text parse_royalty_config_import field
refused_tests = (refl, refl, refl, refl, refl)

half-Canonical : (address : Text) → Canonical to_number to_text (half address)
unfolding same_text
half-Canonical address p e =
    let same : natural 50 ≡ p = ap (λ o. or_else o p) e in
    subst (λ q. to_text q ≡ codes "50") same refl

canonical : All (Canonical to_number to_text) pair
canonical = (half-Canonical alice, (half-Canonical bob, tt))

import-export_example :
    parse_royalty_config_import to_text (some (json_of pair_file))
    ≡ (if ltb 50 (length pair) then raised (too_many (length pair)) else ok pair)
import-export_example =
    import-export to_number to_text pair (codes "2025-01-01T00:00:00Z") pair_file canonical exported

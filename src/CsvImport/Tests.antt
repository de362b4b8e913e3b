-- ===== src/CsvImport/Tests.antt =====
-- A file of two contributors, and the template.
use stellar_royalty_splitter.Prelude.{ℕ, ◌≡◌, refl, none, some, List, [], ◌∷◌, ◌++◌, length}
use stellar_royalty_splitter.Prelude.Text.{
  Text, codes, same_text, to_lower, starts_with, trim, trim_start, trim_end, is_space, split_at,
  parse_decimal, unsigned_decimal, digits_of,
}
use stellar_royalty_splitter.CsvImport.Rows.{
  Row, ErrorRow, text, address_required, invalid_share, issues, split_lines, parse_csv,
  validate_rows, validate_csv_rows, template,
}
use stellar_royalty_splitter.CsvImport.Store.{get_import_summary}
use stellar_royalty_splitter.CsvImport.Routes.{
  Upload, World, failed, upload_error, contract_required, post_validate, post_import,
}
use stellar_royalty_splitter.CsvImport.Classified.{
  Classified, SettledRows, validate_csv_rows_classifies,
}
use stellar_royalty_splitter.CsvImport.Refused.{post_import_raises}

abbrev alice : Text
alice = codes "GAAAAAAAAAAAAAAAAAAAAAAAAAAAAAAAAAAAAAAAAAAAAAAAAAAAAAAA"

abbrev bob : Text
bob = codes "GBBBBBBBBBBBBBBBBBBBBBBBBBBBBBBBBBBBBBBBBBBBBBBBBBBBBBBB"

abbrev line_end : Text
line_end = 13 ∷ 10 ∷ []

abbrev content : Text
content =
    codes " Share_Percentage ,Address"
    ++ (line_end ++ (codes "60," ++ (alice ++ (line_end ++ (line_end ++ (codes "40%, " ++ bob))))))

abbrev rows : List (Row Text)
rows =
    record { row_index = 1; address = alice; share = codes "60" }
    ∷ record { row_index = 2; address = bob; share = codes "40%" }
    ∷ []

content_rows : parse_csv content ≡ some rows
unfolding parse_csv split_lines to_lower trim trim_start trim_end is_space split_at starts_with
    same_text
content_rows = refl

columns_missing : parse_csv (codes "address" ++ (line_end ++ alice)) ≡ none
unfolding parse_csv split_lines to_lower trim trim_start trim_end is_space split_at starts_with
    same_text
columns_missing = refl

row_tests :
    (length (validate_csv_rows rows).valid ≡ 2)
    × (validate_csv_rows (record { row_index = 1; address = []; share = codes "x" } ∷ []) ≡ record {
      valid = [];
      errors =
          record {
            row = record { row_index = 1; address = []; share = text (codes "x") };
            error = issues (address_required ∷ invalid_share ∷ []);
          }
          ∷ [];
    })
unfolding validate_csv_rows validate_rows starts_with parse_decimal unsigned_decimal digits_of
    trim_start is_space
row_tests = (refl, refl)

-- No row of the template passes.
template_rows :
    (rows : List (Row Text)) × (parse_csv template ≡ some rows)
    × ((validate_csv_rows rows).valid ≡ [])
    × (length (validate_csv_rows rows).errors ≡ 3)
unfolding parse_csv split_lines to_lower trim trim_start trim_end is_space split_at starts_with
    same_text validate_csv_rows validate_rows parse_decimal unsigned_decimal digits_of
template_rows = (_, refl, refl, refl)

abbrev file : Upload
file = record { path = "uploads/1.csv"; original_name = "shares.csv"; content = content }

abbrev world : World
world = record {
  imports = record { imports = []; results = []; next_id = 1; writes = 0 };
  log = record { entries = []; next_id = 1; writes = 0 };
  files = "uploads/1.csv" ∷ [];
}

route_tests :
    ((post_import none "C" none [] world).0 ≡ upload_error)
    × ((post_import (some file) "" none [] world).0 ≡ contract_required)
    × ((post_validate (some file) world).1.files ≡ [])
unfolding post_import post_validate parse_csv split_lines to_lower trim trim_start trim_end is_space
    split_at starts_with same_text
route_tests = (refl, refl, refl)

validate_csv_rows_classifies_example :
    (good : List (Row ℕ)) × (bad : List ErrorRow) × Classified rows good bad
    × SettledRows good bad (validate_csv_rows rows)
validate_csv_rows_classifies_example = validate_csv_rows_classifies rows

post_import_raises_example :
    let (reply, after) = post_import (some file) "C" none (codes "2026") world in
    (reply ≡ failed)
    × (after.log ≡ world.log)
    × (after.files ≡ world.files)
    × (length after.imports.imports ≡ 1)
    × ((get_import_summary 1 after.imports).total ≡ 2)
post_import_raises_example =
    post_import_raises file "C" none (codes "2026") world rows refl content_rows refl

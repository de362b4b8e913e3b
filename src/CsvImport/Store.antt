-- ===== src/CsvImport/Store.antt =====
-- backend/src/database/csv-import.js. No migration creates its two tables, so that their columns are
-- those of the statements; an import starts without a status.
use stellar_royalty_splitter.Prelude.{
  ℕ, ◌+◌, String, Bool, true, false, not, Option, none, some, List, [], ◌∷◌, ◌++◌, ◌==◌, string_eq,
  nat_eq, ltb, keep, find_first, update_where, count_if, length,
}
use stellar_royalty_splitter.Prelude.Text.{Text}
use stellar_royalty_splitter.Prelude.TextOrder.{text_less}
use stellar_royalty_splitter.Prelude.Sorting.{sort}
use stellar_royalty_splitter.CsvImport.Rows.{Share, RowError}

pub data Status : Type 0 where
  completed : Status
  -- With the number of rows in the message.
  failed : ℕ → Status

pub record CsvImport : Type 0 where
  pub id : ℕ
  pub contract_id : String
  pub file_name : String
  pub row_count : ℕ
  pub imported_by : String
  pub status : Option Status
  pub created_at : Text
  pub completed_at : Option Text

-- A row failed if it has an error message.
pub record ImportResult : Type 0 where
  pub import_id : ℕ
  pub row_index : ℕ
  pub address : Text
  pub share : Share
  pub error_message : Option RowError

pub record Imports : Type 0 where
  pub imports : List CsvImport
  pub results : List ImportResult
  pub next_id : ℕ
  pub writes : ℕ

abbrev pub is_import : ℕ → CsvImport → Bool
is_import id i = i.id == id

abbrev pub is_result_of : ℕ → ImportResult → Bool
is_result_of id r = r.import_id == id

-- `createCsvImport`
unfoldable pub create_csv_import :
    String → String → ℕ → String → Text → Imports → CsvImport × Imports
create_csv_import contract file_name row_count imported_by now s =
    let row : CsvImport = record {
      id = s.next_id;
      contract_id = contract;
      file_name = file_name;
      row_count = row_count;
      imported_by = imported_by;
      status = none;
      created_at = now;
      completed_at = none;
    } in
    (
      row,
      record s {
        imports = s.imports ++ (row ∷ []);
        next_id = s.next_id + 1;
        writes = s.writes + 1;
      },
    )

abbrev pub finished : Status → Text → CsvImport → CsvImport
finished status now i = record i { status = some status; completed_at = some now }

-- `markImportSuccess`
unfoldable pub mark_import_success : ℕ → Text → Imports → Imports
mark_import_success id now s = record s {
  imports = update_where (is_import id) (finished completed now) s.imports;
  writes = s.writes + 1;
}

-- `markImportFailed`
unfoldable pub mark_import_failed : ℕ → ℕ → Text → Imports → Imports
mark_import_failed id errors now s = record s {
  imports = update_where (is_import id) (finished (failed errors) now) s.imports;
  writes = s.writes + 1;
}

-- `getCsvImport`
unfoldable pub get_csv_import : ℕ → Imports → Option CsvImport
get_csv_import id s = find_first (is_import id) s.imports

-- `getCsvImportsByContract`
unfoldable pub get_csv_imports_by_contract : String → Imports → List CsvImport
get_csv_imports_by_contract contract s =
    sort (λ (a b : CsvImport). text_less b.created_at a.created_at)
      (keep (λ i. i.contract_id == contract) s.imports)

-- `addImportResult`
unfoldable pub add_import_result : ImportResult → Imports → Imports
add_import_result r s = record s { results = s.results ++ (r ∷ []); writes = s.writes + 1 }

-- `getImportResults`
unfoldable pub get_import_results : ℕ → Imports → List ImportResult
get_import_results id s =
    sort (λ (a b : ImportResult). ltb a.row_index b.row_index) (keep (is_result_of id) s.results)

pub record Summary : Type 0 where
  pub total : ℕ
  -- A sum over no row is null.
  pub success_count : Option ℕ
  pub error_count : Option ℕ

abbrev pub is_error : ImportResult → Bool
is_error r = elim r.error_message [ none ↦ false | some e ↦ true ]

abbrev sum_if : (ImportResult → Bool) → List ImportResult → Option ℕ
sum_if p [] = none
sum_if p (r ∷ rs) = some (count_if p (r ∷ rs))

-- `getImportSummary`
unfoldable pub get_import_summary : ℕ → Imports → Summary
get_import_summary id s =
    let found = keep (is_result_of id) s.results in
    record {
      total = length found;
      success_count = sum_if (λ r. not (is_error r)) found;
      error_count = sum_if is_error found;
    }

-- ===== src/CsvImport/Routes.antt =====
-- The handlers of backend/src/routes/csv-import.js behind the upload, which has put the file into the
-- directory of the uploads. A body's `importedBy` and `contractId` are texts, if they are there. The
-- details of an entry of the log leave out the numbers.
use stellar_royalty_splitter.Prelude.{
  ℕ, ◌+◌, String, not, Option, none, some, List, [], ◌∷◌, ◌==◌, string_eq, nat_eq, if◌then◌else◌,
  keep, length, or_else,
}
use stellar_royalty_splitter.Prelude.Text.{Text, parse_int, nan, pos, neg}
use stellar_royalty_splitter.Audit.{text, Log, add_audit_log}
use stellar_royalty_splitter.CsvImport.Rows.{
  Row, number, ErrorRow, Validation, parse_csv, validate_csv_rows,
}
use stellar_royalty_splitter.CsvImport.Store.{
  CsvImport, ImportResult, Imports, create_csv_import, add_import_result, mark_import_success,
  mark_import_failed, get_csv_import, get_csv_imports_by_contract, get_import_results, Summary,
  get_import_summary,
}

pub record Upload : Type 0 where
  pub path : String
  pub original_name : String
  pub content : Text

pub record World : Type 0 where
  pub imports : Imports
  pub log : Log
  -- The paths of the uploaded files on the disk.
  pub files : List String

pub data Reply : Type 0 where
  upload_error contract_required not_found failed : Reply
  validated : Validation → Reply
  -- With the id of the import, the time in milliseconds, if a contract is named.
  previewed : Option ℕ → String → Validation → Reply
  -- The id, the successes and the errors of an import.
  imported : ℕ → ℕ → ℕ → Reply
  history : List CsvImport → Reply
  results : CsvImport → List ImportResult → Summary → Reply

abbrev pub unlink : String → World → World
unlink path w = record w { files = keep (λ file. not (file == path)) w.files }

abbrev checked_file : Option Validation → Upload → World → Reply × World
checked_file none file w = (failed, w)
checked_file (some v) file w = (validated v, unlink file.path w)

abbrev pub validation_of : Option (List (Row Text)) → Option Validation
validation_of none = none
validation_of (some rows) = some (validate_csv_rows rows)

-- `POST /validate`
unfoldable pub post_validate : Option Upload → World → Reply × World
unfolding parse_csv validate_csv_rows
post_validate none w = (upload_error, w)
post_validate (some file) w = checked_file (validation_of (parse_csv file.content)) file w

abbrev previewed_file : Option Validation → Upload → String → ℕ → World → Reply × World
previewed_file none file contract now_ms w = (failed, w)
previewed_file (some v) file contract now_ms w =
    let import_id = if contract == "" then none else some now_ms in
    (previewed import_id file.original_name v, unlink file.path w)

-- `POST /preview`
unfoldable pub post_preview : Option Upload → String → ℕ → World → Reply × World
unfolding parse_csv validate_csv_rows
post_preview none contract now_ms w = (upload_error, w)
post_preview (some file) contract now_ms w =
    previewed_file (validation_of (parse_csv file.content)) file contract now_ms w

abbrev pub success_result : ℕ → Row ℕ → ImportResult
success_result id r = record {
  import_id = id;
  row_index = r.row_index;
  address = r.address;
  share = number r.share;
  error_message = none;
}

abbrev pub error_result : ℕ → ErrorRow → ImportResult
error_result id r = record {
  import_id = id;
  row_index = r.row.row_index;
  address = r.row.address;
  share = r.row.share;
  error_message = some r.error;
}

-- The loops over the valid rows and over the errors.
abbrev pub add_all : {A : Type 0} → (A → ImportResult) → List A → Imports → Imports
add_all result [] s = s
add_all result (r ∷ rs) s = add_all result rs (add_import_result (result r) s)

abbrev pub mark_import : ℕ → ℕ → Text → Imports → Imports
mark_import id errors now s =
    if errors == 0 then mark_import_success id now s else mark_import_failed id errors now s

abbrev pub store_import : String → String → String → Validation → Text → Imports → ℕ × Imports
store_import contract file_name imported_by v now s =
    let total = length v.valid + length v.errors in
    let (row, created) = create_csv_import contract file_name total imported_by now s in
    let added =
      add_all (error_result row.id) v.errors (add_all (success_result row.id) v.valid created) in
    (row.id, mark_import row.id (length v.errors) now added)

abbrev logged : Validation → String → ℕ → Option Log → World → Reply × World
logged v path id none w = (failed, w)
logged v path id (some log) w =
    (imported id (length v.valid) (length v.errors), unlink path (record w { log = log }))

abbrev pub import_file : Upload → String → String → Option Validation → Text → World → Reply × World
import_file file contract imported_by none now w = (failed, w)
import_file file contract imported_by (some v) now w =
    let (id, after) = store_import contract file.original_name imported_by v now w.imports in
    logged v file.path id
      (add_audit_log contract "csv_import" (some imported_by) (text file.original_name) now w.log)
      (record w { imports = after })

-- `POST /import`
unfoldable pub post_import : Option Upload → String → Option String → Text → World → Reply × World
unfolding parse_csv validate_csv_rows add_audit_log create_csv_import add_import_result
    mark_import_success mark_import_failed
post_import none contract imported_by now w = (upload_error, w)
post_import (some file) contract imported_by now w =
    let answer =
      import_file file contract (or_else imported_by "unknown")
        (validation_of (parse_csv file.content)) now w in
    if contract == "" then (contract_required, w) else answer

-- `GET /history/:contractId`
unfoldable pub get_import_history : String → World → Reply
unfolding get_csv_imports_by_contract
get_import_history contract w = history (get_csv_imports_by_contract contract w.imports)

abbrev results_of : ℕ → Option CsvImport → World → Reply
results_of id none w = not_found
results_of id (some i) w =
    results i (get_import_results id w.imports) (get_import_summary id w.imports)

-- `GET /results/:importId`; no import has a negative id.
unfoldable pub get_results : Text → World → Reply
unfolding parse_int get_csv_import get_import_results get_import_summary
get_results param w = elim (parse_int param) [
  | nan ↦ not_found
  | neg n ↦ if n == 0 then results_of 0 (get_csv_import 0 w.imports) w else not_found
  | pos n ↦ results_of n (get_csv_import n w.imports) w
]

-- ===== src/CsvImport/Refused.antt =====
-- What `POST /import` of backend/src/routes/csv-import.js stores, and answers.
use stellar_royalty_splitter.Prelude.{
  ℕ, suc, ◌+◌, ◌≡◌, refl, ap, ◌∙◌, inl, inr, String, Bool, true, false, Option, some, List, [], ◌∷◌,
  ◌++◌, ◌==◌, nat_eq, string_eq, ==_self, keep, any, length, length-append, length-update_where,
  or_else, Bool-cases, arith,
}
use stellar_royalty_splitter.Prelude.Text.{Text}
use stellar_royalty_splitter.Audit.{add_audit_log}
use stellar_royalty_splitter.CsvImport.Rows.{Row, Validation, parse_csv, validate_csv_rows}
use stellar_royalty_splitter.CsvImport.Store.{
  ImportResult, Imports, is_import, is_result_of, add_import_result, create_csv_import,
  mark_import_success, mark_import_failed, get_import_summary,
}
use stellar_royalty_splitter.CsvImport.Routes.{
  Upload, World, Reply, failed, success_result, error_result, add_all, mark_import, store_import,
  post_import,
}
use stellar_royalty_splitter.CsvImport.Classified.{validate_csv_rows_count}

length-keep-last :
    {A : Type 0} (p : A → Bool) (xs : List A) (x : A)
    → p x ≡ true
    → length (keep p (xs ++ (x ∷ []))) ≡ suc (length (keep p xs))
length-keep-last p [] x is = ground arith
length-keep-last p (y ∷ xs) x is = ground (arith, length-keep-last p xs x is)

keep-none : {A : Type 0} (p : A → Bool) (xs : List A) → any p xs ≡ false → length (keep p xs) ≡ 0
keep-none p [] h = refl
keep-none p (x ∷ xs) h = ground (arith, keep-none p xs)

abbrev results_for : ℕ → Imports → ℕ
results_for id s = length (keep (is_result_of id) s.results)

add_all_results :
    {A : Type 0} (id : ℕ) (result : A → ImportResult) (rs : List A) (s : Imports)
    → ((r : A) → is_result_of id (result r) ≡ true)
    → results_for id (add_all result rs s) ≡ length rs + results_for id s
unfolding add_import_result
add_all_results id result [] s all = omega arith
add_all_results id result (r ∷ rs) s all = omega (
  arith,
  add_all_results id result rs (add_import_result (result r) s) all,
  length-keep-last (is_result_of id) s.results (result r) (all r),
)

add_all_imports :
    {A : Type 0} (result : A → ImportResult) (rs : List A) (s : Imports)
    → (add_all result rs s).imports ≡ s.imports
unfolding add_import_result
add_all_imports result [] s = refl
add_all_imports result (r ∷ rs) s = add_all_imports result rs (add_import_result (result r) s)

-- Marking an import keeps the results, and the number of the imports.
mark_import_lem :
    (id errors : ℕ) (now : Text) (s : Imports)
    → ((mark_import id errors now s).results ≡ s.results)
      × (length (mark_import id errors now s).imports ≡ length s.imports)
unfolding mark_import_success mark_import_failed
mark_import_lem id errors now s = elim (Bool-cases (errors == 0)) [
  | inl h ↦ rw h (refl, length-update_where (is_import id) _ s.imports)
  | inr h ↦ rw h (refl, length-update_where (is_import id) _ s.imports)
]

store_import_lem :
    (contract file_name imported_by : String) (v : Validation) (now : Text) (s : Imports)
    → any (is_result_of s.next_id) s.results ≡ false
    → let after = (store_import contract file_name imported_by v now s).1 in
      (length after.imports ≡ suc (length s.imports))
      × (results_for s.next_id after ≡ length v.valid + length v.errors)
unfolding create_csv_import
store_import_lem contract file_name imported_by v now s fresh =
    let id = s.next_id in
    let created =
      (create_csv_import contract file_name (length v.valid + length v.errors) imported_by now
        s).1 in
    let row =
      (create_csv_import contract file_name (length v.valid + length v.errors) imported_by now
        s).0 in
    let good = add_all (success_result id) v.valid created in
    let added = add_all (error_result id) v.errors good in
    let (kept, same) = mark_import_lem id (length v.errors) now added in
    (
      omega (
        arith,
        same,
        ap length (add_all_imports (error_result id) v.errors good),
        ap length (add_all_imports (success_result id) v.valid created),
        length-append s.imports (row ∷ []),
      ),
      omega (
        arith,
        ap (λ rs. length (keep (is_result_of id) rs)) kept,
        add_all_results id (error_result id) v.errors good (λ r. ==_self id),
        add_all_results id (success_result id) v.valid created (λ r. ==_self id),
        keep-none (is_result_of id) s.results fresh,
      ),
    )

-- An import with a contract and a file that has both columns is stored, with one result for each row
-- of the file, and is answered by an error all the same, as the log refuses its action: a client that
-- tries again stores it twice. The uploaded file stays on the disk, and nothing is logged. Here no
-- result has the id of the new import yet.
pub post_import_raises :
    (file : Upload) (contract : String) (imported_by : Option String) (now : Text) (w : World)
    (rows : List (Row Text))
    → (contract == "") ≡ false
    → parse_csv file.content ≡ some rows
    → any (is_result_of w.imports.next_id) w.imports.results ≡ false
    → let (reply, after) = post_import (some file) contract imported_by now w in
      (reply ≡ failed)
      × (after.log ≡ w.log)
      × (after.files ≡ w.files)
      × (length after.imports.imports ≡ suc (length w.imports.imports))
      × ((get_import_summary w.imports.next_id after.imports).total ≡ length rows)
unfolding post_import get_import_summary add_audit_log
post_import_raises file contract imported_by now w rows named is fresh =
    let v = validate_csv_rows rows in
    let by = or_else imported_by "unknown" in
    let after = (store_import contract file.original_name by v now w.imports).1 in
    let whole : post_import (some file) contract imported_by now w
        ≡ (failed, record w { imports = after }) =
      rw (named, is) refl in
    let (count, results) = store_import_lem contract file.original_name by v now w.imports fresh in
    (
      ap (λ (p : Reply × World). p.0) whole,
      ap (λ (p : Reply × World). p.1.log) whole,
      ap (λ (p : Reply × World). p.1.files) whole,
      ap (λ (p : Reply × World). length p.1.imports.imports) whole ∙ count,
      ap (λ (p : Reply × World). results_for w.imports.next_id p.1.imports) whole
          ∙ results
          ∙ validate_csv_rows_count rows,
    )

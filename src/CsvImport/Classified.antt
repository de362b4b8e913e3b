-- ===== src/CsvImport/Classified.antt =====
-- A description of `validateCsvRows` of backend/src/routes/csv-import.js, row by row.
use stellar_royalty_splitter.Prelude.{
  ℕ, zero, suc, ◌+◌, ◌≤◌, ◌≡◌, ◌≢◌, refl, sym, ap, ◌∙◌, ◌⊎◌, inl, inr, true, false, not, ◌&&◌,
  Option, none, some, List, [], ◌∷◌, ◌++◌, map, ◌==◌, nat_eq, leb, length, length-append,
  if◌then◌else◌, Bool-cases, arith,
}
use stellar_royalty_splitter.Prelude.Text.{Text, starts_with, Parsed, nan, pos, neg, parse_decimal}
use stellar_royalty_splitter.CsvImport.Rows.{
  Row, text, number, Issue, address_required, invalid_address, invalid_share, issues, shares_sum_to,
  ErrorRow, Validation, address_issues, share_of, validate_row, validate_rows, total_share,
  with_sum, validate_csv_rows,
}

-- What is wrong with an address.
pub data AddressChecked (address : Text) : List Issue → Type 0 where
  missing : address ≡ [] → AddressChecked address (address_required ∷ [])
  malformed :
      address ≢ []
      → (starts_with address (b'G' ∷ []) ≡ false) ⊎ (length address ≢ 56)
      → AddressChecked address (invalid_address ∷ [])
  well_formed :
      starts_with address (b'G' ∷ []) ≡ true → length address ≡ 56 → AddressChecked address []

-- Whether the number that a share starts with is from 0 to 100.
pub data ShareChecked : Parsed → Option ℕ → Type 0 where
  no_number : ShareChecked nan none
  fits : (n : ℕ) → n ≤ 100 → ShareChecked (pos n) (some n)
  too_high : (n : ℕ) → 101 ≤ n → ShareChecked (pos n) none
  minus_zero : ShareChecked (neg 0) (some 0)
  negative : (n : ℕ) → 1 ≤ n → ShareChecked (neg n) none

abbrev pub accepted_row : Row Text → ℕ → Row ℕ
accepted_row row share = record { row_index = row.row_index; address = row.address; share = share }

abbrev pub refused_row : Row Text → List Issue → ErrorRow
refused_row row found = record {
  row = record { row_index = row.row_index; address = row.address; share = text row.share };
  error = issues found;
}

-- The rows that pass and those that do not, each in the order of the file.
pub data Classified : List (Row Text) → List (Row ℕ) → List ErrorRow → Type 0 where
  no_rows : Classified [] [] []
  passes :
      {row : Row Text} {rows : List (Row Text)} {good : List (Row ℕ)} {bad : List ErrorRow}
      {share : ℕ}
      → AddressChecked row.address []
      → ShareChecked (parse_decimal row.share) (some share)
      → Classified rows good bad
      → Classified (row ∷ rows) (accepted_row row share ∷ good) bad
  bad_address :
      {row : Row Text} {rows : List (Row Text)} {good : List (Row ℕ)} {bad : List ErrorRow}
      {share : ℕ} {issue : Issue} {more : List Issue}
      → AddressChecked row.address (issue ∷ more)
      → ShareChecked (parse_decimal row.share) (some share)
      → Classified rows good bad
      → Classified (row ∷ rows) good (refused_row row (issue ∷ more) ∷ bad)
  bad_share :
      {row : Row Text} {rows : List (Row Text)} {good : List (Row ℕ)} {bad : List ErrorRow}
      {found : List Issue}
      → AddressChecked row.address found
      → ShareChecked (parse_decimal row.share) none
      → Classified rows good bad
      → Classified (row ∷ rows) good (refused_row row (found ++ (invalid_share ∷ [])) ∷ bad)

address_checked : (address : Text) → AddressChecked address (address_issues address)
address_checked [] = missing refl
address_checked (c ∷ s) =
    let full : (suc (length s) == 0) ≡ false = ground arith in
    elim (Bool-cases (starts_with (c ∷ s) (b'G' ∷ []))) [
      | inr other ↦ rw (full, other) (malformed (λ e. cc) (inl other))
      | inl letter ↦ elim (Bool-cases (suc (length s) == 56)) [
        | inl long ↦ rw (full, letter, long) (well_formed letter (ground arith))
        | inr short ↦ rw (full, letter, short) (malformed (λ e. cc) (inr (λ e. ground arith)))
      ]
    ]

share_checked : (p : Parsed) → ShareChecked p (share_of p)
share_checked nan = no_number
share_checked (pos n) = elim (Bool-cases (leb n 100)) [
  | inl low ↦ rw low (fits n (ground arith))
  | inr high ↦ rw high (too_high n (ground arith))
]
share_checked (neg zero) = minus_zero
share_checked (neg (suc n)) =
    let some_amount : (suc n == 0) ≡ false = ground arith in
    rw some_amount (negative (suc n) (omega arith))

append_one :
    {A : Type 0} (xs : List A) (x : A) (ys : List A) → (xs ++ (x ∷ [])) ++ ys ≡ xs ++ (x ∷ ys)
append_one [] x ys = refl
append_one (y ∷ xs) x ys = ap (λ rest. y ∷ rest) (append_one xs x ys)

append_none : {A : Type 0} (xs : List A) → xs ++ [] ≡ xs
append_none [] = refl
append_none (x ∷ xs) = ap (λ rest. x ∷ rest) (append_none xs)

abbrev added_to : Validation → List (Row ℕ) → List ErrorRow → Validation
added_to v good bad = record { valid = v.valid ++ good; errors = v.errors ++ bad }

-- What the loop adds for some rows to what is there.
abbrev LoopAdds : List (Row Text) → Validation → Validation → Type 0
LoopAdds rows v after =
    (good : List (Row ℕ)) × (bad : List ErrorRow) × Classified rows good bad
    × (after ≡ added_to v good bad)

extended :
    (found : List Issue) (share : Option ℕ) (row : Row Text) (rows : List (Row Text))
    (v after : Validation)
    → AddressChecked row.address found
    → ShareChecked (parse_decimal row.share) share
    → LoopAdds rows (validate_row found share row v) after
    → LoopAdds (row ∷ rows) v after
extended found none row rows v after a s (good, bad, c, e) = (
  good,
  refused_row row (found ++ (invalid_share ∷ [])) ∷ bad,
  bad_share a s c,
  e
      ∙ ap (λ errors. record { valid = v.valid ++ good; errors = errors })
          (append_one v.errors _ bad),
)
extended (issue ∷ more) (some share) row rows v after a s (good, bad, c, e) = (
  good,
  refused_row row (issue ∷ more) ∷ bad,
  bad_address a s c,
  e
      ∙ ap (λ errors. record { valid = v.valid ++ good; errors = errors })
          (append_one v.errors _ bad),
)
extended [] (some share) row rows v after a s (good, bad, c, e) = (
  accepted_row row share ∷ good,
  bad,
  passes a s c,
  e ∙ ap (λ valid. record { valid = valid; errors = v.errors ++ bad }) (append_one v.valid _ good),
)

validate_rows_lem :
    (rows : List (Row Text)) (v : Validation) → LoopAdds rows v (validate_rows rows v)
unfolding validate_rows
validate_rows_lem [] v = (
  [],
  [],
  no_rows,
  ap (λ valid. record { valid = valid; errors = v.errors }) (sym (append_none v.valid))
      ∙ ap (λ errors. record { valid = v.valid ++ []; errors = errors })
          (sym (append_none v.errors)),
)
validate_rows_lem (row ∷ rows) v =
    let found = address_issues row.address in
    let share = share_of (parse_decimal row.share) in
    extended found share row rows v _ (address_checked row.address)
      (share_checked (parse_decimal row.share))
      (validate_rows_lem rows (validate_row found share row v))

-- The error of a row that passes, in a file whose shares add up to something else.
abbrev pub does_not_add_up : ℕ → Row ℕ → ErrorRow
does_not_add_up total r = record {
  row = record { row_index = r.row_index; address = r.address; share = number r.share };
  error = shares_sum_to total;
}

-- What becomes of the rows that pass, and of the others, by the sum of the shares.
abbrev pub SettledRows : List (Row ℕ) → List ErrorRow → Validation → Type 0
SettledRows good bad v =
    (((good ≡ []) ⊎ (total_share good ≡ 100)) × (v.valid ≡ good) × (v.errors ≡ bad))
    ⊎ ((total_share good ≢ 100)
        × (v.valid ≡ [])
        × (v.errors ≡ bad ++ map (does_not_add_up (total_share good)) good))

settled_by :
    (good : List (Row ℕ)) (bad : List ErrorRow)
    → SettledRows good bad (
        if leb 1 (length good) && not (total_share good == 100)
        then record { valid = []; errors = bad ++ map (with_sum (total_share good)) good }
        else record { valid = good; errors = bad })
settled_by [] bad = inl (inl refl, refl, refl)
settled_by (r ∷ rs) bad =
    let some_rows : leb 1 (suc (length rs)) ≡ true = ground arith in
    elim (Bool-cases (r.share + total_share rs == 100)) [
      | inl whole ↦ rw (some_rows, whole) (inl (inr (ground arith), refl, refl))
      | inr other ↦ rw (some_rows, other) (inr ((λ e. ground arith), refl, refl))
    ]

-- Each row of a file ends as exactly one valid row, or as one error with its index, its address and its
-- share, in the order of the file: as a valid row, if its address has 56 units and starts with G, and
-- its share starts with a number from 0 to 100; else as an error with the issues of both. If the valid
-- rows' shares do not add up to 100, all of them become errors behind the others, with the sum.
pub validate_csv_rows_classifies :
    (rows : List (Row Text))
    → (good : List (Row ℕ)) × (bad : List ErrorRow) × Classified rows good bad
      × SettledRows good bad (validate_csv_rows rows)
unfolding validate_csv_rows
validate_csv_rows_classifies rows =
    let (good, bad, c, e) = validate_rows_lem rows (record { valid = []; errors = [] }) in
    (good, bad, c, rw e (settled_by good bad))

classified_count :
    (rows : List (Row Text)) (good : List (Row ℕ)) (bad : List ErrorRow)
    → Classified rows good bad
    → length good + length bad ≡ length rows
classified_count _ _ _ no_rows = omega arith
classified_count _ _ _ (passes {rows = rows} {good = good} {bad = bad} a s c) =
    omega (arith, classified_count rows good bad c)
classified_count _ _ _ (bad_address {rows = rows} {good = good} {bad = bad} a s c) =
    omega (arith, classified_count rows good bad c)
classified_count _ _ _ (bad_share {rows = rows} {good = good} {bad = bad} a s c) =
    omega (arith, classified_count rows good bad c)

length-map : {A B : Type 0} (f : A → B) (xs : List A) → length (map f xs) ≡ length xs
length-map f [] = refl
length-map f (x ∷ xs) = omega (arith, length-map f xs)

-- There are as many valid rows and errors as rows.
pub validate_csv_rows_count :
    (rows : List (Row Text))
    → let v = validate_csv_rows rows in length v.valid + length v.errors ≡ length rows
validate_csv_rows_count rows =
    let (good, bad, c, settled) = validate_csv_rows_classifies rows in
    let counted = classified_count rows good bad c in
    let turned = does_not_add_up (total_share good) in
    elim settled [
      | inl (fine, valid, errors) ↦ omega (arith, counted, ap length valid, ap length errors)
      | inr (wrong, valid, errors) ↦ omega (
        arith,
        counted,
        ap length valid,
        ap length errors,
        length-map turned good,
        length-append bad (map turned good),
      )
    ]

-- ===== src/CsvImport/Rows.antt =====
-- `parseCsv` and `validateCsvRows` of backend/src/routes/csv-import.js. A text is the list of its
-- UTF-16 units, so that its length is JavaScript's. `toLowerCase` matters for ASCII letters only, as
-- no other letter becomes one of those in the names of the two columns.
use stellar_royalty_splitter.Prelude.{
  ℕ, zero, suc, ◌+◌, Bool, not, ◌&&◌, ◌||◌, Option, none, some, List, [], ◌∷◌, ◌++◌, map, ◌==◌,
  nat_eq, leb, if◌then◌else◌, keep, length,
}
use stellar_royalty_splitter.Prelude.Text.{
  Text, text_key, codes, to_lower, starts_with, trim, split_at, add_to_first, Parsed, nan, pos, neg,
  parse_decimal,
}

-- A row of the file, with its share as a text, or as the number that was read.
pub record Row (A : Type 0) : Type 0 where
  pub row_index : ℕ
  pub address : Text
  pub share : A

pub data Share : Type 0 where
  text : Text → Share
  number : ℕ → Share

pub data Issue : Type 0 where
  address_required invalid_address invalid_share : Issue

-- The error of a row: its issues, which the source joins to one text, or the sum of all the shares.
pub data RowError : Type 0 where
  issues : List Issue → RowError
  shares_sum_to : ℕ → RowError

pub record ErrorRow : Type 0 where
  pub row : Row Share
  pub error : RowError

pub record Validation : Type 0 where
  pub valid : List (Row ℕ)
  pub errors : List ErrorRow

-- `content.split(/\r?\n/)`
unfoldable pub split_lines : Text → List Text
unfolding starts_with
split_lines [] = [] ∷ []
split_lines (c ∷ s) =
    let rest = split_lines s in
    if c == 10
    then [] ∷ rest
    else (if c == 13 && starts_with s (10 ∷ []) then rest else add_to_first c rest)

abbrev pub is_blank : Text → Bool
is_blank line = length (trim line) == 0

abbrev pub columns : Text → List Text
columns line = map trim (split_at b',' line)

-- `replace(/^\uFEFF/, "")`
abbrev pub without_mark : Text → Text
without_mark [] = []
without_mark (c ∷ s) = if c == 65279 then s else c ∷ s

-- `headers.indexOf(name)`
abbrev pub index_of : Text → List Text → Option ℕ
index_of name [] = none
index_of name (h ∷ hs) =
    let rest = index_of name hs in
    if h == name then some 0 else elim rest [ none ↦ none | some i ↦ some (suc i) ]

-- `cols[i] ?? ""`
abbrev pub column : ℕ → List Text → Text
column i [] = []
column zero (c ∷ cs) = c
column (suc i) (c ∷ cs) = column i cs

abbrev pub rows_from : ℕ → ℕ → ℕ → List Text → List (Row Text)
rows_from address_idx share_idx i [] = []
rows_from address_idx share_idx i (line ∷ lines) =
    let cols = columns line in
    record { row_index = i; address = column address_idx cols; share = column share_idx cols }
    ∷ rows_from address_idx share_idx (i + 1) lines

abbrev pub rows_under : Option ℕ → Option ℕ → List Text → Option (List (Row Text))
rows_under (some address_idx) (some share_idx) lines =
    some (rows_from address_idx share_idx 1 lines)
rows_under (some address_idx) none lines = none
rows_under none share_idx lines = none

abbrev pub headers_of : Text → List Text
headers_of line = columns (trim (to_lower (without_mark line)))

abbrev pub rows_of : List Text → Option (List (Row Text))
rows_of [] = some []
rows_of (header ∷ []) = some []
rows_of (header ∷ line ∷ lines) =
    let headers = headers_of header in
    rows_under (index_of (codes "address") headers) (index_of (codes "share_percentage") headers)
      (line ∷ lines)

abbrev pub lines_of : Text → List Text
lines_of content = keep (λ line. not (is_blank line)) (split_lines content)

-- `parseCsv`; nothing where it throws.
unfoldable pub parse_csv : Text → Option (List (Row Text))
unfolding split_lines to_lower trim split_at
parse_csv content = rows_of (lines_of content)

abbrev pub address_issues : Text → List Issue
address_issues address =
    if length address == 0
    then address_required ∷ []
    else (if not (starts_with address (b'G' ∷ [])) || not (length address == 56)
        then invalid_address ∷ []
        else [])

abbrev pub in_range : ℕ → Option ℕ
in_range n = if leb n 100 then some n else none

-- The share, if it is a number between 0 and 100; "-0" is such a number.
abbrev pub share_of : Parsed → Option ℕ
share_of nan = none
share_of (pos n) = in_range n
share_of (neg n) = if n == 0 then some 0 else none

-- The body of the loop over the rows.
abbrev pub validate_row : List Issue → Option ℕ → Row Text → Validation → Validation
validate_row found none row v = record v {
  errors =
      v.errors
      ++ (record {
        row = record { row_index = row.row_index; address = row.address; share = text row.share };
        error = issues (found ++ (invalid_share ∷ []));
      }
          ∷ []);
}
validate_row (issue ∷ more) (some share) row v = record v {
  errors =
      v.errors
      ++ (record {
        row = record { row_index = row.row_index; address = row.address; share = text row.share };
        error = issues (issue ∷ more);
      }
          ∷ []);
}
validate_row [] (some share) row v = record v {
  valid =
      v.valid ++ (record { row_index = row.row_index; address = row.address; share = share } ∷ []);
}

unfoldable pub validate_rows : List (Row Text) → Validation → Validation
unfolding parse_decimal starts_with
validate_rows [] v = v
validate_rows (row ∷ rows) v =
    validate_rows rows
      (validate_row (address_issues row.address) (share_of (parse_decimal row.share)) row v)

abbrev pub total_share : List (Row ℕ) → ℕ
total_share [] = 0
total_share (r ∷ rs) = r.share + total_share rs

abbrev pub with_sum : ℕ → Row ℕ → ErrorRow
with_sum total r = record {
  row = record { row_index = r.row_index; address = r.address; share = number r.share };
  error = shares_sum_to total;
}

-- `validateCsvRows`
unfoldable pub validate_csv_rows : List (Row Text) → Validation
unfolding validate_rows
validate_csv_rows rows =
    let v = validate_rows rows (record { valid = []; errors = [] }) in
    let total = total_share v.valid in
    if leb 1 (length v.valid) && not (total == 100)
    then record { valid = []; errors = v.errors ++ map (with_sum total) v.valid }
    else v

-- `GET /template`
abbrev pub template : Text
template =
    65279
    ∷ (codes "address,share_percentage"
        ++ (10
            ∷ (codes "GABCDEF1234567890XYZ,10"
                ++ (10
                    ∷ (codes "G1234567890ABCDEFXYZ,15" ++ (10 ∷ codes "GXYZ1234567890ABCDEF,5"))))))

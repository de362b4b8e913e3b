-- ===== src/History/Parameters.antt =====
-- `parsePagination`, `parseCursorPagination` and `validateContractId` of backend/src/validation.js. A
-- query parameter is a text or missing. Decoding a cursor, base64 around JSON, is an argument; it
-- answers nothing where it throws, or where the members have other types than `encodeCursor` writes.
use stellar_royalty_splitter.Prelude.{
  ℕ, zero, suc, ◌≤◌, ◌≡◌, String, Bool, true, false, ◌||◌, Option, none, some, length, ◌==◌, nat_eq,
  if◌then◌else◌, min, max, arith, inl, inr, Bool-cases,
}
use mathlib.Core.Path.{subst}
use stellar_royalty_splitter.Prelude.Text.{Parsed, nan, pos, neg, parse_int, is_strkey, Text}
use stellar_royalty_splitter.History.Store.{Cursor}

-- `/^C[A-Z2-7]{55}$/`
unfoldable pub is_contract_id : Text → Bool
unfolding is_strkey
is_contract_id = is_strkey b'C'

abbrev is_bad_number : Option Text → Bool
is_bad_number none = false
is_bad_number (some text) = elim (parse_int text) [ nan ↦ true | pos n ↦ false | neg n ↦ false ]

abbrev parsed : Option Text → Parsed
parsed none = nan
parsed (some text) = parse_int text

-- `Math.max(parseInt(text) || otherwise, low)`
abbrev at_least : ℕ → ℕ → Parsed → ℕ
at_least otherwise low nan = max otherwise low
at_least otherwise low (pos zero) = max otherwise low
at_least otherwise low (pos (suc n)) = max (suc n) low
at_least otherwise low (neg zero) = max otherwise low
at_least otherwise low (neg (suc n)) = low

abbrev limit_of : Option Text → ℕ → ℕ → ℕ
limit_of limit default_limit max_limit = min (at_least default_limit 1 (parsed limit)) max_limit

pub record Pagination : Type 0 where
  pub limit : ℕ
  pub offset : ℕ

-- A value, or the message of a 400.
pub data Checked {ℓ} (A : Type ℓ) : Type ℓ where
  valid : A → Checked A
  refused : String → Checked A

-- `parsePagination`
unfoldable pub parse_pagination : Option Text → Option Text → ℕ → ℕ → Checked Pagination
unfolding parse_int
parse_pagination limit offset default_limit max_limit =
    if is_bad_number limit
    then refused "limit must be a number"
    else (if is_bad_number offset
        then refused "offset must be a number"
        else valid (record {
          limit = limit_of limit default_limit max_limit;
          offset = at_least 0 0 (parsed offset);
        }))

-- The members of a decoded cursor, where they are there.
pub record Decoded : Type 0 where
  pub timestamp : Option Text
  pub id : Option ℕ

pub record CursorPagination : Type 0 where
  pub limit : ℕ
  pub cursor : Option Cursor

abbrev checked_cursor : ℕ → Option Decoded → Checked CursorPagination
checked_cursor limit none = refused "Invalid cursor format"
checked_cursor limit (some d) = elim d.timestamp [
  | none ↦ refused "Invalid cursor format"
  | some timestamp ↦ elim d.id [
    | none ↦ refused "Invalid cursor format"
    | some id ↦
        if length timestamp == 0 || id == 0
        then refused "Invalid cursor format"
        else valid
            (record { limit = limit; cursor = some (record { timestamp = timestamp; id = id }) })
  ]
]

module _ (decode : Text → Option Decoded) where
  -- `parseCursorPagination`; an empty cursor is none.
  unfoldable pub parse_cursor_pagination : Option Text → Text → ℕ → ℕ → Checked CursorPagination
  unfolding parse_int
  parse_cursor_pagination limit cursor default_limit max_limit =
      if is_bad_number limit
      then refused "limit must be a number"
      else (if length cursor == 0
          then valid (record { limit = limit_of limit default_limit max_limit; cursor = none })
          else checked_cursor (limit_of limit default_limit max_limit) (decode cursor))

at_least-ge : (otherwise low : ℕ) (p : Parsed) → low ≤ at_least otherwise low p
at_least-ge otherwise low nan = omega arith
at_least-ge otherwise low (pos zero) = omega arith
at_least-ge otherwise low (pos (suc n)) = omega arith
at_least-ge otherwise low (neg zero) = omega arith
at_least-ge otherwise low (neg (suc n)) = omega arith

pub limit_of_bounds :
    (limit : Option Text) (default_limit max_limit : ℕ)
    → 1 ≤ max_limit
    → (1 ≤ limit_of limit default_limit max_limit)
      × (limit_of limit default_limit max_limit ≤ max_limit)
limit_of_bounds limit default_limit max_limit room =
    omega (arith, at_least-ge default_limit 1 (parsed limit))

abbrev InRange : ℕ → Checked Pagination → Type 0
InRange max_limit (valid p) = (1 ≤ p.limit) × (p.limit ≤ max_limit)
InRange max_limit (refused message) = Unit

parse_pagination-InRange :
    (limit offset : Option Text) (default_limit max_limit : ℕ)
    → 1 ≤ max_limit
    → InRange max_limit (parse_pagination limit offset default_limit max_limit)
unfolding parse_pagination
parse_pagination-InRange limit offset default_limit max_limit room =
    elim (Bool-cases (is_bad_number limit)) [
      | inl h ↦ rw h tt
      | inr h ↦ elim (Bool-cases (is_bad_number offset)) [
        | inl g ↦ rw (h, g) tt
        | inr g ↦ rw (h, g) (limit_of_bounds limit default_limit max_limit room)
      ]
    ]

-- A limit that is accepted lies between 1 and the greatest one, whatever the text is (missing, zero
-- and negative ones included), if the greatest one is at least 1.
pub parse_pagination_bounds :
    (limit offset : Option Text) (default_limit max_limit : ℕ) (p : Pagination)
    → 1 ≤ max_limit
    → parse_pagination limit offset default_limit max_limit ≡ valid p
    → (1 ≤ p.limit) × (p.limit ≤ max_limit)
parse_pagination_bounds limit offset default_limit max_limit p room h =
    subst (InRange max_limit) h (parse_pagination-InRange limit offset default_limit max_limit room)

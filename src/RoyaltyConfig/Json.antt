-- ===== src/RoyaltyConfig/Json.antt =====
-- What `JSON.parse` answers for frontend/src/utils/royaltyConfig.ts. A number is an exact fraction,
-- whose denominator is not 0.
use stellar_royalty_splitter.Prelude.{
  ℕ, suc, ◌+◌, ◌*◌, ◌/◌, String, Bool, false, not, ◌&&◌, Option, none, some, ltb, leb, ◌==◌, nat_eq,
  string_eq, if◌then◌else◌,
}
use stellar_royalty_splitter.Prelude.Text.{Text}

pub record Number : Type 0 where
  pub is_negative : Bool
  pub top : ℕ
  pub bottom : ℕ

mutual
  pub data Json : Type 0 where
    null : Json
    bool : Bool → Json
    number : Number → Json
    string : Text → Json
    array : Items → Json
    object : Members → Json

  pub data Items : Type 0 where
    no_items : Items
    item : Json → Items → Items

  pub data Members : Type 0 where
    no_members : Members
    member : String → Json → Members → Members

-- `object[name]`, or nothing for `undefined`.
unfoldable pub field : String → Members → Option Json
field name no_members = none
field name (member other value rest) =
    let found = field name rest in if other == name then some value else found

unfoldable pub count_items : Items → ℕ
count_items no_items = 0
count_items (item entry rest) = suc (count_items rest)

-- `percentage > 0 && percentage <= 100`
abbrev pub is_percentage : Number → Bool
is_percentage n = not n.is_negative && (ltb 0 n.top && leb n.top (100 * n.bottom))

abbrev pub natural : ℕ → Number
natural n = record { is_negative = false; top = n; bottom = 1 }

-- The running total of positive numbers.
pub record Total : Type 0 where
  pub top : ℕ
  pub bottom : ℕ

abbrev pub add : Total → Number → Total
add t n = record { top = t.top * n.bottom + n.top * t.bottom; bottom = t.bottom * n.bottom }

-- `Math.round(total * 100) === 10_000`
abbrev pub is_whole : Total → Bool
is_whole t = (200 * t.top + t.bottom) / (2 * t.bottom) == 10000

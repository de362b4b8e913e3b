-- ===== src/Prelude/Text.antt =====
-- The text operations that the source uses on ASCII text: `toLowerCase`, `includes`, `startsWith`
-- and the character classes of its regular expressions, over the code points of a string.
use Prim.Native.Nat.{ℕ, ◌+◌, ◌-◌, ◌*◌}
use Prim.Native.Char.{code}
use Prim.Native.String.{String}
use mathlib.Core.Path.{◌≡◌, refl, subst}
use mathlib.Core.Bool.{Bool, true, false, ◌&&◌, ◌||◌}
use native.Mathlib.Omega.{arith}
use stellar_royalty_splitter.Prelude.Lists.{length, all}
use mathlib.Core.List.{List, [], ◌∷◌}
use stellar_royalty_splitter.Prelude.Tests.{leb, Key, nat_eq, ◌==◌, if◌then◌else◌}

abbrev pub Text : Type 0
Text = List ℕ

unfoldable pub same_text : Text → Text → Bool
same_text [] [] = true
same_text [] (b ∷ bs) = false
same_text (a ∷ as') [] = false
same_text (a ∷ as') (b ∷ bs) = a == b && same_text as' bs

pub same_text_to : (a b : Text) → same_text a b ≡ true → a ≡ b
unfolding same_text
same_text_to [] [] h = refl
same_text_to [] (b ∷ bs) h = cc
same_text_to (a ∷ as') [] h = cc
same_text_to (a ∷ as') (b ∷ bs) h = ground (arith, same_text_to as' bs)

pub same_text_self : (a : Text) → same_text a a ≡ true
unfolding same_text
same_text_self [] = refl
same_text_self (a ∷ as') = ground (arith, same_text_self as')

instance abbrev pub text_key : Key Text
text_key = record {
  same_iff = λ a b. (same_text_to a b, λ e. subst (λ c. same_text a c ≡ true) e (same_text_self a));
  same = same_text;
}

abbrev pub codes : String → List ℕ
codes String.[] = []
codes (String.◌∷◌ c s) = code c ∷ codes s

abbrev pub is_upper : ℕ → Bool
is_upper c = leb b'A' c && leb c b'Z'

abbrev pub is_lower : ℕ → Bool
is_lower c = leb b'a' c && leb c b'z'

abbrev pub is_digit : ℕ → Bool
is_digit c = leb b'0' c && leb c b'9'

-- `[a-zA-Z0-9_-]`
unfoldable pub is_token_char : ℕ → Bool
is_token_char c = is_lower c || (is_upper c || (is_digit c || (c == b'_' || c == b'-')))

-- `[A-Z2-7]`
unfoldable pub is_base32_char : ℕ → Bool
is_base32_char c = is_upper c || (leb b'2' c && leb c b'7')

-- A letter in front of 55 base32 characters.
unfoldable pub is_strkey : ℕ → Text → Bool
unfolding is_base32_char
is_strkey letter [] = false
is_strkey letter (c ∷ s) = c == letter && (all is_base32_char s && length s == 55)

-- `[0-9a-fA-F]`
unfoldable pub is_hex_char : ℕ → Bool
is_hex_char c = is_digit c || ((leb b'a' c && leb c b'f') || (leb b'A' c && leb c b'F'))

unfoldable pub to_lower : List ℕ → List ℕ
to_lower [] = []
to_lower (c ∷ s) = (if is_upper c then c + 32 else c) ∷ to_lower s

unfoldable pub starts_with : List ℕ → List ℕ → Bool
starts_with s [] = true
starts_with [] (p ∷ ps) = false
starts_with (c ∷ s) (p ∷ ps) = c == p && starts_with s ps

-- `s.includes(p)`
unfoldable pub includes : List ℕ → List ℕ → Bool
unfolding starts_with
includes [] p = starts_with [] p
includes (c ∷ s) p = starts_with (c ∷ s) p || includes s p

unfoldable pub to_upper : List ℕ → List ℕ
to_upper [] = []
to_upper (c ∷ s) = (if is_lower c then c - 32 else c) ∷ to_upper s

-- What `parseInt` answers. A negative number is given by its amount.
pub data Parsed : Type 0 where
  nan : Parsed
  pos neg : ℕ → Parsed

-- The white space of JavaScript.
unfoldable pub is_space : ℕ → Bool
is_space c =
    (leb 9 c && leb c 13)
    || (c == 32
        || (c == 160
            || (c == 5760
                || ((leb 8192 c && leb c 8202)
                    || (c == 8232
                        || (c == 8233
                            || (c == 8239 || (c == 8287 || (c == 12288 || c == 65279)))))))))

unfoldable pub trim_start : List ℕ → List ℕ
unfolding is_space
trim_start [] = []
trim_start (c ∷ s) = let rest = trim_start s in if is_space c then rest else c ∷ s

abbrev hex_value : ℕ → ℕ
hex_value c = if is_digit c then c - b'0' else (if is_lower c then c - 87 else c - 55)

-- The number of the digits in front, added to what was read before them.
unfoldable pub digits_of : (ℕ → Bool) → ℕ → ℕ → List ℕ → ℕ
digits_of is base read [] = read
digits_of is base read (c ∷ s) =
    let more = digits_of is base (read * base + hex_value c) s in if is c then more else read

abbrev signed : Bool → ℕ → Parsed
signed true n = neg n
signed false n = pos n

unfoldable pub unsigned : Bool → List ℕ → Parsed
unfolding digits_of is_hex_char
unsigned minus [] = nan
unsigned minus (c ∷ []) = if is_digit c then signed minus (c - b'0') else nan
unsigned minus (c ∷ d ∷ []) =
    if is_digit c then signed minus (digits_of is_digit 10 0 (c ∷ d ∷ [])) else nan
unsigned minus (c ∷ d ∷ e ∷ s) =
    if c == b'0' && (d == b'x' || d == b'X')
    then (if is_hex_char e then signed minus (digits_of is_hex_char 16 0 (e ∷ s)) else nan)
    else (if is_digit c then signed minus (digits_of is_digit 10 0 (c ∷ d ∷ e ∷ s)) else nan)

unfoldable pub unsigned_decimal : Bool → List ℕ → Parsed
unfolding digits_of
unsigned_decimal minus [] = nan
unsigned_decimal minus (c ∷ s) =
    if is_digit c then signed minus (digits_of is_digit 10 0 (c ∷ s)) else nan

abbrev after_sign : (Bool → List ℕ → Parsed) → List ℕ → Parsed
after_sign read [] = nan
after_sign read (c ∷ s) =
    if c == b'-' then read true s else (if c == b'+' then read false s else read false (c ∷ s))

-- `parseInt(text)`
unfoldable pub parse_int : List ℕ → Parsed
unfolding unsigned trim_start
parse_int text = after_sign unsigned (trim_start text)

-- `parseInt(text, 10)`
unfoldable pub parse_decimal : List ℕ → Parsed
unfolding unsigned_decimal trim_start
parse_decimal text = after_sign unsigned_decimal (trim_start text)

-- `text.trim()`
unfoldable pub trim_end : List ℕ → List ℕ
unfolding is_space
trim_end [] = []
trim_end (c ∷ s) = elim (trim_end s) [
  | [] ↦ if is_space c then [] else c ∷ []
  | d ∷ rest ↦ c ∷ d ∷ rest
]

unfoldable pub trim : List ℕ → List ℕ
unfolding trim_start trim_end
trim s = trim_end (trim_start s)

abbrev pub add_to_first : ℕ → List Text → List Text
add_to_first c [] = (c ∷ []) ∷ []
add_to_first c (part ∷ parts) = (c ∷ part) ∷ parts

-- `text.split(c)`
unfoldable pub split_at : ℕ → List ℕ → List Text
split_at c [] = [] ∷ []
split_at c (d ∷ s) = let rest = split_at c s in if d == c then [] ∷ rest else add_to_first d rest

-- ===== src/Prelude/TextOrder.antt =====
-- The order of SQLite's TEXT values, byte by byte, and its `LIKE`, over ASCII code points.
use Prim.Native.Nat.{ℕ}
use mathlib.Core.Path.{◌≡◌, refl, sym, ◌∙◌}
use mathlib.Core.Logic.{◌⊎◌, inl, inr}
use mathlib.Core.Bool.{Bool, true, false, ◌&&◌, ◌||◌}
use mathlib.Core.List.{[], ◌∷◌}
use native.Mathlib.Omega.{arith}
use stellar_royalty_splitter.Prelude.Tests.{ltb, ◌==◌, nat_eq, Bool-cases, if◌then◌else◌}
use mathlib.Core.Path.{subst}
use mathlib.Core.Bool.{true≢false}
use stellar_royalty_splitter.Prelude.Text.{Text, same_text, same_text_to, text_key, to_lower}

-- `a < b`
unfoldable pub text_less : Text → Text → Bool
text_less [] [] = false
text_less [] (b ∷ bs) = true
text_less (a ∷ as') [] = false
text_less (a ∷ as') (b ∷ bs) = ltb a b || (a == b && text_less as' bs)

pub text_less_asym : (a b : Text) → text_less a b ≡ true → text_less b a ≡ false
unfolding text_less
text_less_asym [] [] h = refl
text_less_asym [] (b ∷ bs) h = refl
text_less_asym (a ∷ as') [] h = cc
text_less_asym (a ∷ as') (b ∷ bs) h = ground (arith, text_less_asym as' bs)

pub text_less_total :
    (a b : Text) → text_less a b ≡ false → text_less b a ≡ false → same_text a b ≡ true
unfolding text_less same_text
text_less_total [] [] h g = refl
text_less_total [] (b ∷ bs) h g = cc
text_less_total (a ∷ as') [] h g = cc
text_less_total (a ∷ as') (b ∷ bs) h g = ground (arith, text_less_total as' bs)

pub text_less_trans :
    (a b c : Text) → text_less a b ≡ true → text_less b c ≡ true → text_less a c ≡ true
unfolding text_less
text_less_trans [] [] c h g = cc
text_less_trans [] (b ∷ bs) [] h g = cc
text_less_trans [] (b ∷ bs) (c ∷ cs) h g = refl
text_less_trans (a ∷ as') [] c h g = cc
text_less_trans (a ∷ as') (b ∷ bs) [] h g = cc
text_less_trans (a ∷ as') (b ∷ bs) (c ∷ cs) h g = ground (arith, text_less_trans as' bs cs)

pub text_less_self : (a : Text) → text_less a a ≡ false
text_less_self a = elim (Bool-cases (text_less a a)) [ inr h ↦ h | inl h ↦ text_less_asym a a h ]

-- A later text is neither earlier nor the same.
pub text_less_apart :
    (a b : Text) → text_less a b ≡ true → (text_less b a ≡ false) × (same_text b a ≡ false)
text_less_apart a b h = elim (Bool-cases (same_text b a)) [
  | inr h' ↦ (text_less_asym a b h, h')
  | inl h' ↦
      let none_less : text_less a b ≡ false =
        subst (λ c. text_less a c ≡ false) (sym (same_text_to b a h')) (text_less_self a) in
      absurd (true≢false (sym h ∙ none_less))
]

pub text_cases : (a b : Text) → (text_less a b ≡ true) ⊎ ((a ≡ b) ⊎ (text_less b a ≡ true))
text_cases a b = elim (Bool-cases (text_less a b)) [
  | inl h ↦ inl h
  | inr h ↦ elim (Bool-cases (text_less b a)) [
    | inl g ↦ inr (inr g)
    | inr g ↦ inr (inl (same_text_to a b (text_less_total a b h g)))
  ]
]

abbrev any_suffix : (Text → Bool) → Text → Bool
any_suffix p [] = p []
any_suffix p (c ∷ cs) = p (c ∷ cs) || any_suffix p cs

abbrev one_then : (ℕ → Bool) → (Text → Bool) → Text → Bool
one_then q p [] = false
one_then q p (c ∷ cs) = q c && p cs

-- Whether a text matches a pattern of which `%` stands for any text and `_` for any character.
unfoldable pub matches : Text → Text → Bool
matches [] [] = true
matches [] (c ∷ cs) = false
matches (p ∷ ps) text =
    let rest = matches ps in
    if p == b'%'
    then any_suffix rest text
    else (if p == b'_' then one_then (λ c. true) rest text else one_then (λ c. c == p) rest text)

-- `text LIKE pattern`, which takes no notice of the case of letters.
unfoldable pub like : Text → Text → Bool
unfolding matches to_lower
like text pattern = matches (to_lower pattern) (to_lower text)

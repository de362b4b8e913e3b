-- ===== src/RoyaltyConfig/Accepted.antt =====
-- What `parseRoyaltyConfigImport` of frontend/src/utils/royaltyConfig.ts lets through.
use stellar_royalty_splitter.Prelude.{
  ℕ, suc, ◌+◌, ◌≤◌, ◌≡◌, ◌≢◌, refl, sym, ap, ◌∙◌, inl, inr, true, false, Option, none, some, List,
  [], ◌∷◌, ◌++◌, map, All, Bool-cases, length, nat_eq, ◌==◌, ==_self, arith, ltb,
}
use mathlib.Core.Path.{subst}
use mathlib.Core.Bool.{true≢false}
use stellar_royalty_splitter.Prelude.Text.{Text, text_key}
use stellar_royalty_splitter.Prelude.Lists.Slices.{append-map}
use stellar_royalty_splitter.Prelude.Sorting.Chain.{Pairwise}
use stellar_royalty_splitter.RoyaltyConfig.Json.{
  Number, Json, null, bool, number, string, array, object, Items, no_items, item, field, is_whole,
  count_items,
}
use stellar_royalty_splitter.RoyaltyConfig.Rows.{
  invalid_address, not_an_object, import_object, Collaborator, RowError, Rows, no_rows, fails,
  accepts, is_seen, checked, is_stellar_address, import_row, import_rows, number_of,
}
use stellar_royalty_splitter.RoyaltyConfig.Checked.{longer, checked-accepts, checked_cases}
use stellar_royalty_splitter.RoyaltyConfig.File.{
  Result, ok, raised, max_collaborators, import_collaborators, with_version, is_integer,
  is_version_one, parse_royalty_config_import,
}

abbrev pub DistinctAddresses : List Collaborator → Type 0
DistinctAddresses = Pairwise (λ (a b : Collaborator). a.address ≢ b.address)

abbrev pub HasStellarAddress : Collaborator → Type 0
HasStellarAddress c = is_stellar_address c.address ≡ true

-- The state of the loop behind `n` rows.
record Sound (n : ℕ) (r : Rows Collaborator) : Type 0 where
  counted : length r.result + length r.errors ≡ n
  seen : r.seen_addresses ≡ map (λ (c : Collaborator). c.address) r.result
  addresses : All HasStellarAddress r.result
  distinct : DistinctAddresses r.result

All-append :
    {A : Type 0} (P : A → Type 0) (x : A) (xs : List A) → All P xs → P x → All P (xs ++ (x ∷ []))
All-append P x [] h p = (p, tt)
All-append P x (y ∷ ys) (h, hs) p = (h, All-append P x ys hs p)

Pairwise-append :
    {A : Type 0} (R : A → A → Type 0) (x : A) (xs : List A)
    → Pairwise R xs
    → All (λ y. R y x) xs
    → Pairwise R (xs ++ (x ∷ []))
Pairwise-append R x [] h g = (tt, tt)
Pairwise-append R x (y ∷ ys) (h, hs) (g, gs) =
    (All-append (R y) x ys h g, Pairwise-append R x ys hs gs)

not_seen :
    (address : Text) (cs : List Collaborator)
    → is_seen address (map (λ (c : Collaborator). c.address) cs) ≡ false
    → All (λ (c : Collaborator). c.address ≢ address) cs
not_seen address [] h = tt
not_seen address (c ∷ cs) h = elim (Bool-cases (c.address == address)) [
  | inl same ↦ absurd (true≢false (sym (rw same refl) ∙ h))
  | inr other ↦ (
    λ e. true≢false (sym (subst (λ a. (c.address == a) ≡ true) e (==_self c.address)) ∙ other),
    not_seen address cs (rw other at h),
  )
]

fails-Sound : (n : ℕ) (e : RowError) (r : Rows Collaborator) → Sound n r → Sound (suc n) (fails e r)
fails-Sound n e r h = record {
  counted = omega (arith, h.counted, longer e r.errors);
  seen = h.seen;
  addresses = h.addresses;
  distinct = h.distinct;
}

accepts-Sound :
    (n : ℕ) (c : Collaborator) (p : Number) (r : Rows Collaborator)
    → Sound n r
    → is_stellar_address c.address ≡ true
    → is_seen c.address r.seen_addresses ≡ false
    → Sound (suc n) (accepts c.address p c r)
accepts-Sound n c p r h good new = record {
  counted = omega (arith, h.counted, longer c r.result);
  seen =
      ap (λ seen. seen ++ (c.address ∷ [])) h.seen
      ∙ append-map (λ (d : Collaborator). d.address) r.result (c ∷ []);
  addresses = All-append HasStellarAddress c r.result h.addresses good;
  distinct =
      Pairwise-append _ c r.result h.distinct
        (not_seen c.address r.result (subst (λ seen. is_seen c.address seen ≡ false) h.seen new));
}

checked-Sound :
    (n row : ℕ) (address : Text) (percentage : Option Number) (to_text : Number → Text)
    (r : Rows Collaborator)
    → Sound n r
    → Sound (suc n) (
        checked row address percentage
          (λ p. record { address = address; basis_points = to_text p })
          r)
checked-Sound n row address percentage to_text r h =
    let entry : Number → Collaborator =
      λ p. record { address = address; basis_points = to_text p } in
    elim (checked_cases row address entry percentage r) [
      | inl (e, failed) ↦ subst (Sound (suc n)) (sym failed) (fails-Sound n e r h)
      | inr (p, passes) ↦
          subst (Sound (suc n)) (sym (checked-accepts row address entry percentage r p passes))
            (accepts-Sound n (entry p) p r h passes.1 passes.2)
    ]

import_object-Sound :
    (n row : ℕ) (address percentage : Option Json) (to_text : Number → Text) (r : Rows Collaborator)
    → Sound n r
    → Sound (suc n) (import_object to_text row address percentage r)
import_object-Sound n row (some (string address)) percentage to_text r h =
    checked-Sound n row address (number_of percentage) to_text r h
import_object-Sound n row none percentage to_text r h = fails-Sound n (invalid_address row) r h
import_object-Sound n row (some null) percentage to_text r h =
    fails-Sound n (invalid_address row) r h
import_object-Sound n row (some (bool b)) percentage to_text r h =
    fails-Sound n (invalid_address row) r h
import_object-Sound n row (some (number b)) percentage to_text r h =
    fails-Sound n (invalid_address row) r h
import_object-Sound n row (some (array b)) percentage to_text r h =
    fails-Sound n (invalid_address row) r h
import_object-Sound n row (some (object b)) percentage to_text r h =
    fails-Sound n (invalid_address row) r h

import_row-Sound :
    (n row : ℕ) (entry : Json) (to_text : Number → Text) (r : Rows Collaborator)
    → Sound n r
    → Sound (suc n) (import_row to_text row entry r)
import_row-Sound n row (object members) to_text r h =
    import_object-Sound n row (field "address" members) (field "percentage" members) to_text r h
import_row-Sound n row null to_text r h = fails-Sound n (not_an_object row) r h
import_row-Sound n row (bool b) to_text r h = fails-Sound n (not_an_object row) r h
import_row-Sound n row (number b) to_text r h = fails-Sound n (not_an_object row) r h
import_row-Sound n row (string b) to_text r h = fails-Sound n (not_an_object row) r h
import_row-Sound n row (array b) to_text r h = fails-Sound n (not_an_object row) r h

import_rows-Sound :
    (n row : ℕ) (entries : Items) (to_text : Number → Text) (r : Rows Collaborator)
    → Sound n r
    → Sound (n + count_items entries) (import_rows to_text row entries r)
unfolding count_items import_rows
import_rows-Sound n row no_items to_text r h =
    let same : n ≡ n + 0 = omega arith in subst (λ m. Sound m r) same h
import_rows-Sound n row (item entry rest) to_text r h =
    let same : suc n + count_items rest ≡ n + suc (count_items rest) = omega arith in
    subst (λ m. Sound m (import_rows to_text (row + 1) rest (import_row to_text row entry r))) same
      (import_rows-Sound (suc n) (row + 1) rest to_text (import_row to_text row entry r)
        (import_row-Sound n row entry to_text r h))

-- What a file that is accepted satisfies.
abbrev Acceptable : Result (List Collaborator) → Type 0
Acceptable (raised problem) = Unit
Acceptable (ok cs) =
    (1 ≤ length cs)
    × (length cs ≤ max_collaborators)
    × All HasStellarAddress cs
    × DistinctAddresses cs

import_collaborators-Acceptable :
    (to_text : Number → Text) (collaborators : Option Json)
    → Acceptable (import_collaborators to_text collaborators)
import_collaborators-Acceptable to_text (some (array entries)) =
    let r = import_rows to_text 1 entries no_rows in
    let empty : Sound 0 no_rows = record {
      counted = omega arith;
      seen = refl;
      addresses = tt;
      distinct = tt;
    } in
    let sound = import_rows-Sound 0 1 entries to_text no_rows empty in
    elim (Bool-cases (count_items entries == 0)) [
      | inl nothing ↦ rw nothing tt
      | inr some_rows ↦ elim (Bool-cases (ltb max_collaborators (count_items entries))) [
        | inl long ↦ rw (some_rows, long) tt
        | inr fits ↦ elim (Bool-cases (length r.errors == 0)) [
          | inr bad ↦ rw (some_rows, fits, bad) tt
          | inl clean ↦ elim (Bool-cases (is_whole r.total)) [
            | inr less ↦ rw (some_rows, fits, clean, less) tt
            | inl sums ↦
                rw (some_rows, fits, clean, sums)
                  (
                    ground (arith, sound.counted),
                    ground (arith, sound.counted),
                    sound.addresses,
                    sound.distinct,
                  )
          ]
        ]
      ]
    ]
import_collaborators-Acceptable to_text none = tt
import_collaborators-Acceptable to_text (some null) = tt
import_collaborators-Acceptable to_text (some (bool b)) = tt
import_collaborators-Acceptable to_text (some (number b)) = tt
import_collaborators-Acceptable to_text (some (string b)) = tt
import_collaborators-Acceptable to_text (some (object b)) = tt

with_version-Acceptable :
    (to_text : Number → Text) (version collaborators : Option Json)
    → Acceptable (with_version to_text version collaborators)
with_version-Acceptable to_text (some (number n)) collaborators = elim (Bool-cases (is_integer n)) [
  | inr bad ↦ rw bad tt
  | inl whole ↦ elim (Bool-cases (is_version_one n)) [
    | inr bad ↦ rw (whole, bad) tt
    | inl one ↦ rw (whole, one) (import_collaborators-Acceptable to_text collaborators)
  ]
]
with_version-Acceptable to_text none collaborators = tt
with_version-Acceptable to_text (some null) collaborators = tt
with_version-Acceptable to_text (some (bool b)) collaborators = tt
with_version-Acceptable to_text (some (string b)) collaborators = tt
with_version-Acceptable to_text (some (array b)) collaborators = tt
with_version-Acceptable to_text (some (object b)) collaborators = tt

import-Acceptable :
    (to_text : Number → Text) (raw : Option Json)
    → Acceptable (parse_royalty_config_import to_text raw)
unfolding parse_royalty_config_import
import-Acceptable to_text (some (object members)) =
    with_version-Acceptable to_text (field "version" members) (field "collaborators" members)
import-Acceptable to_text none = tt
import-Acceptable to_text (some null) = tt
import-Acceptable to_text (some (bool b)) = tt
import-Acceptable to_text (some (number b)) = tt
import-Acceptable to_text (some (string b)) = tt
import-Acceptable to_text (some (array b)) = tt

-- Whatever the file holds, a list that is imported has between 1 and 50 collaborators, whose addresses
-- have the form of a Stellar address and are all different.
pub parse_royalty_config_import_accepts :
    (to_text : Number → Text) (raw : Option Json) (cs : List Collaborator)
    → parse_royalty_config_import to_text raw ≡ ok cs
    → (1 ≤ length cs) × (length cs ≤ 50) × All HasStellarAddress cs × DistinctAddresses cs
parse_royalty_config_import_accepts to_text raw cs h =
    subst Acceptable h (import-Acceptable to_text raw)

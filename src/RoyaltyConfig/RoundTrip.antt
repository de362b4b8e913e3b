-- ===== src/RoyaltyConfig/RoundTrip.antt =====
-- A configuration that is exported, and imported again, by frontend/src/utils/royaltyConfig.ts.
use stellar_royalty_splitter.Prelude.{
  ℕ, ◌+◌, ◌≤◌, ◌≡◌, refl, sym, ap, ◌∙◌, inl, inr, true, false, Option, some, List, [], ◌∷◌, ◌++◌,
  map, All, Bool-cases, if◌then◌else◌, length, nat_eq, ◌==◌, eq_of_==, arith, ltb,
}
use mathlib.Core.Path.{subst}
use mathlib.Core.List.{append_assoc, append-nil}
use stellar_royalty_splitter.Prelude.Text.{Text, text_key}
use stellar_royalty_splitter.Prelude.Lists.Slices.{append-map, length-map}
use stellar_royalty_splitter.RoyaltyConfig.Json.{Number, field, is_whole, count_items, add}
use stellar_royalty_splitter.RoyaltyConfig.Rows.{
  Collaborator, Entry, Rows, no_rows, accepts, checked, import_row, import_rows, export_rows,
}
use stellar_royalty_splitter.RoyaltyConfig.Checked.{longer, Passes, checked-accepts, checked_cases}
use stellar_royalty_splitter.RoyaltyConfig.File.{
  RoyaltyConfigFile, Result, ok, raised, items_of, json_of, json_of_entry, max_collaborators,
  too_many, parse_royalty_config_import, build_royalty_config_export,
}

-- The state of the import that goes along with a state of the export.
abbrev pub back : (Number → Text) → Entry → Collaborator
back to_text e = record { address = e.address; basis_points = to_text e.percentage }

abbrev mirrored : (Number → Text) → Rows Entry → Rows Collaborator
mirrored to_text r = record {
  errors = r.errors;
  seen_addresses = r.seen_addresses;
  total = r.total;
  result = map (back to_text) r.result;
}

-- A percentage that is written as `String` writes it.
abbrev pub Canonical : (Text → Option Number) → (Number → Text) → Collaborator → Type 0
Canonical to_number to_text c =
    (p : Number) → to_number c.basis_points ≡ some p → to_text p ≡ c.basis_points

accepts-mirrored :
    (to_text : Number → Text) (address : Text) (p : Number) (r : Rows Entry)
    → accepts address p
        (record { address = address; basis_points = to_text p })
        (mirrored to_text r)
      ≡ mirrored to_text (accepts address p (record { address = address; percentage = p }) r)
accepts-mirrored to_text address p r =
    let e : Entry = record { address = address; percentage = p } in
    ap
      (λ (result : List Collaborator). record {
        errors = r.errors;
        seen_addresses = r.seen_addresses ++ (address ∷ []);
        total = add r.total p;
        result = result;
      })
      (append-map (back to_text) r.result (e ∷ []))

import_row-json_of_entry :
    (to_text : Number → Text) (row : ℕ) (address : Text) (p : Number) (percentage : Option Number)
    (r : Rows Entry)
    → Passes address percentage r p
    → import_row to_text row
        (json_of_entry (record { address = address; percentage = p }))
        (mirrored to_text r)
      ≡ mirrored to_text (accepts address p (record { address = address; percentage = p }) r)
unfolding field
import_row-json_of_entry to_text row address p percentage r (e, good, new, fits) =
    checked-accepts row address (λ q. record { address = address; basis_points = to_text q })
      (some p) (mirrored to_text r) p (refl, good, new, fits)
    ∙ accepts-mirrored to_text address p r

module _ (to_number : Text → Option Number) (to_text : Number → Text) where
  -- Errors stay.
  errors_kept :
      (row : ℕ) (cs : List Collaborator) (r : Rows Entry)
      → length r.errors ≤ length (export_rows to_number row cs r).errors
  unfolding export_rows
  errors_kept row [] r = omega arith
  errors_kept row (c ∷ cs) r =
      let entry : Number → Entry = λ p. record { address = c.address; percentage = p } in
      let next = checked row c.address (to_number c.basis_points) entry r in
      let rest = errors_kept (row + 1) cs next in
      elim (checked_cases row c.address entry (to_number c.basis_points) r) [
        | inl (e, failed) ↦
            let more = ap (λ (n : Rows Entry). length n.errors) failed ∙ longer e r.errors in
            omega (arith, more, rest)
        | inr (p, passes) ↦
            let same = checked-accepts row c.address entry (to_number c.basis_points) r p passes in
            subst
              (λ (n : Rows Entry).
                length n.errors ≤ length (export_rows to_number (row + 1) cs next).errors)
              same rest
      ]

  -- What an export without errors adds, and what the import makes of it.
  Exported : ℕ → List Collaborator → Rows Entry → Type 0
  Exported row cs r =
      (es : List Entry) × ((export_rows to_number row cs r).result ≡ r.result ++ es)
      × (map (back to_text) es ≡ cs)
      × ((i : ℕ)
          → import_rows to_text i (items_of es) (mirrored to_text r)
            ≡ mirrored to_text (export_rows to_number row cs r))

  export_rows-Exported :
      (row : ℕ) (cs : List Collaborator) (r : Rows Entry)
      → All (Canonical to_number to_text) cs
      → length (export_rows to_number row cs r).errors ≡ 0
      → Exported row cs r
  unfolding export_rows import_rows Exported
  export_rows-Exported row [] r canonical clean = ([], sym (append-nil r.result), refl, λ i. refl)
  export_rows-Exported row (c ∷ cs) r (is_text, canonical) clean =
      let entry : Number → Entry = λ p. record { address = c.address; percentage = p } in
      let next = checked row c.address (to_number c.basis_points) entry r in
      elim (checked_cases row c.address entry (to_number c.basis_points) r) [
        | inl (e, failed) ↦
            let more = ap (λ (n : Rows Entry). length n.errors) failed ∙ longer e r.errors in
            absurd (omega (arith, more, errors_kept (row + 1) cs next, clean))
        | inr (p, passes) ↦
            let same : next ≡ accepts c.address p (entry p) r =
              checked-accepts row c.address entry (to_number c.basis_points) r p passes in
            let (es, whole, read, imported) =
              export_rows-Exported (row + 1) cs next canonical clean in
            let head : back to_text (entry p) ≡ c =
              ap (λ (b : Text). record { address = c.address; basis_points = b })
                (is_text p passes.0) in
            (
              entry p ∷ es,
              whole
                  ∙ (ap (λ (n : Rows Entry). n.result ++ es) same
                      ∙ append_assoc r.result (entry p ∷ []) es),
              ap (λ x. x ∷ map (back to_text) es) head ∙ ap (λ xs. c ∷ xs) read,
              λ i.
                  ap (import_rows to_text (i + 1) (items_of es)) (
                    import_row-json_of_entry to_text i c.address p (to_number c.basis_points) r
                      passes
                    ∙ ap (mirrored to_text) (sym same))
                  ∙ imported (i + 1),
            )
      ]

  length-items_of : (es : List Entry) → count_items (items_of es) ≡ length es
  unfolding count_items
  length-items_of [] = refl
  length-items_of (e ∷ es) = omega (arith, length-items_of es)

  -- What the import answers to the JSON of an exported file.
  abbrev ReadsBack : List Collaborator → Result RoyaltyConfigFile → Type 0
  ReadsBack cs (raised problem) = Unit
  ReadsBack cs (ok file) =
      parse_royalty_config_import to_text (some (json_of file))
      ≡ (if ltb max_collaborators (length cs) then raised (too_many (length cs)) else ok cs)

  whole_file :
      (cs : List Collaborator) (created_at : Text)
      → All (Canonical to_number to_text) cs
      → (length cs == 0) ≡ false
      → length (export_rows to_number 1 cs no_rows).errors ≡ 0
      → is_whole (export_rows to_number 1 cs no_rows).total ≡ true
      → ReadsBack cs (
          ok (record {
            version = 1;
            created_at = created_at;
            collaborators = (export_rows to_number 1 cs no_rows).result;
          }))
  unfolding parse_royalty_config_import json_of field Exported
  whole_file cs created_at canonical some_rows clean sums =
      let r = export_rows to_number 1 cs no_rows in
      let (es, whole, read, imported) = export_rows-Exported 1 cs no_rows canonical clean in
      let many : count_items (items_of es) ≡ length cs =
        length-items_of es ∙ (sym (length-map (back to_text) es) ∙ ap length read) in
      let result : map (back to_text) r.result ≡ cs = ap (map (back to_text)) whole ∙ read in
      elim (Bool-cases (ltb max_collaborators (length cs))) [
        | inl long ↦ rw (whole, many, some_rows, long) refl
        | inr fits ↦ rw (whole, many, some_rows, fits, imported 1, clean, sums) (ap ok result)
      ]

  export-ReadsBack :
      (cs : List Collaborator) (created_at : Text)
      → All (Canonical to_number to_text) cs
      → ReadsBack cs (build_royalty_config_export to_number cs created_at)
  unfolding build_royalty_config_export
  export-ReadsBack cs created_at canonical =
      let r = export_rows to_number 1 cs no_rows in
      elim (Bool-cases (length cs == 0)) [
        | inl nothing ↦ rw nothing tt
        | inr some_rows ↦ elim (Bool-cases (length r.errors == 0)) [
          | inr bad ↦ rw (some_rows, bad) tt
          | inl clean ↦ elim (Bool-cases (is_whole r.total)) [
            | inr less ↦ rw (some_rows, clean, less) tt
            | inl sums ↦
                rw (some_rows, clean, sums)
                  (whole_file cs created_at canonical some_rows (eq_of_== _ _ clean) sums)
          ]
        ]
      ]

  -- A file that the export has built is read back: the import answers the same collaborators, up to
  -- 50 of them, and refuses the file if there are more, where every percentage is written as `String`
  -- writes the number that `Number` reads.
  pub import-export :
      (cs : List Collaborator) (created_at : Text) (file : RoyaltyConfigFile)
      → All (Canonical to_number to_text) cs
      → build_royalty_config_export to_number cs created_at ≡ ok file
      → parse_royalty_config_import to_text (some (json_of file))
        ≡ (if ltb 50 (length cs) then raised (too_many (length cs)) else ok cs)
  import-export cs created_at file canonical h =
      subst (ReadsBack cs) h (export-ReadsBack cs created_at canonical)

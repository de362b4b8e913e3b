-- ===== src/RoyaltyConfig/File.antt =====
-- `parseRoyaltyConfigImport` and `buildRoyaltyConfigExport` of frontend/src/utils/royaltyConfig.ts, and
-- the JSON of the file that `downloadRoyaltyConfig` writes. What is raised is a value.
use stellar_royalty_splitter.Prelude.{
  ℕ, ◌%◌, Bool, not, ◌&&◌, Option, none, some, List, [], ◌∷◌, ◌==◌, nat_eq, ltb, if◌then◌else◌,
  length,
}
use stellar_royalty_splitter.Prelude.Text.{Text}
use stellar_royalty_splitter.RoyaltyConfig.Json.{
  Number, natural, Json, null, string, number, array, object, Items, no_items, item, count_items,
  no_members, member, field, is_whole,
}
use stellar_royalty_splitter.RoyaltyConfig.Rows.{
  Collaborator, Entry, RowError, Rows, no_rows, import_rows, export_rows,
}

pub record RoyaltyConfigFile : Type 0 where
  pub version : ℕ
  pub created_at : Text
  pub collaborators : List Entry

pub data Problem : Type 0 where
  not_json not_a_json_object no_version version_not_integer unsupported_version : Problem
  no_collaborators sum_not_whole : Problem
  too_many : ℕ → Problem
  bad_lines : List RowError → Problem

pub data Result (A : Type 0) : Type 0 where
  ok : A → Result A
  raised : Problem → Result A

abbrev pub max_collaborators : ℕ
max_collaborators = 50

-- The answer behind the loop.
abbrev pub finished : {A B : Type 0} → Rows A → (List A → B) → Result B
finished r answer =
    if length r.errors == 0
    then (if is_whole r.total then ok (answer r.result) else raised sum_not_whole)
    else raised (bad_lines r.errors)

-- The integer 1, in whatever fraction.
abbrev pub is_version_one : Number → Bool
is_version_one n = not n.is_negative && n.top == n.bottom

abbrev pub is_integer : Number → Bool
is_integer n = n.top % n.bottom == 0

abbrev pub import_collaborators : (Number → Text) → Option Json → Result (List Collaborator)
import_collaborators to_text (some (array entries)) =
    if count_items entries == 0
    then raised no_collaborators
    else (if ltb max_collaborators (count_items entries)
        then raised (too_many (count_items entries))
        else finished (import_rows to_text 1 entries no_rows) (λ result. result))
import_collaborators to_text other = raised no_collaborators

abbrev pub with_version : (Number → Text) → Option Json → Option Json → Result (List Collaborator)
with_version to_text none collaborators = raised no_version
with_version to_text (some null) collaborators = raised no_version
with_version to_text (some (number n)) collaborators =
    if is_integer n
    then (if is_version_one n
        then import_collaborators to_text collaborators
        else raised unsupported_version)
    else raised version_not_integer
with_version to_text (some other) collaborators = raised version_not_integer

-- `parseRoyaltyConfigImport`, on what `JSON.parse(raw)` answers, or nothing where it throws.
unfoldable pub parse_royalty_config_import :
    (Number → Text) → Option Json → Result (List Collaborator)
unfolding field count_items import_rows
parse_royalty_config_import to_text none = raised not_json
parse_royalty_config_import to_text (some (object members)) =
    with_version to_text (field "version" members) (field "collaborators" members)
parse_royalty_config_import to_text (some other) = raised not_a_json_object

-- `buildRoyaltyConfigExport`
unfoldable pub build_royalty_config_export :
    (Text → Option Number) → List Collaborator → Text → Result RoyaltyConfigFile
unfolding export_rows
build_royalty_config_export to_number collaborators created_at =
    if length collaborators == 0
    then raised no_collaborators
    else finished (export_rows to_number 1 collaborators no_rows)
        (λ entries. record { version = 1; created_at = created_at; collaborators = entries })

abbrev pub json_of_entry : Entry → Json
json_of_entry e =
    object
      (member "address" (string e.address) (member "percentage" (number e.percentage) no_members))

abbrev pub items_of : List Entry → Items
items_of [] = no_items
items_of (e ∷ es) = item (json_of_entry e) (items_of es)

-- The file's JSON, as it is stringified and parsed again.
unfoldable pub json_of : RoyaltyConfigFile → Json
json_of file = object (
    member "version" (number (natural file.version)) (
      member "createdAt" (string file.created_at)
        (member "collaborators" (array (items_of file.collaborators)) no_members)))

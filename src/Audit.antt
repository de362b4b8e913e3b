-- ===== src/Audit.antt =====
-- The audit log: backend/src/database/audit.js, with the list of actions of backend/src/validation.js.
-- What is raised is `none`. An object that is stored is read back
-- as it was.
pub mod Recorded
mod Tests
use stellar_royalty_splitter.Prelude.{
  ℕ, suc, ◌+◌, String, Bool, true, false, not, ◌&&◌, ◌||◌, Option, none, some, List, [], ◌∷◌, ◌++◌,
  ◌==◌, string_eq, if◌then◌else◌, any, keep, take, drop, count_if, or_else,
}
use stellar_royalty_splitter.Prelude.Text.{Text, codes, to_lower, includes}
use stellar_royalty_splitter.Prelude.TextOrder.{text_less, like}
use stellar_royalty_splitter.Prelude.Sorting.{sort}

-- The value of a field.
pub data Value : Type 0 where
  string : String → Value
  number : ℕ → Value
  null : Value

-- Details are an object, or a text as some callers pass it.
pub data Details : Type 0 where
  fields : List (Text × Value) → Details
  text : String → Details

pub record AuditEntry : Type 0 where
  pub id : ℕ
  pub contract_id : String
  pub action : String
  pub user : Option String
  pub details : Details
  pub timestamp : Text

pub record Log : Type 0 where
  pub entries : List AuditEntry
  pub next_id : ℕ
  pub writes : ℕ

abbrev pub audit_actions : List String
audit_actions =
    "contract_initialized"
    ∷ ("distribution_initiated"
        ∷ ("secondary_sale_recorded"
            ∷ ("royalty_rate_set" ∷ ("secondary_distribution_initiated" ∷ []))))

abbrev pub is_audit_action : String → Bool
is_audit_action action = any (λ listed. listed == action) audit_actions

-- `SENSITIVE_DETAIL_KEY_PATTERN`
unfoldable pub is_sensitive : Text → Bool
unfolding to_lower includes
is_sensitive key =
    let lower = to_lower key in
    any (λ word. includes lower (codes word))
      ("secret"
        ∷ ("privatekey"
            ∷ ("private_key" ∷ ("private-key" ∷ ("password" ∷ ("token" ∷ ("auth" ∷ [])))))))

-- `stripSensitiveDetails`
unfoldable pub strip_sensitive_details : Details → Details
strip_sensitive_details (fields all) = fields (keep (λ field. not (is_sensitive field.0)) all)
strip_sensitive_details (text details) = text details

-- `addAuditLog`
unfoldable pub add_audit_log : String → String → Option String → Details → Text → Log → Option Log
add_audit_log contract action user details now log =
    let entry : AuditEntry = record {
      id = log.next_id;
      contract_id = contract;
      action = action;
      user = user;
      details = strip_sensitive_details details;
      timestamp = now;
    } in
    if is_audit_action action
    then some (record {
      entries = log.entries ++ (entry ∷ []);
      next_id = log.next_id + 1;
      writes = log.writes + 1;
    })
    else none

-- The filters that are set.
pub record AuditFilters : Type 0 where
  pub action : Option String
  pub user : Option String
  pub start_date : Option Text
  pub end_date : Option Text
  pub search : Option Text

abbrev passes {ℓ} : {A : Type ℓ} → Option A → (A → Bool) → Bool
passes none p = true
passes (some a) p = p a

abbrev contains : Text → Text → Bool
contains pattern value = like value (b'%' ∷ (pattern ++ (b'%' ∷ [])))

module _ (json : Details → Text) where
  -- The conditions that both queries share; `json` is the text of stored details.
  unfoldable pub is_found : String → AuditFilters → AuditEntry → Bool
  is_found contract f e =
      e.contract_id == contract
      && (passes f.action (λ action. e.action == action)
          && (passes f.user (λ user. or_else e.user "" == user)
              && (passes f.start_date (λ start. not (text_less e.timestamp start))
                  && (passes f.end_date (λ end. not (text_less end e.timestamp))
                      && passes f.search (λ search.
                        contains search (codes e.action)
                        || (elim e.user [ none ↦ false | some user ↦ contains search (codes user) ]
                            || contains search (json e.details)))))))

  -- `getAuditLog`
  unfoldable pub get_audit_log : String → ℕ → ℕ → AuditFilters → Log → List AuditEntry
  get_audit_log contract limit offset f log = take limit (
      drop offset (
        sort (λ (a b : AuditEntry). text_less b.timestamp a.timestamp)
          (keep (is_found contract f) log.entries)))

  -- `countAuditLog`
  unfoldable pub count_audit_log : String → AuditFilters → Log → ℕ
  count_audit_log contract f log = count_if (is_found contract f) log.entries

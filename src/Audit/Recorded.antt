-- ===== src/Audit/Recorded.antt =====
-- What `addAuditLog` of backend/src/database/audit.js records.
use stellar_royalty_splitter.Prelude.{
  ◌≡◌, refl, String, true, false, not, Option, none, some, List, [], ◌∷◌, ◌++◌, All, keep,
  Bool-cases, inl, inr,
}
use stellar_royalty_splitter.Prelude.Text.{Text}
use stellar_royalty_splitter.Audit.{
  Value, Details, fields, text, AuditEntry, Log, is_audit_action, is_sensitive,
  strip_sensitive_details, add_audit_log,
}

abbrev pub NoSecrets : Details → Type 0
NoSecrets (fields all) = All (λ field. is_sensitive field.0 ≡ false) all
NoSecrets (text details) = Unit

-- What a call leads to.
abbrev pub Recorded : String → String → Log → Option Log → Type 0
Recorded contract action log none = is_audit_action action ≡ false
Recorded contract action log (some after) =
    (is_audit_action action ≡ true)
    × (entry : AuditEntry) × (after.entries ≡ log.entries ++ (entry ∷ []))
    × (entry.contract_id ≡ contract)
    × (entry.action ≡ action)
    × NoSecrets entry.details

keep_harmless :
    (all : List (Text × Value))
    → All (λ field. is_sensitive field.0 ≡ false) (keep (λ field. not (is_sensitive field.0)) all)
keep_harmless [] = tt
keep_harmless (field ∷ rest) = elim (Bool-cases (is_sensitive field.0)) [
  | inl h ↦ rw h (keep_harmless rest)
  | inr h ↦ rw h (h, keep_harmless rest)
]

strip_sensitive_details-NoSecrets :
    (details : Details) → NoSecrets (strip_sensitive_details details)
unfolding strip_sensitive_details
strip_sensitive_details-NoSecrets (fields all) = keep_harmless all
strip_sensitive_details-NoSecrets (text details) = tt

-- A call is refused exactly when its action is not listed; otherwise exactly one entry is added, with
-- the contract and the action of the call, and no field of an object under a sensitive name.
pub add_audit_log-Recorded :
    (contract action : String) (user : Option String) (details : Details) (now : Text) (log : Log)
    → Recorded contract action log (add_audit_log contract action user details now log)
unfolding add_audit_log
add_audit_log-Recorded contract action user details now log =
    elim (Bool-cases (is_audit_action action)) [
      | inr h ↦ rw h h
      | inl h ↦ rw h (h, _, refl, refl, refl, strip_sensitive_details-NoSecrets details)
    ]

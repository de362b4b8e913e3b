-- ===== src/Audit/Tests.antt =====
-- An entry whose details name a token, and an action that is not listed.
use stellar_royalty_splitter.Prelude.{◌≡◌, refl, none, [], ◌∷◌}
use stellar_royalty_splitter.Prelude.Text.{codes, to_lower, includes, starts_with}
use stellar_royalty_splitter.Audit.{
  number, string, fields, Log, is_sensitive, strip_sensitive_details, add_audit_log,
}
use stellar_royalty_splitter.Audit.Recorded.{Recorded, add_audit_log-Recorded}

abbrev empty : Log
empty = record { entries = []; next_id = 1; writes = 0 }

strip_tests :
    (strip_sensitive_details (
        fields (
          (codes "amount", number 5)
          ∷ ((codes "tokenId", string "C") ∷ ((codes "apiSecret", string "s") ∷ []))))
      ≡ fields ((codes "amount", number 5) ∷ []))
    × (add_audit_log "C1" "payment_schedule_created" none (fields []) (codes "2025") empty ≡ none)
unfolding strip_sensitive_details is_sensitive to_lower includes starts_with add_audit_log
strip_tests = (refl, refl)

add_audit_log-Recorded_example : Recorded "C1" "royalty_rate_set" empty (
    add_audit_log "C1" "royalty_rate_set" none
      (fields ((codes "tokenId", string "C") ∷ []))
      (codes "2025")
      empty)
add_audit_log-Recorded_example =
    add_audit_log-Recorded "C1" "royalty_rate_set" none
      (fields ((codes "tokenId", string "C") ∷ [])) (codes "2025") empty

-- ===== src/Access/Tests.antt =====
-- An operator with a key that expires, and requests with and without it. An expiry in ISO's format
-- passes until the end of its day.
use stellar_royalty_splitter.Prelude.{
  ◌≡◌, refl, String, true, false, none, some, [], ◌∷◌, nat_eq, string_eq, leb, arith,
}
use stellar_royalty_splitter.Prelude.Text.{Text, codes}
use stellar_royalty_splitter.Prelude.TextOrder.{text_less}
use stellar_royalty_splitter.Access.Roles.{
  Store, rank, select_role, resolve_role, attach_role, require_role, require_admin_bearer_or_role,
  create_api_key, create_user,
}
use stellar_royalty_splitter.Access.Grants.{is_held, require_role_granted}

abbrev noon : Text
noon = codes "2025-06-01 12:00:00"

abbrev next_day : Text
next_day = codes "2025-06-02 00:00:00"

abbrev digest : String → String
digest s = s

abbrev one_key : Store
one_key = record {
  users = record { id = 1; wallet_address = "GALICE"; role = "operator"; active = true } ∷ [];
  keys =
      record {
        id = 1;
        key_hash = "k1";
        user_id = 1;
        expires_at = some (codes "2025-06-01T09:00:00.000Z");
      }
      ∷ [];
  next_user = 2;
  next_key = 2;
}

role_tests :
    (attach_role digest noon (some "k1") one_key ≡ "operator")
    × (attach_role digest next_day (some "k1") one_key ≡ "viewer")
    × (attach_role digest noon (some "k2") one_key ≡ "viewer")
    × (attach_role digest noon none one_key ≡ "viewer")
    × (require_role "admin" "operator" ≡ some false)
    × (require_role "operator" "admin" ≡ some true)
    × (require_role "owner" "admin" ≡ none)
    × (require_admin_bearer_or_role "admin" (some "t") (some "t") "viewer" ≡ true)
    × (require_admin_bearer_or_role "admin" (some "t") (some "u") "viewer" ≡ false)
    × (create_user "GBOB" "owner" one_key ≡ none)
    × (create_user "GALICE" "admin" one_key ≡ none)
    × (create_api_key digest "k1" 1 none one_key ≡ none)
unfolding attach_role resolve_role select_role require_role rank require_admin_bearer_or_role
    create_user create_api_key text_less
role_tests = (refl, refl, refl, refl, refl, refl, refl, refl, refl, refl, refl, refl)

require_role_granted_example :
    (key : String) × (some "k1" ≡ some key)
    × (is_held (λ role. leb (rank "operator") (rank role)) noon (digest key) one_key ≡ true)
unfolding rank require_role attach_role resolve_role select_role text_less
require_role_granted_example =
    require_role_granted digest noon (some "k1") one_key "operator" (omega arith) refl

-- ===== src/Access/Roles.antt =====
-- backend/src/middleware/rbac.js. A rank is `ROLES.indexOf(role) + 1`, so that a role which is not in
-- the list has rank 0. The hash is a parameter. A time is the text that is
-- stored, which is not that of a number, and the present time the text of `CURRENT_TIMESTAMP`: the query compares them as texts.
use stellar_royalty_splitter.Prelude.{
  ℕ, suc, String, Bool, true, ◌&&◌, ◌||◌, Option, none, some, List, [], ◌∷◌, ◌++◌, ◌==◌, nat_eq,
  string_eq, leb, if◌then◌else◌, any, find_first, or_else,
}
use stellar_royalty_splitter.Prelude.Text.{Text}
use stellar_royalty_splitter.Prelude.TextOrder.{text_less}

pub record User : Type 0 where
  pub id : ℕ
  pub wallet_address : String
  pub role : String
  pub active : Bool

pub record ApiKey : Type 0 where
  pub id : ℕ
  pub key_hash : String
  pub user_id : ℕ
  pub expires_at : Option Text

pub record Store : Type 0 where
  pub users : List User
  pub keys : List ApiKey
  pub next_user : ℕ
  pub next_key : ℕ

unfoldable pub rank : String → ℕ
rank role =
    if role == "viewer"
    then 1
    else (if role == "collaborator"
        then 2
        else (if role == "operator" then 3 else (if role == "admin" then 4 else 0)))

abbrev pub is_current : Text → Option Text → Bool
is_current now none = true
is_current now (some t) = text_less now t

-- The conditions on the key of a row of the join, and on its user.
abbrev pub is_live : Text → String → ApiKey → Bool
is_live now hashed k = k.key_hash == hashed && is_current now k.expires_at

abbrev pub is_holder : ApiKey → User → Bool
is_holder k u = u.id == k.user_id && u.active

abbrev pub role_of : Option User → Option String → Option String
role_of none rest = rest
role_of (some u) rest = some u.role

-- The first row of the join, by the order of the keys.
unfoldable pub select_role : Text → String → List User → List ApiKey → Option String
select_role now hashed users [] = none
select_role now hashed users (k ∷ keys) =
    let rest = select_role now hashed users keys in
    if is_live now hashed k then role_of (find_first (is_holder k) users) rest else rest

-- `resolveRole`; an empty header is none.
unfoldable pub resolve_role : (String → String) → Text → Option String → Store → Option String
resolve_role hash_api_key now none s = none
resolve_role hash_api_key now (some key) s =
    if key == "" then none else select_role now (hash_api_key key) s.users s.keys

-- `attachRole`
unfoldable pub attach_role : (String → String) → Text → Option String → Store → String
attach_role hash_api_key now header s = or_else (resolve_role hash_api_key now header s) "viewer"

-- `requireRole`: `none` is the error for an unknown role, else whether the request passes.
unfoldable pub require_role : String → String → Option Bool
require_role min_role role =
    if rank min_role == 0 then none else some (leb (rank min_role) (rank role))

-- `requireAdminBearerOrRole`, with the trimmed bearer token of the request and the configured one, an
-- empty text being none.
unfoldable pub require_admin_bearer_or_role : String → Option String → Option String → String → Bool
require_admin_bearer_or_role min_role (some configured) (some token) role =
    if token == configured then true else leb (rank min_role) (rank role)
require_admin_bearer_or_role min_role none token role = leb (rank min_role) (rank role)
require_admin_bearer_or_role min_role (some configured) none role = leb (rank min_role) (rank role)

-- `createApiKey`; `none` is a hash that is stored already, where the insert throws.
unfoldable pub create_api_key :
    (String → String) → String → ℕ → Option Text → Store → Option (ℕ × Store)
create_api_key hash_api_key plain_key user_id expires_at s =
    let hashed = hash_api_key plain_key in
    if any (λ (k : ApiKey). k.key_hash == hashed) s.keys
    then none
    else (let k : ApiKey = record {
      id = s.next_key;
      key_hash = hashed;
      user_id = user_id;
      expires_at = expires_at;
    } in
        some (s.next_key, record s { keys = s.keys ++ (k ∷ []); next_key = suc s.next_key }))

-- `createUser`; `none` is the error for an unknown role, or a wallet that has a user. A new user is
-- active.
unfoldable pub create_user : String → String → Store → Option (ℕ × Store)
create_user wallet_address role s =
    if rank role == 0 || any (λ (u : User). u.wallet_address == wallet_address) s.users
    then none
    else (let u : User = record {
      id = s.next_user;
      wallet_address = wallet_address;
      role = role;
      active = true;
    } in
        some (s.next_user, record s { users = s.users ++ (u ∷ []); next_user = suc s.next_user }))

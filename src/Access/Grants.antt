-- ===== src/Access/Grants.antt =====
-- Who passes the guards of a role.
use stellar_royalty_splitter.Prelude.{
  ◌<◌, ◌≡◌, ◌≢◌, refl, sym, ap, String, Bool, true, false, ◌&&◌, Option, none, some, List, [], ◌∷◌,
  ◌==◌, nat_eq, string_eq, leb, if◌then◌else◌, any, find_first, or_else, Bool-cases, Option-cases,
  inl, inr, arith,
}
use mathlib.Core.Path.{subst}
use stellar_royalty_splitter.Prelude.Text.{Text}
use stellar_royalty_splitter.Access.Roles.{
  User, ApiKey, Store, rank, is_live, is_holder, select_role, resolve_role, attach_role,
  require_role, require_admin_bearer_or_role,
}

-- The role of an active user who holds a live key with the hash is one that satisfies the test.
abbrev pub is_held : (String → Bool) → Text → String → Store → Bool
is_held test now hashed s =
    any (λ k. is_live now hashed k && any (λ u. is_holder k u && test u.role) s.users) s.keys

first_of :
    {A : Type 0} (p : A → Bool) (x : A) (xs : List A) {o : Option A}
    → p x ≡ true
    → find_first p (x ∷ xs) ≡ o
    → some x ≡ o
first_of p x xs hit is = rw hit at is

rest_of :
    {A : Type 0} (p : A → Bool) (x : A) (xs : List A) {o : Option A}
    → p x ≡ false
    → find_first p (x ∷ xs) ≡ o
    → find_first p xs ≡ o
rest_of p x xs miss is = rw miss at is

any-find_first :
    (test : String → Bool) (k : ApiKey) (users : List User) (u : User)
    → find_first (is_holder k) users ≡ some u
    → test u.role ≡ true
    → any (λ v. is_holder k v && test v.role) users ≡ true
any-find_first test k [] u is hit = cc
any-find_first test k (v ∷ users) u is hit = elim (Bool-cases (is_holder k v)) [
  | inl holds ↦
      let same : v ≡ u = ap (λ o. or_else o u) (first_of (is_holder k) v users holds is) in
      let fits = subst (λ x. test x.role ≡ true) (sym same) hit in ground (arith, holds, fits)
  | inr other ↦
      ground
        (arith, other, any-find_first test k users u (rest_of (is_holder k) v users other is) hit)
]

keep_first :
    (b : Bool) (x y : Option String) {o : Option String}
    → b ≡ true
    → (if b then x else y) ≡ o
    → x ≡ o
keep_first b x y is h = rw is at h

skip :
    (b : Bool) (x y : Option String) {o : Option String}
    → b ≡ false
    → (if b then x else y) ≡ o
    → y ≡ o
skip b x y is h = rw is at h

none_is_none : {r : String} → none ≡ some r → ⊥
none_is_none h = ground (arith, h)

select_role-is_held :
    (test : String → Bool) (now : Text) (hashed : String) (users : List User) (keys : List ApiKey)
    (role : String)
    → select_role now hashed users keys ≡ some role
    → test role ≡ true
    → any (λ k. is_live now hashed k && any (λ u. is_holder k u && test u.role) users) keys ≡ true
unfolding select_role
select_role-is_held test now hashed users [] role is hit = cc
select_role-is_held test now hashed users (k ∷ keys) role is hit =
    elim (Bool-cases (is_live now hashed k)) [
      | inr dead ↦ ground (
        arith,
        dead,
        select_role-is_held test now hashed users keys role (skip _ _ _ dead is) hit,
      )
      | inl live ↦ elim (Option-cases (find_first (is_holder k) users)) [
        | inl nobody ↦
            let later = keep_first _ _ _ live is in
            let later' : select_role now hashed users keys ≡ some role = rw nobody at later in
            ground (arith, select_role-is_held test now hashed users keys role later' hit)
        | inr (u, holds) ↦
            let now_role = keep_first _ _ _ live is in
            let same : some u.role ≡ some role = rw holds at now_role in
            let fits : test u.role ≡ true =
              subst (λ r. test r ≡ true) (sym (ap (λ o. or_else o role) same)) hit in
            ground (arith, live, any-find_first test k users u holds fits)
      ]
    ]

granted_rank :
    (min_role role : String)
    → require_role min_role role ≡ some true
    → leb (rank min_role) (rank role) ≡ true
unfolding require_role
granted_rank min_role role granted = ground arith

not_viewer :
    (min_role role : String)
    → rank "viewer" < rank min_role
    → require_role min_role role ≡ some true
    → role ≢ "viewer"
not_viewer min_role role above granted is =
    let fits =
      subst (λ r. leb (rank min_role) (rank r) ≡ true) is (granted_rank min_role role granted) in
    ground (arith, above, fits)

resolve_none :
    (hash_api_key : String → String) (now : Text) (s : Store)
    → resolve_role hash_api_key now none s ≡ none
unfolding resolve_role
resolve_none hash_api_key now s = refl

resolve_some :
    (hash_api_key : String → String) (now : Text) (key : String) (s : Store) (role : String)
    → resolve_role hash_api_key now (some key) s ≡ some role
    → select_role now (hash_api_key key) s.users s.keys ≡ some role
unfolding resolve_role
resolve_some hash_api_key now key s role is = elim (Bool-cases (key == "")) [
  | inr given ↦ skip (key == "") none _ given is
  | inl empty ↦ absurd (none_is_none (keep_first (key == "") none _ empty is))
]

-- A request passes the guard of a role above viewer only with the key of an active user whose role is
-- at least as high, where the key is stored by its hash, and either has no expiry or one whose text comes
-- behind the text of the present time in SQLite's format.
pub require_role_granted :
    (hash_api_key : String → String) (now : Text) (header : Option String) (s : Store)
    (min_role : String)
    → rank "viewer" < rank min_role
    → require_role min_role (attach_role hash_api_key now header s) ≡ some true
    → (key : String) × (header ≡ some key)
      × (is_held (λ role. leb (rank min_role) (rank role)) now (hash_api_key key) s ≡ true)
unfolding attach_role
require_role_granted hash_api_key now none s min_role above granted = absurd (
    not_viewer min_role _ above granted
      (ap (λ o. or_else o "viewer") (resolve_none hash_api_key now s)))
require_role_granted hash_api_key now (some key) s min_role above granted =
    elim (Option-cases (resolve_role hash_api_key now (some key) s)) [
      | inl nothing ↦
          absurd (not_viewer min_role _ above granted (ap (λ o. or_else o "viewer") nothing))
      | inr (role, is) ↦
          let same : attach_role hash_api_key now (some key) s ≡ role =
            ap (λ o. or_else o "viewer") is in
          let fits =
            granted_rank min_role role
              (subst (λ r. require_role min_role r ≡ some true) same granted) in
          (
            key,
            refl,
            select_role-is_held (λ r. leb (rank min_role) (rank r)) now (hash_api_key key) s.users
                s.keys role (resolve_some hash_api_key now key s role is) fits,
          )
    ]

-- The guard that also takes the administrators' token lets everybody pass if it is given a role that
-- is not in the list, where `require_role` raises an error.
pub unknown_role_passes :
    (min_role role : String) (configured token : Option String)
    → rank min_role ≡ 0
    → (require_role min_role role ≡ none)
      × (require_admin_bearer_or_role min_role configured token role ≡ true)
unfolding require_role require_admin_bearer_or_role
unknown_role_passes min_role role none token unknown = (ground arith, ground arith)
unknown_role_passes min_role role (some c) none unknown = (ground arith, ground arith)
unknown_role_passes min_role role (some c) (some t) unknown = (ground arith, ground arith)

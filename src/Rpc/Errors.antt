-- ===== src/Rpc/Errors.antt =====
-- `isTransientError` of backend/src/rpc-retry.js. A message is the list of its code points, and
-- `toLowerCase` is that of ASCII. The keys of the returned object are the fields of `Analysis`.
use stellar_royalty_splitter.Prelude.{
  ℕ, ◌≡◌, refl, ◌≢◌, ◌↔◌, ◌⊎◌, String, Bool, true, false, ◌||◌, Option, none, some, List, [], ◌∷◌,
  any, arith, ◌==◌, nat_eq, string_eq, if◌then◌else◌, or_else,
}
use stellar_royalty_splitter.Prelude.Text.{codes, includes, to_lower}

pub record RpcError : Type 0 where
  pub message : Option (List ℕ)
  pub msg : Option (List ℕ)
  pub response_status : Option ℕ
  pub status : Option ℕ
  pub code : Option String
  pub errno : Option String

pub data Category : Type 0 where
  invalid contract_error account_error network_error unknown : Category
  http : ℕ → Category
  network : String → Category

pub data Reason : Type 0 where
  unknown_error simulation_error account_not_found rate_limit : Reason
  service_unavailable gateway_timeout request_timeout : Reason
  permanent_client_error network_failure network_error_from_message : Reason

pub record Analysis : Type 0 where
  pub is_transient : Bool
  pub reason : Reason
  pub category : Category
  pub retryable : Bool

abbrev transient : Reason → Category → Analysis
transient reason category = record {
  is_transient = true;
  reason = reason;
  category = category;
  retryable = true;
}

abbrev permanent : Reason → Category → Analysis
permanent reason category = record {
  is_transient = false;
  reason = reason;
  category = category;
  retryable = false;
}

-- `(error?.message ?? error?.msg ?? "").toLowerCase()`
unfoldable pub error_msg : RpcError → List ℕ
error_msg e = to_lower (or_else e.message (or_else e.msg []))

-- `error?.response?.status ?? error?.status`
unfoldable pub http_status : RpcError → Option ℕ
http_status e = elim e.response_status [ none ↦ e.status | some s ↦ some s ]

-- `error?.code ?? error?.errno`
unfoldable pub error_code : RpcError → Option String
error_code e = elim e.code [ none ↦ e.errno | some s ↦ some s ]

unfoldable pub mentions : List ℕ → List String → Bool
mentions msg words = any (λ w. includes msg (codes w)) words

abbrev pub is_status : Option ℕ → ℕ → Bool
is_status none n = false
is_status (some s) n = s == n

abbrev pub is_client_error : Option ℕ → Bool
is_client_error s = is_status s 400 || (is_status s 401 || (is_status s 403 || is_status s 404))

-- `networkErrors.includes(errorCode)`, with the code that was found.
unfoldable pub network_code : Option String → Option String
network_code none = none
network_code (some c) =
    if any (λ k. c == k) ("ENOTFOUND" ∷ "ECONNREFUSED" ∷ "ETIMEDOUT" ∷ "EHOSTUNREACH" ∷ [])
    then some c
    else none

-- The tests from the network errors on.
unfoldable pub classify_network : List ℕ → Option String → Analysis
classify_network msg (some c) = transient network_failure (network c)
classify_network msg none =
    if mentions msg ("timed out" ∷ "timeout" ∷ "network" ∷ "econnrefused" ∷ [])
    then transient network_error_from_message network_error
    else permanent unknown_error unknown

-- The tests on the HTTP status.
unfoldable pub classify_status : List ℕ → Option ℕ → Option String → Analysis
unfolding classify_network
classify_status msg status code =
    if is_status status 429
    then transient rate_limit (http 429)
    else (if is_status status 503
        then transient service_unavailable (http 503)
        else (if is_status status 504
            then transient gateway_timeout (http 504)
            else (if is_status status 408
                then transient request_timeout (http 408)
                else (if is_client_error status
                    then permanent permanent_client_error (http (or_else status 0))
                    else classify_network msg (network_code code)))))

-- `isTransientError`; `none` is a falsy error.
unfoldable pub is_transient_error : Option RpcError → Analysis
unfolding classify_status
is_transient_error none = permanent unknown_error invalid
is_transient_error (some e) =
    if mentions (error_msg e) ("simulation" ∷ "contract" ∷ "invocation" ∷ [])
    then permanent simulation_error contract_error
    else (if mentions (error_msg e) ("account not found" ∷ [])
        then permanent account_not_found account_error
        else classify_status (error_msg e) (http_status e) (error_code e))

-- An error is transient exactly when its message names neither the simulation, the contract or an
-- invocation nor a missing account, and its status is 429, 503, 504 or 408, or is no permanent
-- client error while its code or its message speaks of the network.
pub is_transient_iff :
    (e : RpcError)
    → ((is_transient_error (some e)).is_transient ≡ true) ↔ (
        (mentions (error_msg e) ("simulation" ∷ "contract" ∷ "invocation" ∷ []) ≡ false)
        × (mentions (error_msg e) ("account not found" ∷ []) ≡ false)
        × ((http_status e ≡ some 429)
            ⊎ (http_status e ≡ some 503)
            ⊎ (http_status e ≡ some 504)
            ⊎ (http_status e ≡ some 408)
            ⊎ ((is_client_error (http_status e) ≡ false)
                × ((network_code (error_code e) ≢ none)
                    ⊎ (mentions
                          (error_msg e)
                          ("timed out" ∷ "timeout" ∷ "network" ∷ "econnrefused" ∷ [])
                        ≡ true)))))
unfolding is_transient_error
is_transient_iff e = ground arith

-- The two flags of an analysis always agree.
pub retryable-eq-is_transient :
    (e : Option RpcError) → (is_transient_error e).retryable ≡ (is_transient_error e).is_transient
unfolding is_transient_error
retryable-eq-is_transient none = refl
retryable-eq-is_transient (some e) = ground arith

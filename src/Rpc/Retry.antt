-- ===== src/Rpc/Retry.antt =====
-- `withRetry` of backend/src/rpc-retry.js. The operation is the sequence of its outcomes, by the
-- number of the call; the draws of `Math.random` are a sequence too. A run says how the promise
-- settled, how many calls were made, and the delays that were waited. Log lines are left out.
use stellar_royalty_splitter.Prelude.{
  ℕ, zero, suc, String, Bool, not, ◌||◌, Option, none, some, List, [], ◌∷◌, ◌==◌, string_eq, nat_eq,
  if◌then◌else◌,
}
use stellar_royalty_splitter.Rpc.Errors.{RpcError, is_transient_error}
use stellar_royalty_splitter.Rpc.Backoff.{Config, get_backoff_delay}

-- One call of `operation()`.
pub data Outcome (A : Type 0) : Type 0 where
  resolved : A → Outcome A
  rejected : RpcError → Outcome A

-- How `withRetry` settles; `failed_unknown` is the error thrown behind the loop.
pub data Settled (A : Type 0) : Type 0 where
  returned : A → Settled A
  threw : RpcError → Settled A
  failed_unknown : Settled A

pub record Run (A : Type 0) : Type 0 where
  pub settled : Settled A
  pub calls : ℕ
  pub delays : List ℕ

-- `shouldRetry` may be absent, and may answer `null`.
pub record Options : Type 0 where
  pub operation_type : String
  pub max_retries : ℕ
  pub should_retry : Option (RpcError → ℕ → Option Bool)

abbrev pub decision : Option Bool → Bool → Bool
decision none default = default
decision (some b) default = b

abbrev custom : Option (RpcError → ℕ → Option Bool) → RpcError → ℕ → Option Bool
custom none error attempt = none
custom (some predicate) error attempt = predicate error attempt

-- `shouldRetryThis`
unfoldable pub should_retry_this : Options → RpcError → ℕ → Bool
should_retry_this options error attempt =
    decision (custom options.should_retry error attempt)
      (is_transient_error (some error)).is_transient

abbrev pub settle : {A : Type 0} → Outcome A → Settled A
settle (resolved a) = returned a
settle (rejected e) = threw e

abbrev waited : {A : Type 0} → ℕ → Run A → Run A
waited delay run = record run { delays = delay ∷ run.delays }

-- The body of the loop at one attempt; `rest` is the run of the next attempts.
unfoldable pub attempt_once :
    {A : Type 0} → Config → ℕ → (ℕ → ℕ) → Options → ℕ → Outcome A → Run A → Run A
attempt_once cfg grain draws options attempt (resolved a) rest = record {
  settled = returned a;
  calls = attempt;
  delays = [];
}
attempt_once cfg grain draws options attempt (rejected e) rest =
    if not (should_retry_this options e attempt) || attempt == options.max_retries
    then record { settled = threw e; calls = attempt; delays = [] }
    else waited (get_backoff_delay cfg grain (draws attempt) attempt) rest

-- `for (let attempt = 1; attempt <= maxRetries; attempt++)`, by the number of attempts left.
unfoldable pub retry_loop :
    {A : Type 0} → Config → ℕ → (ℕ → ℕ) → Options → (ℕ → Outcome A) → ℕ → ℕ → Run A
unfolding attempt_once
retry_loop cfg grain draws options operation zero attempt = record {
  settled = failed_unknown;
  calls = 0;
  delays = [];
}
retry_loop cfg grain draws options operation (suc left) attempt =
    let rest = retry_loop cfg grain draws options operation left (suc attempt) in
    attempt_once cfg grain draws options attempt (operation attempt) rest

-- Submissions are never retried: the operation is called once, outside the loop.
abbrev pub is_submission : String → Bool
is_submission type = type == "submitTransaction" || type == "submit"

unfoldable pub with_retry : {A : Type 0} → Config → ℕ → (ℕ → ℕ) → Options → (ℕ → Outcome A) → Run A
unfolding retry_loop
with_retry cfg grain draws options operation =
    if is_submission options.operation_type
    then record { settled = settle (operation 1); calls = 1; delays = [] }
    else retry_loop cfg grain draws options operation options.max_retries 1

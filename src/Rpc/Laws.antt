-- ===== src/Rpc/Laws.antt =====
-- What the retry loop guarantees: a bounded number of calls, a retry only behind a retryable error,
-- and the outcome of the last call.
use stellar_royalty_splitter.Prelude.{
  ℕ, zero, suc, ◌+◌, ◌≤◌, ◌<◌, ◌≡◌, refl, true, false, ◌⊎◌, inl, inr, [], ◌∷◌, ◌==◌, string_eq,
  nat_eq, arith, length, All, Bool-cases,
}
use native.Mathlib.Decide.{ℕ_discrete}
use mathlib.Core.Path.{subst}
use stellar_royalty_splitter.Rpc.Backoff.{Config, get_backoff_delay, get_backoff_delay_bounds}
use stellar_royalty_splitter.Rpc.Retry.{
  Outcome, resolved, rejected, Run, Options, should_retry_this, settle, attempt_once, retry_loop,
  is_submission, with_retry,
}

-- The outcome was an error that the options let be retried.
abbrev pub Retryable : {A : Type 0} → Options → ℕ → Outcome A → Type 0
Retryable options attempt (resolved a) = ⊥
Retryable options attempt (rejected e) = should_retry_this options e attempt ≡ true

-- The run may stop at this outcome: it succeeded, is not retryable, or was the last attempt.
abbrev pub Final : {A : Type 0} → Options → ℕ → Outcome A → Type 0
Final options attempt (resolved a) = Unit
Final options attempt (rejected e) =
    (should_retry_this options e attempt ≡ false) ⊎ (attempt ≡ options.max_retries)

module _ {A : Type 0} (cfg : Config) (grain : ℕ) (draws : ℕ → ℕ) (options : Options)
    (operation : ℕ → Outcome A) where
  -- A run from the attempt `first` on.
  pub record IsRun (first : ℕ) (run : Run A) : Type 0 where
    pub starts : first ≤ run.calls
    pub bounded : run.calls ≤ options.max_retries
    pub outcome : run.settled ≡ settle (operation run.calls)
    pub final : Final options run.calls (operation run.calls)
    pub retried : (i : ℕ) → first ≤ i → i < run.calls → Retryable options i (operation i)
    pub waits : length run.delays + first ≡ run.calls
    pub capped : All (λ delay. delay ≤ cfg.max_backoff_ms) run.delays

  stop-IsRun :
      (attempt : ℕ)
      → attempt ≤ options.max_retries
      → Final options attempt (operation attempt)
      → IsRun attempt
          (record { settled = settle (operation attempt); calls = attempt; delays = [] })
  stop-IsRun attempt le final = record {
    starts = omega arith;
    bounded = le;
    outcome = refl;
    final = final;
    retried = λ i low high. absurd (omega arith);
    waits = omega arith;
    capped = tt;
  }

  continue-IsRun :
      (attempt : ℕ) (rest : Run A)
      → draws attempt < grain
      → Retryable options attempt (operation attempt)
      → IsRun (suc attempt) rest
      → IsRun attempt (record rest {
        delays = get_backoff_delay cfg grain (draws attempt) attempt ∷ rest.delays;
      })
  continue-IsRun attempt rest drawn again h = record {
    starts = omega (arith, h.starts);
    bounded = h.bounded;
    outcome = h.outcome;
    final = h.final;
    retried = λ i low high. elim (ℕ_discrete attempt i) [
      | yes same ↦ subst (λ k. Retryable options k (operation k)) same again
      | no later ↦ h.retried i (omega arith) high
    ];
    waits = omega (arith, h.waits);
    capped = ((get_backoff_delay_bounds cfg grain (draws attempt) attempt drawn).0, h.capped);
  }

  attempt_once-IsRun :
      (attempt : ℕ) (outcome : Outcome A) (rest : Run A)
      → draws attempt < grain
      → attempt ≤ options.max_retries
      → operation attempt ≡ outcome
      → (attempt < options.max_retries → IsRun (suc attempt) rest)
      → IsRun attempt (attempt_once cfg grain draws options attempt outcome rest)
  unfolding attempt_once
  attempt_once-IsRun attempt (resolved a) rest drawn le is h =
      rw is at (stop-IsRun attempt le (rw is tt))
  attempt_once-IsRun attempt (rejected e) rest drawn le is h =
      elim (Bool-cases (should_retry_this options e attempt)) [
        | inr never ↦ rw never (rw is at (stop-IsRun attempt le (rw is (inl never))))
        | inl again ↦ rw again (elim (Bool-cases (attempt == options.max_retries)) [
          | inl last ↦ rw last (rw is at (stop-IsRun attempt le (rw is (inr (ground arith)))))
          | inr more ↦ rw more (continue-IsRun attempt rest drawn (rw is again) (h (ground arith)))
        ])
      ]

  retry_loop-IsRun :
      (left attempt : ℕ)
      → ((i : ℕ) → draws i < grain)
      → 1 ≤ left
      → left + attempt ≡ suc options.max_retries
      → IsRun attempt (retry_loop cfg grain draws options operation left attempt)
  unfolding retry_loop
  retry_loop-IsRun zero attempt drawn some_left is = absurd (omega arith)
  retry_loop-IsRun (suc left) attempt drawn some_left is =
      attempt_once-IsRun attempt (operation attempt) _ (drawn attempt) (omega arith) refl
        (λ more. retry_loop-IsRun left (suc attempt) drawn (omega arith) (omega arith))

  -- If retries are allowed and the operation is no submission, `withRetry` makes between 1 and
  -- `maxRetries` calls and settles as the last of them did. Every earlier call failed with an error
  -- that may be retried; the last one succeeded, failed for good, or was the last attempt. It waits
  -- once between two calls, and never longer than `maxBackoffMs`.
  pub with_retry-IsRun :
      ((i : ℕ) → draws i < grain)
      → 1 ≤ options.max_retries
      → is_submission options.operation_type ≡ false
      → IsRun 1 (with_retry cfg grain draws options operation)
  unfolding with_retry
  with_retry-IsRun drawn allowed ordinary =
      rw ordinary (retry_loop-IsRun options.max_retries 1 drawn allowed (omega arith))

  -- A submission is called exactly once, whatever it answers and whatever the options are.
  pub with_retry_submission :
      is_submission options.operation_type ≡ true
      → with_retry cfg grain draws options operation
        ≡ record { settled = settle (operation 1); calls = 1; delays = [] }
  unfolding with_retry
  with_retry_submission submits = rw submits

-- ===== src/Rpc/Tests.antt =====
-- Retried operations, and errors as Horizon and Soroban report them.
use stellar_royalty_splitter.Prelude.{
  ℕ, zero, suc, ◌+◌, ◌*◌, ◌≤◌, ◌≡◌, refl, true, false, none, some, [], ◌∷◌, string_eq, arith,
}
use stellar_royalty_splitter.Prelude.Text.{codes, includes, to_lower}
use stellar_royalty_splitter.Rpc.Errors.{
  RpcError, rate_limit, simulation_error, network_failure, http, network, contract_error,
  is_transient_error, mentions, error_msg, http_status, error_code, network_code,
}
use stellar_royalty_splitter.Rpc.Backoff.{
  retry_config, capped_delay, get_backoff_delay, get_backoff_delay_bounds,
}
use stellar_royalty_splitter.Rpc.Retry.{
  Outcome, resolved, rejected, returned, threw, Options, with_retry, should_retry_this,
}
use stellar_royalty_splitter.Rpc.Laws.{IsRun, with_retry-IsRun}

abbrev plain : RpcError
plain = record {
  message = none;
  msg = none;
  response_status = none;
  status = none;
  code = none;
  errno = none;
}

abbrev limited : RpcError
limited = record plain { status = some 429 }

abbrev trapped : RpcError
trapped = record plain { message = some (codes "Contract trapped"); status = some 503 }

abbrev refused : RpcError
refused = record plain { code = some "ECONNREFUSED" }

classifier : Unit {0}
unfolding is_transient_error mentions error_msg http_status error_code network_code includes
    to_lower
classifier = tt

classify_tests :
    (is_transient_error (some limited)
      ≡ record { is_transient = true; reason = rate_limit; category = http 429; retryable = true })
    × (is_transient_error (some trapped) ≡ record {
      is_transient = false;
      reason = simulation_error;
      category = contract_error;
      retryable = false;
    })
    × (is_transient_error (some refused) ≡ record {
      is_transient = true;
      reason = network_failure;
      category = network "ECONNREFUSED";
      retryable = true;
    })
unfolding classifier
classify_tests = (refl, refl, refl)

-- Two rate limits, then an answer.
abbrev flaky : ℕ → Outcome ℕ
flaky zero = rejected limited
flaky (suc zero) = rejected limited
flaky (suc (suc zero)) = rejected limited
flaky (suc (suc (suc n))) = resolved 42

abbrev reading : Options
reading = record { operation_type = "getAccount"; max_retries = 3; should_retry = none }

abbrev submitting : Options
submitting = record reading { operation_type = "submitTransaction" }

with_retry_tests :
    (with_retry retry_config 2 (λ _. 1) reading flaky
      ≡ record { settled = returned 42; calls = 3; delays = 1000 ∷ 2000 ∷ [] })
    × (with_retry retry_config 2 (λ _. 1) (record reading { max_retries = 2 }) flaky
        ≡ record { settled = threw limited; calls = 2; delays = 1000 ∷ [] })
    × (with_retry retry_config 2 (λ _. 1) submitting flaky
        ≡ record { settled = threw limited; calls = 1; delays = [] })
unfolding with_retry should_retry_this classifier get_backoff_delay
with_retry_tests = (refl, refl, refl)

get_backoff_delay_bounds_example :
    (get_backoff_delay retry_config 100 99 9 ≤ 30000)
    × (9 * capped_delay retry_config 9 ≤ 10 * get_backoff_delay retry_config 100 99 9 + 5)
    × (10 * get_backoff_delay retry_config 100 99 9 ≤ 11 * capped_delay retry_config 9 + 5)
get_backoff_delay_bounds_example = get_backoff_delay_bounds retry_config 100 99 9 (omega arith)

with_retry-IsRun_example :
    IsRun retry_config 2 (λ _. 1) reading flaky 1 (with_retry retry_config 2 (λ _. 1) reading flaky)
with_retry-IsRun_example =
    with_retry-IsRun retry_config 2 (λ _. 1) reading flaky (λ i. omega arith) (omega arith) refl

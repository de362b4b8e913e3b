-- ===== src/Rpc/Backoff.antt =====
-- `retryConfig` and `getBackoffDelay` of backend/src/rpc-retry.js. `Math.random()` is the fraction
-- `draw / grain` with `draw < grain`, and the products are exact: the rounding of the doubles in
-- `0.9 + Math.random() * 0.2` is left out. `Math.round` rounds a half up.
use stellar_royalty_splitter.Prelude.{ℕ, ◌+◌, ◌-◌, ◌*◌, ◌/◌, ◌^◌, ◌≤◌, ◌<◌, min, arith}
use native.Mathlib.Nat.{lt-mul-div-succ, mul-div-le, mul-le-mul_left, le_of_mul-le-mul_left}

pub record Config : Type 0 where
  pub max_retries : ℕ
  pub base_backoff_ms : ℕ
  pub max_backoff_ms : ℕ

-- The defaults of the environment variables.
abbrev pub retry_config : Config
retry_config = record { max_retries = 3; base_backoff_ms = 1000; max_backoff_ms = 30000 }

-- `Math.min(baseBackoffMs * 2 ** (attemptNumber - 1), maxBackoffMs)`, for attempts from 1 on.
unfoldable pub capped_delay : Config → ℕ → ℕ
capped_delay cfg attempt_number =
    min (cfg.base_backoff_ms * 2 ^ (attempt_number - 1)) cfg.max_backoff_ms

-- `Math.round(capped * (0.9 + draw / grain * 0.2))`: the factor is `(9 grain + 2 draw) / 10 grain`.
unfoldable pub jittered : ℕ → ℕ → ℕ → ℕ
jittered grain draw capped = (2 * (capped * (9 * grain + 2 * draw)) + 10 * grain) / (20 * grain)

unfoldable pub get_backoff_delay : Config → ℕ → ℕ → ℕ → ℕ
unfolding capped_delay jittered
get_backoff_delay cfg grain draw attempt_number =
    min (jittered grain draw (capped_delay cfg attempt_number)) cfg.max_backoff_ms

-- A number `j` that is the rounded quotient lies within half a unit of the exact value.
rounded_low :
    (grain draw capped j : ℕ)
    → 2 * (capped * (9 * grain + 2 * draw)) + 10 * grain < 20 * grain * (j + 1)
    → grain * (9 * capped) ≤ grain * (10 * j + 5)
rounded_low grain draw capped j above = omega arith

rounded_high :
    (grain draw capped j : ℕ)
    → 20 * grain * j ≤ 2 * (capped * (9 * grain + 2 * draw)) + 10 * grain
    → capped * draw ≤ capped * grain
    → grain * (10 * j) ≤ grain * (11 * capped + 5)
rounded_high grain draw capped j below draws = omega arith

jittered_bounds :
    (grain draw capped : ℕ)
    → draw < grain
    → (9 * capped ≤ 10 * jittered grain draw capped + 5)
      × (10 * jittered grain draw capped ≤ 11 * capped + 5)
unfolding jittered
jittered_bounds grain draw capped h =
    let total = 2 * (capped * (9 * grain + 2 * draw)) + 10 * grain in
    let some_grain : 0 < grain = omega arith in
    let divisor : 0 < 20 * grain = omega arith in
    let above = lt-mul-div-succ total divisor in
    let draws : capped * draw ≤ capped * grain = mul-le-mul_left capped (omega arith) in
    (
      le_of_mul-le-mul_left (rounded_low grain draw capped (total / (20 * grain)) above) some_grain,
      le_of_mul-le-mul_left
          (rounded_high grain draw capped (total / (20 * grain)) (mul-div-le total (20 * grain))
            draws)
          some_grain,
    )

-- The delay never exceeds `maxBackoffMs`, is at least nine tenths of the capped exponential delay
-- rounded to the nearest millisecond, and at most eleven tenths of it; for every attempt and draw.
pub get_backoff_delay_bounds :
    (cfg : Config) (grain draw attempt_number : ℕ)
    → draw < grain
    → let capped = capped_delay cfg attempt_number in
      let delay = get_backoff_delay cfg grain draw attempt_number in
      (delay ≤ cfg.max_backoff_ms) × (9 * capped ≤ 10 * delay + 5) × (10 * delay ≤ 11 * capped + 5)
unfolding get_backoff_delay
get_backoff_delay_bounds cfg grain draw attempt_number h =
    let capped = capped_delay cfg attempt_number in
    let (low, high) = jittered_bounds grain draw capped h in (omega arith, omega arith, omega arith)

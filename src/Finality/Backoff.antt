-- ===== src/Finality/Backoff.antt =====
-- `computeBackoffMs` of backend/src/transaction-finality.js. `Math.random()` is the fraction
-- `draw / grain` with `draw < grain`, the products are exact, and `Math.round` rounds a half up.
use stellar_royalty_splitter.Prelude.{ℕ, ◌+◌, ◌*◌, ◌/◌, ◌^◌, ◌≤◌, ◌<◌, min, arith}
use native.Mathlib.Nat.{lt-mul-div-succ, mul-div-le, mul-le-mul_left, le_of_mul-le-mul_left}

-- The settings, with the grain of the random fractions.
pub record Config : Type 0 where
  pub base_poll_ms : ℕ
  pub max_poll_ms : ℕ
  pub max_poll_duration_ms : ℕ
  pub grain : ℕ

abbrev pub default_config : Config
default_config = record {
  base_poll_ms = 100;
  max_poll_ms = 5000;
  max_poll_duration_ms = 600000;
  grain = 1000;
}

abbrev pub capped_interval : Config → ℕ → ℕ
capped_interval cfg attempt = min (cfg.base_poll_ms * 2 ^ attempt) cfg.max_poll_ms

-- `base + base * 0.25 * (random * 2 - 1)` is `base * (3 grain + 2 draw) / (4 grain)`, rounded.
unfoldable pub compute_backoff_ms : Config → ℕ → ℕ → ℕ
compute_backoff_ms cfg draw attempt =
    (2 * (capped_interval cfg attempt * (3 * cfg.grain + 2 * draw)) + 4 * cfg.grain)
    / (8 * cfg.grain)

round_low :
    (grain draw base j : ℕ)
    → 2 * (base * (3 * grain + 2 * draw)) + 4 * grain < 8 * grain * (j + 1)
    → grain * (3 * base) ≤ grain * (4 * j + 2)
round_low grain draw base j above = omega arith

round_high :
    (grain draw base j : ℕ)
    → 8 * grain * j ≤ 2 * (base * (3 * grain + 2 * draw)) + 4 * grain
    → base * draw ≤ base * grain
    → grain * (4 * j) ≤ grain * (5 * base + 2)
round_high grain draw base j below draws = omega arith

-- The wait before a poll is within a quarter of the capped interval, up to the rounding to whole
-- milliseconds; so it is at most five quarters of `MAX_POLL_MS`, for every attempt and draw.
pub compute_backoff_ms_bounds :
    (cfg : Config) (draw attempt : ℕ)
    → draw < cfg.grain
    → let wait = compute_backoff_ms cfg draw attempt in
      let base = capped_interval cfg attempt in
      (3 * base ≤ 4 * wait + 2) × (4 * wait ≤ 5 * base + 2) × (4 * wait ≤ 5 * cfg.max_poll_ms + 2)
unfolding compute_backoff_ms
compute_backoff_ms_bounds cfg draw attempt h =
    let base = capped_interval cfg attempt in
    let grain = cfg.grain in
    let total = 2 * (base * (3 * grain + 2 * draw)) + 4 * grain in
    let wait = total / (8 * grain) in
    let some_grain : 0 < grain = omega arith in
    let divisor : 0 < 8 * grain = omega arith in
    let draws : base * draw ≤ base * grain = mul-le-mul_left base (omega arith) in
    let low : 3 * base ≤ 4 * wait + 2 =
      le_of_mul-le-mul_left (round_low grain draw base wait (lt-mul-div-succ total divisor))
        some_grain in
    let high : 4 * wait ≤ 5 * base + 2 =
      le_of_mul-le-mul_left (round_high grain draw base wait (mul-div-le total (8 * grain)) draws)
        some_grain in
    (low, high, omega arith)

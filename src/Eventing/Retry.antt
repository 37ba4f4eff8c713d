-- ===== src/Eventing/Retry.antt =====
-- The delay before a retry: packages/modules/eventing/src/outbox-retry.ts. What `random` returns is
-- a fraction; the product is exact, where the program's rounds.
use settle_flow.Common.{ℕ, ◌+◌, ◌*◌, ◌-◌, ◌/◌, ◌^◌, min}

-- What a call of `random` returns: a fraction that is not negative.
pub record Sample : Type 0 where
  pub numerator : ℕ
  pub denominator : ℕ

-- `Math.floor(Math.max(0, Math.min(0.999_999_999, sample)) * (ceiling + 1))`
unfoldable pub scaled : Sample → ℕ → ℕ
scaled s ceiling =
    min (999_999_999 * (ceiling + 1) / 1_000_000_000) (s.numerator * (ceiling + 1) / s.denominator)

-- `calculateFullJitterBackoff`, where `attemptCount - 1` below 0 is raised to 0
unfoldable pub calculate_full_jitter_backoff : ℕ → ℕ → ℕ → Sample → ℕ
unfolding scaled
calculate_full_jitter_backoff attempt_count base_ms max_ms sample =
    scaled sample (min max_ms (base_ms * 2 ^ min 30 (attempt_count - 1)))

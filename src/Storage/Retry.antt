-- ===== src/Storage/Retry.antt =====
-- pkg/storage/plugin.go, `RetryPolicy` and `NextBackoff`. Go's multiplication of a duration by a
-- float64 factor, truncated to nanoseconds, enters as the function `scale`.
pub mod Cap
mod Tests
use extend_game_telemetry_co.Prelude.{ℕ, zero, suc, if◌then◌else◌}
use extend_game_telemetry_co.Prelude.Int.{ℤ, pos, pos_part, ltb_ℤ, leb_ℤ}

-- `scale d` is `time.Duration(float64(d) * rp.Multiplier)`.
pub record RetryPolicy : Type 0 where
  pub max_retries : ℤ
  pub initial_backoff : ℤ
  pub max_backoff : ℤ
  pub scale : ℤ → ℤ

-- 3 retries, 100 ms at first, 10 s at most, in nanoseconds.
abbrev pub default_retry_policy : (ℤ → ℤ) → RetryPolicy
default_retry_policy twice = record {
  max_retries = pos 3;
  initial_backoff = pos 100000000;
  max_backoff = pos 10000000000;
  scale = twice;
}

-- The loop of `NextBackoff`, over the rounds that are left.
unfoldable pub backoff_loop : RetryPolicy → ℕ → ℤ → ℤ
backoff_loop rp zero backoff = backoff
backoff_loop rp (suc left) backoff =
    let rest = backoff_loop rp left (rp.scale backoff) in
    if ltb_ℤ rp.max_backoff (rp.scale backoff) then rp.max_backoff else rest

unfoldable pub next_backoff : RetryPolicy → ℤ → ℤ
unfolding backoff_loop
next_backoff rp attempt =
    if leb_ℤ attempt (pos 0)
    then rp.initial_backoff
    else backoff_loop rp (pos_part attempt) rp.initial_backoff

-- The backoff with no cap: the first delay, scaled once for each attempt.
abbrev pub scaled : (ℤ → ℤ) → ℕ → ℤ → ℤ
scaled f zero d = d
scaled f (suc n) d = scaled f n (f d)

-- ===== src/Storage/Retry/Cap.antt =====
-- The delays of `NextBackoff` of pkg/storage/plugin.go.
use extend_game_telemetry_co.Prelude.{ℕ, zero, suc, ◌≡◌, refl, true, false, arith, if◌then◌else◌}
use extend_game_telemetry_co.Prelude.Int.{ℤ, pos, leb_ℤ, ltb_ℤ}
use extend_game_telemetry_co.Storage.Retry.{RetryPolicy, backoff_loop, next_backoff, scaled}

-- The loop ends at the cap, or with the first delay scaled once for each round.
abbrev pub capped : RetryPolicy → ℤ → ℤ
capped rp d = if ltb_ℤ rp.max_backoff d then rp.max_backoff else d

-- A longer delay scales to a delay that is no shorter, and no delay that is at least the first
-- one shrinks.
abbrev pub IsGrowing : RetryPolicy → Type 0
IsGrowing rp = (d : ℤ) → leb_ℤ rp.initial_backoff d ≡ true → leb_ℤ d (rp.scale d) ≡ true

module _ (rp : RetryPolicy) (growing : IsGrowing rp) where
  scaled_grows :
      (n : ℕ) (d : ℤ) → leb_ℤ rp.initial_backoff d ≡ true → leb_ℤ d (scaled rp.scale n d) ≡ true
  scaled_grows zero d h = ground arith
  scaled_grows (suc n) d h =
      let step = growing d h in
      let rest = scaled_grows n (rp.scale d) (ground arith) in ground arith

  backoff_loop_lem :
      (n : ℕ) (d : ℤ)
      → leb_ℤ rp.initial_backoff d ≡ true
      → backoff_loop rp (suc n) d ≡ capped rp (scaled rp.scale (suc n) d)
  unfolding backoff_loop
  backoff_loop_lem zero d h = refl
  backoff_loop_lem (suc n) d h =
      let step = growing d h in
      let grown = scaled_grows (suc n) (rp.scale d) (ground arith) in
      let rest = backoff_loop_lem n (rp.scale d) (ground arith) in ground arith

  -- With a scaling that shrinks no delay of at least the first one, attempt `n + 1` waits the first
  -- delay scaled `n + 1` times, or the policy's maximum if that is less; and an attempt that is
  -- not positive waits the first delay, above the maximum or not.
  pub next_backoff_lem :
      (n : ℕ) (attempt : ℤ)
      → leb_ℤ attempt (pos 0) ≡ true
      → (next_backoff rp (pos (suc n)) ≡ capped rp (scaled rp.scale (suc n) rp.initial_backoff))
        × (next_backoff rp attempt ≡ rp.initial_backoff)
  unfolding next_backoff
  next_backoff_lem n attempt h =
      let later : leb_ℤ (pos (suc n)) (pos 0) ≡ false = ground arith in
      (rw later (backoff_loop_lem n rp.initial_backoff (ground arith)), rw h refl)

-- ===== src/Storage/Retry/Tests.antt =====
-- The factor 2 as a retry policy's multiplier.
use extend_game_telemetry_co.Prelude.{◌+◌, arith}
use extend_game_telemetry_co.Prelude.Int.{ℤ, pos, negsuc}
use extend_game_telemetry_co.Storage.Retry.{RetryPolicy, default_retry_policy}
use extend_game_telemetry_co.Storage.Retry.Cap.{IsGrowing}

abbrev twice : ℤ → ℤ
twice (pos n) = pos (n + n)
twice (negsuc n) = negsuc (n + n + 1)

abbrev policy : RetryPolicy
policy = default_retry_policy twice

policy-IsGrowing : IsGrowing policy
policy-IsGrowing (pos n) h = ground arith
policy-IsGrowing (negsuc n) h = ground arith

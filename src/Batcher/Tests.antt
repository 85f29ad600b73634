-- ===== src/Batcher/Tests.antt =====
-- A batcher of size 2 that waits 5: runs, and the theorems at them.
use extend_game_telemetry_co.Prelude.{
  ℕ, ◌≡◌, ◌≢◌, refl, ◌++◌, none, some, List, [], ◌∷◌, arith, All,
}
use mathlib.Core.List.{flatten}
use extend_game_telemetry_co.Prelude.Int.{pos}
use extend_game_telemetry_co.Batcher.{
  Batcher, Call, add_at, timer_fires, flush_now, call, run, add, flush, timeout_flush, flush_all,
  start_timer,
}
use extend_game_telemetry_co.Batcher.Order.{added, run_order}
use extend_game_telemetry_co.Batcher.Sizes.{IsWellFormed, IsSized, run-IsWellFormed}
use extend_game_telemetry_co.Batcher.Deadline.{IsDue, run-IsDue}

abbrev pair_batcher : Batcher ℕ
pair_batcher = record { events = []; max_size = pos 2; max_wait = pos 5; timer = none }

abbrev history : List (Call ℕ)
history = add_at 1 1 ∷ add_at 2 2 ∷ add_at 3 3 ∷ timer_fires ∷ flush_now ∷ add_at 4 4 ∷ []

pair_batcher-IsWellFormed : IsWellFormed pair_batcher
pair_batcher-IsWellFormed = ground arith

history_batches : (run history pair_batcher).1 ≡ (1 ∷ 2 ∷ []) ∷ (3 ∷ []) ∷ []
unfolding run call add flush timeout_flush flush_all start_timer
history_batches = refl

history_timer : (run history pair_batcher).0.timer ≡ some 9
unfolding run call add flush timeout_flush flush_all start_timer
history_timer = refl

history_pending : (run history pair_batcher).0.events ≢ []
unfolding run call add flush timeout_flush flush_all start_timer
history_pending e = cc

run_order_example :
    flatten (run history pair_batcher).1 ++ (run history pair_batcher).0.events
    ≡ [] ++ added history
run_order_example = run_order history pair_batcher

run-IsWellFormed_example :
    IsWellFormed (run history pair_batcher).0 × All (IsSized 2) (run history pair_batcher).1
run-IsWellFormed_example = run-IsWellFormed history pair_batcher pair_batcher-IsWellFormed

run-IsDue_example :
    (d : ℕ) × ((run history pair_batcher).0.timer ≡ some d)
    × IsDue (λ e. e) 5 d (run history pair_batcher).0.events
run-IsDue_example =
    run-IsDue (λ e. e) history 0 pair_batcher pair_batcher-IsWellFormed refl (omega arith)
      history_pending

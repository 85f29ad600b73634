-- ===== src/Batcher/Sizes.antt =====
-- When a batcher flushes and how large its batches are (pkg/processor/batcher.go).
use extend_game_telemetry_co.Prelude.{
  ℕ, ◌+◌, ◌≤◌, ◌<◌, ◌≡◌, ◌≢◌, ◌++◌, Option, none, some, List, [], ◌∷◌, length, arith, length-append,
  ◌⊎◌, All,
}
use extend_game_telemetry_co.Prelude.Int.{pos_part}
use extend_game_telemetry_co.Batcher.{
  Batcher, Call, add_at, timer_fires, flush_now, call, run, optional_cons, add, flush,
  timeout_flush, flush_all, start_timer,
}

-- Between two calls a batcher holds fewer events than a batch, and its timer is armed exactly
-- while events are pending.
pub record IsWellFormed {T : Type 0} (b : Batcher T) : Type 0 where
  pub below : b.events ≢ [] → length b.events < pos_part b.max_size
  pub armed : b.events ≢ [] → b.timer ≢ none
  pub disarmed : b.events ≡ [] → b.timer ≡ none

-- A batch is not empty, and has more than one event only up to the configured size.
abbrev pub IsSized : {T : Type 0} → ℕ → List T → Type 0
IsSized n batch = (0 < length batch) × ((length batch ≤ n) ⊎ (length batch ≡ 1))

abbrev pub Optional : {A : Type 0} → (A → Type 0) → Option A → Type 0
Optional P none = Unit
Optional P (some a) = P a

module _ {T : Type 0} where
  pub flush-IsWellFormed : (b : Batcher T) → IsWellFormed b → IsWellFormed (flush b).0
  unfolding flush
  flush-IsWellFormed b v = ground arith

  pub add-IsWellFormed :
      (now : ℕ) (e : T) (b : Batcher T) → IsWellFormed b → IsWellFormed (add now e b).0
  unfolding add flush start_timer
  add-IsWellFormed now e b v = ground (arith, length-append b.events (e ∷ []))

  -- Adding an event flushes exactly when the pending events and the new one reach the configured
  -- size, and then everything pending goes out with the new event last.
  pub add_flushes :
      (now : ℕ) (e : T) (b : Batcher T)
      → (pos_part b.max_size ≤ length b.events + 1 → (add now e b).1 ≡ some (b.events ++ e ∷ []))
        × (length b.events + 1 < pos_part b.max_size → (add now e b).1 ≡ none)
  unfolding add flush start_timer
  add_flushes now e b = ground (arith, length-append b.events (e ∷ []))

  pub call-IsWellFormed : (c : Call T) (b : Batcher T) → IsWellFormed b → IsWellFormed (call c b).0
  unfolding call timeout_flush flush_all
  call-IsWellFormed (add_at now e) b v = add-IsWellFormed now e b v
  call-IsWellFormed timer_fires b v = flush-IsWellFormed b v
  call-IsWellFormed flush_now b v = flush-IsWellFormed b v

  call-IsSized :
      (c : Call T) (b : Batcher T)
      → IsWellFormed b
      → Optional (IsSized (pos_part b.max_size)) (call c b).1
  unfolding call timeout_flush flush_all add flush start_timer
  call-IsSized (add_at now e) b v = ground (arith, length-append b.events (e ∷ []))
  call-IsSized timer_fires b v = ground arith
  call-IsSized flush_now b v = ground arith

  call-max_size : (c : Call T) (b : Batcher T) → (call c b).0.max_size ≡ b.max_size
  unfolding call timeout_flush flush_all add flush start_timer
  call-max_size (add_at now e) b = ground arith
  call-max_size timer_fires b = ground arith
  call-max_size flush_now b = ground arith

  All-optional_cons :
      (P : List T → Type 0) (o : Option (List T)) (rest : List (List T))
      → Optional P o
      → All P rest
      → All P (optional_cons o rest)
  All-optional_cons P none rest h k = k
  All-optional_cons P (some a) rest h k = (h, k)

  -- From a well-formed batcher, after any history of calls: the batcher is well formed again,
  -- and every batch that was flushed is non-empty and, unless it is a single event, no larger
  -- than the configured size.
  pub run-IsWellFormed :
      (calls : List (Call T)) (b : Batcher T)
      → IsWellFormed b
      → IsWellFormed (run calls b).0 × All (IsSized (pos_part b.max_size)) (run calls b).1
  unfolding run
  run-IsWellFormed [] b v = (v, tt)
  run-IsWellFormed (c ∷ calls) b v =
      let ih = run-IsWellFormed calls (call c b).0 (call-IsWellFormed c b v) in
      (
        ih.0,
        All-optional_cons (IsSized (pos_part b.max_size)) (call c b).1 (run calls (call c b).0).1
            (call-IsSized c b v) (rw (call-max_size c b) at ih.1),
      )

-- ===== src/Batcher.antt =====
-- pkg/processor/batcher.go. A call of the flush function is part of an operation's result: the
-- batch that it is called with, if it is called. The mutex makes each operation one step.
pub mod Order
pub mod Sizes
pub mod Deadline
mod Tests
use extend_game_telemetry_co.Prelude.{
  ℕ, ◌+◌, ◌++◌, Bool, Option, none, some, List, [], ◌∷◌, length, is_empty, ◌==◌, if◌then◌else◌,
}
use extend_game_telemetry_co.Prelude.Int.{ℤ, pos, negsuc, pos_part, leb_ℤ}

-- `timer` is the time at which the armed timer fires; `none` is a nil timer.
pub record Batcher (T : Type 0) : Type 0 where
  pub events : List T
  pub max_size : ℤ
  pub max_wait : ℤ
  pub timer : Option ℕ

-- `make([]T, 0, maxSize)` panics at a negative capacity.
unfoldable pub new_batcher : {T : Type 0} → ℤ → ℤ → Option (Batcher T)
new_batcher (pos n) wait =
    some (record { events = []; max_size = pos n; max_wait = wait; timer = none })
new_batcher (negsuc n) wait = none

-- The timer is stopped, the events are copied out, and the copy goes to the flush function.
unfoldable pub flush : {T : Type 0} → Batcher T → Batcher T × Option (List T)
flush b =
    if is_empty b.events then (b, none) else (record b { timer = none; events = [] }, some b.events)

-- The first event of a batch arms the timer; `now` is the time of the call.
unfoldable pub start_timer : {T : Type 0} → ℕ → Batcher T → Batcher T
start_timer now b =
    if length b.events == 1 then record b { timer = some (now + pos_part b.max_wait) } else b

unfoldable pub add : {T : Type 0} → ℕ → T → Batcher T → Batcher T × Option (List T)
add now e b =
    let b' = start_timer now (record b { events = b.events ++ e ∷ [] }) in
    if leb_ℤ b'.max_size (pos (length b'.events)) then flush b' else (b', none)

-- `timeoutFlush`, which a fired timer calls in a goroutine of its own.
unfoldable pub timeout_flush : {T : Type 0} → Batcher T → Batcher T × Option (List T)
timeout_flush b = flush b

-- `Flush`, which a worker calls before it exits.
unfoldable pub flush_all : {T : Type 0} → Batcher T → Batcher T × Option (List T)
flush_all b = flush b

unfoldable pub size : {T : Type 0} → Batcher T → ℕ
size b = length b.events

-- A history of calls, in the order in which they take the lock.
pub data Call (T : Type 0) : Type 0 where
  add_at : ℕ → T → Call T
  timer_fires : Call T
  flush_now : Call T

unfoldable pub call : {T : Type 0} → Call T → Batcher T → Batcher T × Option (List T)
call (add_at now e) b = add now e b
call timer_fires b = timeout_flush b
call flush_now b = flush_all b

abbrev pub optional_cons : {A : Type 0} → Option A → List A → List A
optional_cons none rest = rest
optional_cons (some a) rest = a ∷ rest

-- The batcher after a history, and the batches that the flush function was called with.
unfoldable pub run : {T : Type 0} → List (Call T) → Batcher T → Batcher T × List (List T)
run [] b = (b, [])
run (c ∷ calls) b =
    let (b', batch) = call c b in
    let (last, batches) = run calls b' in (last, optional_cons batch batches)

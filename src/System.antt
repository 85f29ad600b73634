-- ===== src/System.antt =====
-- pkg/processor/processor.go and batcher.go together: the goroutines of one processor as a state
-- machine. A schedule is a list of actions, one for each step of some goroutine: a caller inside
-- `Submit`, a worker, a batcher's timer, the goroutine that runs `Shutdown`.
pub mod Reasoning
pub mod Launch
pub mod Delivery
pub mod Conservation
pub mod Accounting
pub mod Orderly
pub mod Exit
pub mod Drain
pub mod Flight
pub mod Backends
pub mod Race
pub mod Retry
pub mod Line
pub mod Ordered
pub mod Fifo
pub mod Settled
pub mod Calls
mod Tests
use extend_game_telemetry_co.Prelude.{
  ℕ, zero, suc, ◌+◌, ◌++◌, Bool, true, false, ◌&&◌, ◌||◌, not, Option, none, some, List, [], ◌∷◌,
  is_empty, get_elem?, set, replicate, ◌==◌, if◌then◌else◌, ◌≡◌, refl, sym, length, arith,
  Bool-cases, inl, inr,
}
use extend_game_telemetry_co.Prelude.Int.{ℤ, pos_part}
use mathlib.Core.Option
use mathlib.Core.Path.{subst}
use extend_game_telemetry_co.Runtime.{Chan}
use extend_game_telemetry_co.Storage.{Plugin}
use extend_game_telemetry_co.Batcher
use extend_game_telemetry_co.Batcher.{Batcher}
use extend_game_telemetry_co.Processor
use extend_game_telemetry_co.Processor.{
  Processor, Stage, entered, counting, Progress, moved, queued, returned, blocked, panicked,
  DedupObject, new_processor, advance, count_processed, write_to_plugin, close_input, force_exit,
}

-- A worker goroutine and its batcher. `holding` is an event that was received and not yet added,
-- `writing` a batch for which the flush function is running, whose caller holds the batcher's lock,
-- and `written` the places of the plugins that have been handed that batch.
pub record Worker (T : Type 0) : Type 0 where
  pub batcher : Batcher T
  pub holding : Option T
  pub writing : Option (List T)
  pub written : List ℕ
  pub running : Bool

-- Whether a place is in a list, and whether all places below a number are.
abbrev pub has : ℕ → List ℕ → Bool
has k [] = false
has k (j ∷ js) = j == k || has k js

abbrev pub covers : ℕ → List ℕ → Bool
covers zero js = true
covers (suc n) js = has n js && covers n js

abbrev pub is_none : {A : Type 0} → Option A → Bool
is_none none = true
is_none (some _) = false

module _ {T : Type 0} where
  -- `event, ok := <-p.inputChan`, with an event in the buffer.
  unfoldable pub receive : Chan T → Worker T → Option (Worker T × Chan T)
  receive c w =
      if w.running && is_none w.holding
      then (elim (c.buffer) [
        | [] ↦ none
        | e ∷ rest ↦ some (record w { holding = some e }, record c { buffer = rest })
      ])
      else none

  -- `batcher.Add(event)`, which waits for the lock.
  unfoldable pub store : ℕ → Worker T → Option (Worker T)
  store now w = elim (w.holding) [
    | none ↦ none
    | some e ↦
        if is_none w.writing
        then (let (b, batch) = Batcher.add now e w.batcher in
            some (record w { batcher = b; holding = none; writing = batch; written = [] }))
        else none
  ]

  -- A timer's goroutine takes the lock. A timer that fired before it was stopped may come late, so
  -- this may happen at any time.
  unfoldable pub fire : Worker T → Option (Worker T)
  fire w =
      if is_none w.writing
      then (let (b, batch) = Batcher.timeout_flush w.batcher in
          some (record w { batcher = b; writing = batch; written = [] }))
      else none

  -- The worker sees the closed and drained channel, or the cancelled context: the last flush.
  unfoldable pub stop : Bool → Chan T → Worker T → Option (Worker T)
  stop cancelled c w =
      if w.running
        && is_none w.holding
        && is_none w.writing
        && (c.closed && is_empty c.buffer || cancelled)
      then (let (b, batch) = Batcher.flush_all w.batcher in
          some (record w { batcher = b; writing = batch; written = []; running = false }))
      else none

-- A caller of `Submit`.
pub record Caller (T : Type 0) : Type 0 where
  pub stage : Stage
  pub event : T

-- `accepted` are the events that were sent on the channel and `delivered` those whose batch was
-- processed, in order; `submissions` counts the calls of `Submit`.
pub record System (D S T : Type 0) : Type 0 where
  pub proc : Processor D S T
  pub workers : List (Worker T)
  pub callers : List (Caller T)
  pub submissions : ℕ
  pub accepted : List T
  pub delivered : List T

abbrev pub remove : {A : Type 0} → List A → ℕ → List A
remove [] i = []
remove (x ∷ xs) zero = xs
remove (x ∷ xs) (suc i) = x ∷ remove xs i

pub length-remove :
    {A : Type 0} (xs : List A) (i : ℕ) {a : A}
    → get_elem? xs i ≡ some a
    → length (remove xs i) + 1 ≡ length xs
length-remove [] i h = cc
length-remove (x ∷ xs) zero h = omega arith
length-remove (x ∷ xs) (suc i) h = omega (arith, length-remove xs i h)

pub data Action (T : Type 0) : Type 0 where
  submits : T → Action T
  proceeds : ℕ → ℕ → Bool → Action T
  receives : ℕ → Action T
  stores : ℕ → ℕ → Action T
  fires : ℕ → Action T
  hands : ℕ → ℕ → Action T
  writes : ℕ → Action T
  stops : ℕ → Action T
  closes : Action T
  forces : Action T

-- A panic in any goroutine ends the process.
pub data Outcome (D S T : Type 0) : Type 0 where
  next : System D S T → Outcome D S T
  disabled : Outcome D S T
  crash : Outcome D S T

module _ {D S T : Type 0} where
  -- The worker goroutines of `Start`, each with a batcher of its own.
  unfoldable pub launch : Processor D S T → Batcher T → System D S T
  launch p b = record {
    proc = p;
    workers =
        replicate (pos_part p.workers)
          (record { batcher = b; holding = none; writing = none; written = []; running = true });
    callers = [];
    submissions = 0;
    accepted = [];
    delivered = [];
  }

  -- `Start`; `none` is the panic of a worker whose batch size is negative.
  unfoldable pub start : Processor D S T → Option (System D S T)
  start p = Option.map (launch p) (Batcher.new_batcher {T = T} p.batch_size p.flush_interval)

  -- `NewProcessor` and then `Start`.
  unfoldable pub boot :
      Processor.Config → List (Plugin S T) → Option (DedupObject D T) → Option (System D S T)
  boot config plugins deduplicator = Option.bind (new_processor config plugins deduplicator) start

  -- What a caller's step does to the shared state. A caller whose event was sent has still to count
  -- it.
  unfoldable pub settle : ℕ → Caller T → System D S T → Progress D S T → Outcome D S T
  settle i c s (moved stage p) =
      next (record s { proc = p; callers = set s.callers i (record c { stage = stage }) })
  settle i c s (queued p) = next (record s {
    proc = p;
    callers = set s.callers i (record c { stage = counting });
    accepted = s.accepted ++ c.event ∷ [];
  })
  settle i c s (returned failure p) = next (record s { proc = p; callers = remove s.callers i })
  settle i c s blocked = disabled
  settle i c s panicked = crash

  -- An action whose goroutine is not there, or not at that point, is not enabled.
  abbrev pub with_some : {A : Type 0} → Option A → (A → Outcome D S T) → Outcome D S T
  with_some none f = disabled
  with_some (some a) f = f a

  -- A step of one worker that touches nothing else.
  unfoldable pub on_worker : ℕ → (Worker T → Option (Worker T)) → System D S T → Outcome D S T
  on_worker i f s =
      with_some (get_elem? s.workers i)
        λ w. with_some (f w) λ w'. next (record s { workers = set s.workers i w' })

  unfoldable pub on_receive : ℕ → System D S T → Outcome D S T
  on_receive i s = with_some (get_elem? s.workers i) λ w.
      with_some (receive s.proc.input_chan w) λ (w', c).
        next (record s { workers = set s.workers i w'; proc = record (s.proc) { input_chan = c } })

  -- In `processBatch` of worker `i`, the goroutine of the plugin at place `k`. Those of one batch, and
  -- those of the batches of other workers, may come in any order.
  unfoldable pub on_hand : ℕ → ℕ → System D S T → Outcome D S T
  on_hand i k s = with_some (get_elem? s.workers i) λ w. with_some (w.writing) λ batch.
      with_some (get_elem? s.proc.plugins k) λ plugin.
        if has k w.written
        then disabled
        else next (record s {
          workers = set s.workers i (record w { written = k ∷ w.written });
          proc = record (s.proc) {
            plugins = set s.proc.plugins k (write_to_plugin s.proc.ctx batch plugin);
          };
        })

  -- `wg.Wait()` of `processBatch`, the counter, and the return of the flush function. Batches are
  -- never empty, so that the guard on an empty batch makes no difference.
  unfoldable pub on_write : ℕ → System D S T → Outcome D S T
  on_write i s = with_some (get_elem? s.workers i) λ w. with_some (w.writing) λ batch.
      if covers (length s.proc.plugins) w.written
      then next (record s {
        workers = set s.workers i (record w { writing = none; written = [] });
        proc = count_processed batch s.proc;
        delivered = s.delivered ++ batch;
      })
      else disabled

  unfoldable pub on_caller : ℕ → ℕ → Bool → System D S T → Outcome D S T
  on_caller i now prefer_done s =
      with_some (get_elem? s.callers i)
        λ c. settle i c s (advance c.stage now prefer_done c.event s.proc)

  unfoldable pub on_close : System D S T → Outcome D S T
  on_close s = elim (close_input s.proc) [ none ↦ crash | some p ↦ next (record s { proc = p }) ]

  -- The timeout of `Shutdown` passes, which has closed the channel before.
  unfoldable pub on_force : System D S T → Outcome D S T
  on_force s =
      if s.proc.input_chan.closed
      then next (record s { proc = (force_exit s.proc).1 })
      else disabled

  unfoldable pub step : Action T → System D S T → Outcome D S T
  step (submits e) s = next (record s {
    callers = s.callers ++ record { stage = entered; event = e } ∷ [];
    submissions = s.submissions + 1;
  })
  step (proceeds i now prefer_done) s = on_caller i now prefer_done s
  step (receives i) s = on_receive i s
  step (stores i now) s = on_worker i (store now) s
  step (fires i) s = on_worker i fire s
  step (hands i k) s = on_hand i k s
  step (writes i) s = on_write i s
  step (stops i) s = on_worker i (stop s.proc.ctx.cancelled s.proc.input_chan) s
  step closes s = on_close s
  step forces s = on_force s

  abbrev pub and_then : Outcome D S T → (System D S T → Outcome D S T) → Outcome D S T
  and_then (next s) f = f s
  and_then disabled f = disabled
  and_then crash f = crash

  -- A schedule, up to the first action that is not enabled or that panics.
  unfoldable pub run : List (Action T) → System D S T → Outcome D S T
  run [] s = next s
  run (a ∷ actions) s = and_then (step a s) (run actions)

-- ===== src/System/Exit.antt =====
-- A graceful shutdown (pkg/processor/processor.go, `Shutdown`): what is delivered when all workers
-- have exited.
use extend_game_telemetry_co.Prelude.{
  ℕ, ◌<◌, ◌≡◌, refl, ap, Bool, false, Option, none, some, List, [], ◌∷◌, arith, length, All,
  All-mono, count, total,
}
use extend_game_telemetry_co.Prelude.Int.{pos_part}
use extend_game_telemetry_co.Runtime.{Chan}
use extend_game_telemetry_co.Storage.{Plugin}
use extend_game_telemetry_co.Batcher.Order.{batch_of}
use extend_game_telemetry_co.Processor
use extend_game_telemetry_co.Processor.{
  Processor, DedupObject, Stage, entered, Progress, moved, queued, returned, blocked, panicked,
  advance, count_processed, close_input, force_exit, check_duplicate, mark_seen, offer, await_room,
}
use extend_game_telemetry_co.System.{Worker, System, Action, next, run, boot}
use extend_game_telemetry_co.System.Reasoning.{run-Ensures, Ensures_next}
use extend_game_telemetry_co.System.Launch.{IsNew, IsFresh, boot-IsFresh}
use extend_game_telemetry_co.System.Orderly.{IsTidy, StopsLate, IsOrderly, step-IsOrderly}
use extend_game_telemetry_co.System.Delivery.{pending, one_of}
use extend_game_telemetry_co.System.Conservation.{IsConserved, run-IsConserved, IsFresh-IsConserved}

-- A worker that has stopped, and has no batch being written: its `wg.Done` is reached.
abbrev pub IsDone : {T : Type 0} → Worker T → Type 0
IsDone w = (w.running ≡ false) × (w.writing ≡ none)

module _ {T : Type 0} where
  IsNew-late :
      (cancelled : Bool) (c : Chan T) (w : Worker T)
      → IsNew w
      → (IsTidy w) × (StopsLate cancelled c w)
  IsNew-late cancelled c w k = (λ off. cc (k.is_running, off), λ off. cc (k.is_running, off))

  done_pending :
      (f : T → Bool) (ws : List (Worker T))
      → All IsTidy ws
      → All IsDone ws
      → total (pending f) ws ≡ 0
  done_pending f [] tidy done = refl
  done_pending f (w ∷ ws) tidy done = omega (
    arith,
    ap (λ o. count f (one_of o)) (tidy.0 done.0.0).0,
    ap (count f) (tidy.0 done.0.0).1,
    ap (λ o. count f (batch_of o)) done.0.1,
    done_pending f ws tidy.1 done.1,
  )

  -- One stopped worker shows that the channel is drained.
  drained :
      (cancelled : Bool) (c : Chan T) (ws : List (Worker T))
      → 0 < length ws
      → cancelled ≡ false
      → All (StopsLate cancelled c) ws
      → All IsDone ws
      → c.buffer ≡ []
  drained cancelled c [] some_worker live late done = absurd (omega arith)
  drained cancelled c (w ∷ ws) some_worker live late done = (late.0 done.0.0 live).1

module _ {D S T : Type 0} where
  pub IsFresh-IsOrderly : {n : ℕ} (s : System D S T) → IsFresh n s → IsOrderly n s
  IsFresh-IsOrderly s h =
      let Late = StopsLate s.proc.ctx.cancelled s.proc.input_chan in
      record {
        staffed = h.staffed;
        tidy =
            All-mono IsNew IsTidy s.workers
              (λ w k. (IsNew-late s.proc.ctx.cancelled s.proc.input_chan w k).0) h.new_workers;
        late =
            All-mono IsNew Late s.workers
              (λ w k. (IsNew-late s.proc.ctx.cancelled s.proc.input_chan w k).1) h.new_workers;
      }

  graceful :
      {n : ℕ} (f : T → Bool) (s : System D S T)
      → 0 < n
      → s.proc.ctx.cancelled ≡ false
      → All IsDone s.workers
      → IsOrderly n s
      → IsConserved f s
      → count f s.accepted ≡ count f s.delivered
  graceful f s some_worker live done h kept = omega (
    arith,
    kept,
    done_pending f s.workers h.tidy done,
    ap (count f) (
        drained s.proc.ctx.cancelled s.proc.input_chan s.workers (omega (arith, h.staffed)) live
          h.late done),
  )

module _ {D S T : Type 0} (config : Processor.Config) (plugins : List (Plugin S T))
    (deduplicator : Option (DedupObject D T)) where
  -- A processor that was just started with at least one worker, after any schedule of its
  -- goroutines in which the context was not cancelled and every worker has exited: each event
  -- accepted into the channel is in exactly one processed batch. (Both lists hold as many events
  -- that pass the test `f`, for every `f`.)
  pub exit_delivers :
      (f : T → Bool) (actions : List (Action T)) {s₀ s : System D S T}
      → boot config plugins deduplicator ≡ some s₀
      → 0 < pos_part config.workers
      → run actions s₀ ≡ next s
      → s.proc.ctx.cancelled ≡ false
      → All IsDone s.workers
      → count f s.accepted ≡ count f s.delivered
  exit_delivers f actions {s₀} {s} up some_worker went live done =
      let fresh = boot-IsFresh config plugins deduplicator up in
      graceful f s some_worker live done
        (Ensures_next (IsOrderly (pos_part config.workers)) went (
          run-Ensures (IsOrderly (pos_part config.workers)) step-IsOrderly actions s₀
            (IsFresh-IsOrderly s₀ fresh)))
        (Ensures_next (IsConserved f) went
          (run-IsConserved f actions s₀ (IsFresh-IsConserved f s₀ fresh)))

-- ===== src/System/Conservation.antt =====
-- No accepted event is lost or written twice by the pipeline of one processor, under any schedule
-- (pkg/processor/processor.go).
use extend_game_telemetry_co.Prelude.{
  ℕ, ◌+◌, ◌++◌, ◌≡◌, ap, Bool, Option, none, some, List, [], ◌∷◌, arith, count, count-append,
  get_elem?, total, total-set, total-eq-zero, All-mono,
}
use extend_game_telemetry_co.Processor
use extend_game_telemetry_co.Processor.{
  Processor, Stage, entered, Progress, moved, queued, returned, blocked, panicked, advance,
  count_processed, close_input, force_exit, check_duplicate, mark_seen, offer, await_room,
}
use extend_game_telemetry_co.System.{
  on_hand, hands, Worker, Caller, System, Action, submits, proceeds, receives, stores, fires,
  writes, stops, closes, forces, settle, on_worker, on_receive, on_write, on_caller, on_close, step,
  run, store, fire, stop, receive,
}
use extend_game_telemetry_co.System.Reasoning.{
  on_force-Ensures, on_hand-Ensures, on_write-Ensures, Ensures, run-Ensures, with_some-Ensures,
}
use extend_game_telemetry_co.Batcher.Order.{batch_of}
use extend_game_telemetry_co.System.Launch.{IsNew, IsFresh}
use extend_game_telemetry_co.System.Delivery.{
  pending, one_of, receive-count, store_count, fire_count, stop_count,
}

module _ {T : Type 0} (f : T → Bool) where
  IsNew-pending : (w : Worker T) → IsNew w → pending f w ≡ 0
  IsNew-pending w k = omega (
    arith,
    ap (λ o. count f (one_of o)) k.nothing_held,
    ap (count f) k.nothing_pending,
    ap (λ o. count f (batch_of o)) k.nothing_written,
  )

module _ {D S T : Type 0} where
  -- A caller's step leaves the channel alone or appends the event.
  abbrev pub IsPush : T → Processor D S T → Progress D S T → Type 0
  IsPush e p (moved stage p') = p'.input_chan.buffer ≡ p.input_chan.buffer
  IsPush e p (queued p') = p'.input_chan.buffer ≡ p.input_chan.buffer ++ e ∷ []
  IsPush e p (returned failure p') = p'.input_chan.buffer ≡ p.input_chan.buffer
  IsPush e p blocked = Unit
  IsPush e p panicked = Unit

  pub advance-IsPush :
      (stage : Stage) (now : ℕ) (prefer_done : Bool) (e : T) (p : Processor D S T)
      → IsPush e p (advance stage now prefer_done e p)
  unfolding advance check_duplicate mark_seen offer await_room
  advance-IsPush Processor.entered now prefer_done e p = ground arith
  advance-IsPush Processor.unmarked now prefer_done e p = ground arith
  advance-IsPush Processor.offering now prefer_done e p = ground arith
  advance-IsPush Processor.waiting now prefer_done e p = ground arith
  advance-IsPush Processor.counting now prefer_done e p = ground arith

module _ {D S T : Type 0} (f : T → Bool) where
  -- Of the events that pass the test `f`: those accepted are those delivered, queued in the
  -- channel, or with a worker.
  abbrev pub IsConserved : System D S T → Type 0
  IsConserved s =
      count f s.accepted
      ≡ count f s.delivered + count f s.proc.input_chan.buffer + total (pending f) s.workers

  on_worker-IsConserved :
      (i : ℕ) (g : Worker T → Option (Worker T)) (s : System D S T)
      → ((w w' : Worker T) → g w ≡ some w' → pending f w' ≡ pending f w)
      → IsConserved s
      → Ensures IsConserved (on_worker i g s)
  unfolding on_worker
  on_worker-IsConserved i g s keep h =
      with_some-Ensures IsConserved (get_elem? s.workers i) _ λ w e.
        with_some-Ensures IsConserved (g w) _
          λ w' went. omega (arith, total-set (pending f) s.workers i w w' e, keep w w' went, h)

  on_receive-IsConserved :
      (i : ℕ) (s : System D S T) → IsConserved s → Ensures IsConserved (on_receive i s)
  unfolding on_receive
  on_receive-IsConserved i s h = with_some-Ensures IsConserved (get_elem? s.workers i) _ λ w e.
      with_some-Ensures IsConserved (receive s.proc.input_chan w) _ λ (w', c) went. omega (
        arith,
        total-set (pending f) s.workers i w w' e,
        receive-count f s.proc.input_chan w went,
        h,
      )

  on_hand-IsConserved :
      (i k : ℕ) (s : System D S T) → IsConserved s → Ensures IsConserved (on_hand i k s)
  on_hand-IsConserved i k s h =
      on_hand-Ensures IsConserved i k s λ w batch plugin at busy there new.
        omega
          (arith, total-set (pending f) s.workers i w (record w { written = k ∷ w.written }) at, h)

  on_write-IsConserved :
      (i : ℕ) (s : System D S T) → IsConserved s → Ensures IsConserved (on_write i s)
  unfolding count_processed
  on_write-IsConserved i s h = on_write-Ensures IsConserved i s λ w batch at busy all_written.
      omega (
        arith,
        total-set (pending f) s.workers i w (record w { writing = none; written = [] }) at,
        ap (λ o. count f (batch_of o)) busy,
        count-append f s.delivered batch,
        h,
      )

  settle-IsConserved :
      (i : ℕ) (c : Caller T) (s : System D S T) (o : Progress D S T)
      → IsPush c.event s.proc o
      → IsConserved s
      → Ensures IsConserved (settle i c s o)
  unfolding settle
  settle-IsConserved i c s (moved stage p) k h = omega (arith, ap (count f) k, h)
  settle-IsConserved i c s (queued p) k h = omega (
    arith,
    ap (count f) k,
    count-append f s.accepted (c.event ∷ []),
    count-append f s.proc.input_chan.buffer (c.event ∷ []),
    h,
  )
  settle-IsConserved i c s (returned failure p) k h = omega (arith, ap (count f) k, h)
  settle-IsConserved i c s blocked k h = tt
  settle-IsConserved i c s panicked k h = tt

  on_caller-IsConserved :
      (i now : ℕ) (prefer_done : Bool) (s : System D S T)
      → IsConserved s
      → Ensures IsConserved (on_caller i now prefer_done s)
  unfolding on_caller
  on_caller-IsConserved i now prefer_done s h =
      with_some-Ensures IsConserved (get_elem? s.callers i) _ λ c e.
        settle-IsConserved i c s (advance c.stage now prefer_done c.event s.proc)
          (advance-IsPush c.stage now prefer_done c.event s.proc) h

  -- Every step of the system, each of its kinds included, keeps the count of events: those accepted
  -- into the channel that pass the test `f` are as many as those that pass it in the channel, in
  -- a worker's hands, in its batcher, in its running flush, and in the processed batches.
  pub step-IsConserved :
      (a : Action T) (s : System D S T) → IsConserved s → Ensures IsConserved (step a s)
  unfolding step on_close close_input force_exit
  step-IsConserved (submits e) s h = h
  step-IsConserved (proceeds i now prefer_done) s h = on_caller-IsConserved i now prefer_done s h
  step-IsConserved (receives i) s h = on_receive-IsConserved i s h
  step-IsConserved (stores i now) s h =
      on_worker-IsConserved i (store now) s (λ w w' e. store_count f now w e) h
  step-IsConserved (fires i) s h = on_worker-IsConserved i fire s (λ w w' e. fire_count f w e) h
  step-IsConserved (hands i k) s h = on_hand-IsConserved i k s h
  step-IsConserved (writes i) s h = on_write-IsConserved i s h
  step-IsConserved (stops i) s h =
      on_worker-IsConserved i (stop s.proc.ctx.cancelled s.proc.input_chan) s
        (λ w w' e. stop_count f s.proc.ctx.cancelled s.proc.input_chan w e) h
  step-IsConserved closes s h = ground arith
  step-IsConserved forces s h = on_force-Ensures IsConserved s h

  pub IsFresh-IsConserved : {n : ℕ} (s : System D S T) → IsFresh n s → IsConserved s
  IsFresh-IsConserved s h = omega (
    arith,
    ap (count f) h.no_accepted,
    ap (count f) h.no_delivered,
    ap (count f) h.empty,
    total-eq-zero (pending f) s.workers (
        All-mono IsNew (λ w. pending f w ≡ 0) s.workers (λ w k. IsNew-pending f w k) h.new_workers),
  )

  -- Any schedule, from the start.
  pub run-IsConserved :
      (actions : List (Action T)) (s : System D S T)
      → IsConserved s
      → Ensures IsConserved (run actions s)
  run-IsConserved actions s h = run-Ensures IsConserved step-IsConserved actions s h

-- ===== src/System/Accounting.antt =====
-- The four counters of a processor against what happened (pkg/processor/processor.go).
use extend_game_telemetry_co.Prelude.{
  ℕ, zero, suc, ◌+◌, ◌++◌, total, total-set, ◌≡◌, ap, Bool, Option, some, List, [], ◌∷◌, arith,
  get_elem?, length, length-append, u64, length-set,
}
use extend_game_telemetry_co.Processor
use extend_game_telemetry_co.Processor.{
  Processor, DedupObject, Metrics, Stage, entered, counting, Progress, moved, queued, returned,
  blocked, panicked, advance, count_processed, close_input, force_exit, check_duplicate, mark_seen,
  offer, await_room,
}
use extend_game_telemetry_co.Storage.{Plugin}
use extend_game_telemetry_co.System.Launch.{IsFresh, boot-IsFresh}
use extend_game_telemetry_co.System.{
  on_hand, hands, remove, Worker, Caller, System, Action, submits, proceeds, receives, stores,
  fires, writes, stops, closes, forces, next, settle, on_worker, on_receive, on_write, on_caller,
  on_close, step, run, boot, store, fire, stop, receive, length-remove,
}
use extend_game_telemetry_co.System.Reasoning.{
  on_force-Ensures, on_hand-Ensures, on_write-Ensures, Ensures, run-Ensures, Ensures_next,
  with_some-Ensures,
}

-- Whether a caller has sent its event and not yet counted it.
abbrev pub open_count : Stage → ℕ
open_count Processor.entered = 0
open_count Processor.unmarked = 0
open_count Processor.offering = 0
open_count Processor.waiting = 0
open_count Processor.counting = 1

abbrev pub uncounted : {T : Type 0} → Caller T → ℕ
uncounted c = open_count c.stage

total-remove :
    {A : Type 0} (w : A → ℕ) (xs : List A) (i : ℕ) {a : A}
    → get_elem? xs i ≡ some a
    → total w (remove xs i) + w a ≡ total w xs
total-remove w [] i h = ground arith
total-remove w (x ∷ xs) zero h = ground arith
total-remove w (x ∷ xs) (suc i) h = omega (arith, total-remove w xs i h)

total-append_one :
    {A : Type 0} (w : A → ℕ) (xs : List A) (a : A) → total w (xs ++ a ∷ []) ≡ total w xs + w a
total-append_one w [] a = omega arith
total-append_one w (x ∷ xs) a = omega (arith, total-append_one w xs a)

module _ {D S T : Type 0} where
  -- The counters are 64 bits wide: each equality is that of the wrapped count.
  -- A caller between its send and `eventsReceived.Add` has an event accepted that is not counted.
  pub record IsAccounted (s : System D S T) : Type 0 where
    pub received :
        u64 (s.proc.metrics.events_received + total uncounted s.callers) ≡ u64 (length s.accepted)
    pub processed : s.proc.metrics.events_processed ≡ u64 (length s.delivered)
    pub settled :
        u64 (
          s.proc.metrics.events_received
          + s.proc.metrics.events_duplicated
          + s.proc.metrics.events_dropped
          + length s.callers)
        ≡ u64 s.submissions

  -- How a caller's step moves the counters: not at all, or one more received, after a send, or one
  -- more duplicate or dropped.
  abbrev IsCounted : Stage → Metrics → Progress D S T → Type 0
  IsCounted stage m (moved stage' p) =
      (p.metrics ≡ m) × (open_count stage ≡ 0) × (open_count stage' ≡ 0)
  IsCounted stage m (queued p) = (p.metrics ≡ m) × (open_count stage ≡ 0)
  IsCounted stage m (returned failure p) =
      (u64 p.metrics.events_received ≡ u64 (m.events_received + open_count stage))
      × (p.metrics.events_processed ≡ m.events_processed)
      × (u64 (p.metrics.events_received + p.metrics.events_duplicated + p.metrics.events_dropped)
          ≡ u64 (m.events_received + m.events_duplicated + m.events_dropped + 1))
  IsCounted stage m blocked = Unit
  IsCounted stage m panicked = Unit

  advance-IsCounted :
      (stage : Stage) (now : ℕ) (prefer_done : Bool) (e : T) (p : Processor D S T)
      → IsCounted stage p.metrics (advance stage now prefer_done e p)
  unfolding advance check_duplicate mark_seen offer await_room
  advance-IsCounted Processor.entered now prefer_done e p = ground arith
  advance-IsCounted Processor.unmarked now prefer_done e p = ground arith
  advance-IsCounted Processor.offering now prefer_done e p = ground arith
  advance-IsCounted Processor.waiting now prefer_done e p = ground arith
  advance-IsCounted Processor.counting now prefer_done e p = ground arith

  settle-IsAccounted :
      (i : ℕ) (c : Caller T) (s : System D S T) (o : Progress D S T)
      → get_elem? s.callers i ≡ some c
      → IsCounted c.stage s.proc.metrics o
      → IsAccounted s
      → Ensures IsAccounted (settle i c s o)
  unfolding settle
  settle-IsAccounted i c s (moved stage p) e k h =
      let updated : Caller T = record c { stage = stage } in
      ground
        (arith, length-set s.callers i updated, total-set uncounted s.callers i c updated e, k, h)
  settle-IsAccounted i c s (queued p) e k h =
      let sent : Caller T = record c { stage = counting } in
      ground (
        arith,
        length-set s.callers i sent,
        total-set uncounted s.callers i c sent e,
        length-append s.accepted (c.event ∷ []),
      )
  settle-IsAccounted i c s (returned failure p) e k h =
      ground (arith, length-remove s.callers i e, total-remove uncounted s.callers i e)
  settle-IsAccounted i c s blocked e k h = tt
  settle-IsAccounted i c s panicked e k h = tt

  on_worker-IsAccounted :
      (i : ℕ) (g : Worker T → Option (Worker T)) (s : System D S T)
      → IsAccounted s
      → Ensures IsAccounted (on_worker i g s)
  unfolding on_worker
  on_worker-IsAccounted i g s h = with_some-Ensures IsAccounted (get_elem? s.workers i) _ λ w e.
      with_some-Ensures IsAccounted (g w) _
        λ w' went. record { received = h.received; processed = h.processed; settled = h.settled }

  on_receive-IsAccounted :
      (i : ℕ) (s : System D S T) → IsAccounted s → Ensures IsAccounted (on_receive i s)
  unfolding on_receive
  on_receive-IsAccounted i s h = with_some-Ensures IsAccounted (get_elem? s.workers i) _ λ w e.
      with_some-Ensures IsAccounted (receive s.proc.input_chan w) _ λ (w', c) went. record {
        received = h.received;
        processed = h.processed;
        settled = h.settled;
      }

  on_hand-IsAccounted :
      (i k : ℕ) (s : System D S T) → IsAccounted s → Ensures IsAccounted (on_hand i k s)
  on_hand-IsAccounted i k s h =
      on_hand-Ensures IsAccounted i k s λ w batch plugin at busy there new. record {
        received = h.received;
        processed = h.processed;
        settled = h.settled;
      }

  on_write-IsAccounted :
      (i : ℕ) (s : System D S T) → IsAccounted s → Ensures IsAccounted (on_write i s)
  unfolding count_processed
  on_write-IsAccounted i s h = on_write-Ensures IsAccounted i s λ w batch at busy all_written.
      record {
        received = h.received;
        processed = omega (arith, h.processed, length-append s.delivered batch);
        settled = h.settled;
      }

  pub step-IsAccounted :
      (a : Action T) (s : System D S T) → IsAccounted s → Ensures IsAccounted (step a s)
  unfolding step on_close close_input force_exit on_caller
  step-IsAccounted (submits e) s h =
      let caller : Caller T = record { stage = entered; event = e } in
      ground
        (arith, length-append s.callers (caller ∷ []), total-append_one uncounted s.callers caller)
  step-IsAccounted (proceeds i now prefer_done) s h =
      with_some-Ensures IsAccounted (get_elem? s.callers i) _ λ c e.
        settle-IsAccounted i c s (advance c.stage now prefer_done c.event s.proc) e
          (advance-IsCounted c.stage now prefer_done c.event s.proc) h
  step-IsAccounted (receives i) s h = on_receive-IsAccounted i s h
  step-IsAccounted (stores i now) s h = on_worker-IsAccounted i (store now) s h
  step-IsAccounted (fires i) s h = on_worker-IsAccounted i fire s h
  step-IsAccounted (hands i k) s h = on_hand-IsAccounted i k s h
  step-IsAccounted (writes i) s h = on_write-IsAccounted i s h
  step-IsAccounted (stops i) s h =
      on_worker-IsAccounted i (stop s.proc.ctx.cancelled s.proc.input_chan) s h
  step-IsAccounted closes s h = ground arith
  step-IsAccounted forces s h =
      on_force-Ensures IsAccounted s
        (record { received = h.received; processed = h.processed; settled = h.settled })

  pub IsFresh-IsAccounted : {n : ℕ} (s : System D S T) → IsFresh n s → IsAccounted s
  IsFresh-IsAccounted s h = record {
    received =
        omega (arith, h.none_received, ap length h.no_accepted, ap (total uncounted) h.no_callers);
    processed = omega (arith, h.none_processed, ap length h.no_delivered);
    settled = omega (
      arith,
      h.none_received,
      h.none_duplicated,
      h.none_dropped,
      h.no_submissions,
      ap length h.no_callers,
    );
  }

  -- From a processor that was just started, after any schedule of its goroutines, modulo 2^64:
  -- `events_received`, with the calls of `Submit` that have sent their event and not yet counted it,
  -- counts the events accepted into the channel; `events_processed` counts those whose batch was
  -- processed; and received, duplicated, dropped and still running calls of `Submit` add up to the
  -- calls made.
  pub run-IsAccounted :
      (config : Processor.Config) (plugins : List (Plugin S T))
      (deduplicator : Option (DedupObject D T)) (actions : List (Action T)) {s₀ s : System D S T}
      → boot config plugins deduplicator ≡ some s₀
      → run actions s₀ ≡ next s
      → IsAccounted s
  run-IsAccounted config plugins deduplicator actions {s₀} up went = Ensures_next IsAccounted went (
      run-Ensures IsAccounted step-IsAccounted actions s₀
        (IsFresh-IsAccounted s₀ (boot-IsFresh config plugins deduplicator up)))

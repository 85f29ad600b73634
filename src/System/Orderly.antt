-- ===== src/System/Orderly.antt =====
-- What a worker leaves behind when it exits, and when it may exit (pkg/processor/processor.go,
-- `worker`).
use extend_game_telemetry_co.Prelude.{
  ◌∷◌, ℕ, ◌≡◌, ◌≢◌, ◌∙◌, sym, refl, ap, Bool, true, false, Option, none, some, [], arith, get_elem?,
  length, length-set, All, All-mono, All-set, All-get_elem?, Bool-cases, inl, inr,
}
use mathlib.Core.Path.{subst₂}
use extend_game_telemetry_co.Runtime.{Context, Chan}
use extend_game_telemetry_co.Batcher
use extend_game_telemetry_co.Batcher.{Batcher}
use extend_game_telemetry_co.Processor
use extend_game_telemetry_co.Processor.{
  Processor, DedupObject, Stage, entered, Progress, moved, queued, returned, blocked, panicked,
  advance, count_processed, close_input, force_exit, check_duplicate, mark_seen, offer, await_room,
}
use extend_game_telemetry_co.System.{
  on_hand, hands, Worker, Caller, System, Action, submits, proceeds, receives, stores, fires,
  writes, stops, closes, forces, settle, on_worker, on_receive, on_write, on_caller, on_close, step,
  store, fire, stop, receive,
}
use extend_game_telemetry_co.System.Reasoning.{
  on_force-Ensures, on_hand-Ensures, on_write-Ensures, Ensures, with_some-Ensures,
}

-- A worker that has stopped holds nothing and has nothing pending.
abbrev pub IsTidy : {T : Type 0} → Worker T → Type 0
IsTidy w = w.running ≡ false → (w.holding ≡ none) × (w.batcher.events ≡ [])

-- No worker stops before the channel is closed and drained, unless the context is cancelled.
abbrev pub StopsLate : {T : Type 0} → Bool → Chan T → Worker T → Type 0
StopsLate cancelled c w =
    w.running ≡ false → cancelled ≡ false → (c.closed ≡ true) × (c.buffer ≡ [])

pub record IsOrderly {D S T : Type 0} (n : ℕ) (s : System D S T) : Type 0 where
  pub staffed : length s.workers ≡ n
  pub tidy : All IsTidy s.workers
  pub late : All (StopsLate s.proc.ctx.cancelled s.proc.input_chan) s.workers

module _ {T : Type 0} where
  store-IsTidy :
      (now : ℕ) (w : Worker T) {w' : Worker T}
      → store now w ≡ some w'
      → IsTidy w
      → (IsTidy w') × (w'.running ≡ w.running)
  unfolding store
  store-IsTidy now w h k = ground arith

  fire-IsTidy :
      (w : Worker T) {w' : Worker T}
      → fire w ≡ some w'
      → IsTidy w
      → (IsTidy w') × (w'.running ≡ w.running)
  unfolding fire Batcher.timeout_flush Batcher.flush
  fire-IsTidy w h k = ground arith

  stop-IsTidy :
      (cancelled : Bool) (c : Chan T) (w : Worker T) {w' : Worker T}
      → stop cancelled c w ≡ some w'
      → (IsTidy w') × (StopsLate cancelled c w')
  unfolding stop Batcher.flush_all Batcher.flush
  stop-IsTidy cancelled c w h = ground arith

  receive-IsTidy :
      (c : Chan T) (w : Worker T) {w' : Worker T} {c' : Chan T}
      → receive c w ≡ some (w', c')
      → (w'.running ≡ true) × (c.buffer ≢ []) × (c'.closed ≡ c.closed)
  unfolding receive
  receive-IsTidy c w h = ground arith

module _ {D S T : Type 0} where
  -- A caller's step leaves the context alone; it appends to an open channel, or leaves it alone.
  abbrev IsGentle : Processor D S T → Progress D S T → Type 0
  IsGentle p (moved stage p') = (p'.input_chan ≡ p.input_chan) × (p'.ctx ≡ p.ctx)
  IsGentle p (queued p') = (p.input_chan.closed ≡ false) × (p'.ctx ≡ p.ctx)
  IsGentle p (returned failure p') = (p'.input_chan ≡ p.input_chan) × (p'.ctx ≡ p.ctx)
  IsGentle p blocked = Unit
  IsGentle p panicked = Unit

  advance-IsGentle :
      (stage : Stage) (now : ℕ) (prefer_done : Bool) (e : T) (p : Processor D S T)
      → IsGentle p (advance stage now prefer_done e p)
  unfolding advance check_duplicate mark_seen offer await_room
  advance-IsGentle Processor.entered now prefer_done e p = ground arith
  advance-IsGentle Processor.unmarked now prefer_done e p = ground arith
  advance-IsGentle Processor.offering now prefer_done e p = ground arith
  advance-IsGentle Processor.waiting now prefer_done e p = ground arith
  advance-IsGentle Processor.counting now prefer_done e p = ground arith

module _ {D S T : Type 0} {n : ℕ} where
  on_worker-IsOrderly :
      (i : ℕ) (g : Worker T → Option (Worker T)) (s : System D S T)
      → ((w w' : Worker T)
          → g w ≡ some w'
          → IsTidy w
          → StopsLate s.proc.ctx.cancelled s.proc.input_chan w
          → (IsTidy w') × (StopsLate s.proc.ctx.cancelled s.proc.input_chan w'))
      → IsOrderly n s
      → Ensures (IsOrderly n) (on_worker i g s)
  unfolding on_worker
  on_worker-IsOrderly i g s keep h =
      let Late = StopsLate s.proc.ctx.cancelled s.proc.input_chan in
      with_some-Ensures (IsOrderly n) (get_elem? s.workers i) _ λ w e.
        with_some-Ensures (IsOrderly n) (g w) _ λ w' went.
          let good =
            keep w w' went (All-get_elem? IsTidy s.workers i w h.tidy e)
              (All-get_elem? Late s.workers i w h.late e) in
          record {
            staffed = length-set s.workers i w' ∙ h.staffed;
            tidy = All-set IsTidy s.workers i w' good.0 h.tidy;
            late = All-set Late s.workers i w' good.1 h.late;
          }

  on_receive-IsOrderly :
      (i : ℕ) (s : System D S T) → IsOrderly n s → Ensures (IsOrderly n) (on_receive i s)
  unfolding on_receive
  on_receive-IsOrderly i s h =
      let cancelled = s.proc.ctx.cancelled in
      with_some-Ensures (IsOrderly n) (get_elem? s.workers i) _ λ w e.
        with_some-Ensures (IsOrderly n) (receive s.proc.input_chan w) _ λ (w', c) went.
          let fact = receive-IsTidy s.proc.input_chan w went in
          record {
            staffed = length-set s.workers i w' ∙ h.staffed;
            tidy = All-set IsTidy s.workers i w' (λ off. cc (fact.0, off)) h.tidy;
            late =
                All-set (StopsLate cancelled c) s.workers i w' (λ off. cc (fact.0, off))
                  (All-mono (StopsLate cancelled s.proc.input_chan) (StopsLate cancelled c)
                    s.workers (λ v k off live. absurd (fact.1 (k off live).1)) h.late);
          }

  on_hand-IsOrderly :
      (i k : ℕ) (s : System D S T) → IsOrderly n s → Ensures (IsOrderly n) (on_hand i k s)
  on_hand-IsOrderly i k s h =
      on_hand-Ensures (IsOrderly n) i k s λ w batch plugin at busy there new.
        let w' : Worker T = record w { written = k ∷ w.written } in
        let Late = StopsLate s.proc.ctx.cancelled s.proc.input_chan in
        record {
          staffed = length-set s.workers i w' ∙ h.staffed;
          tidy =
              All-set IsTidy s.workers i w' (All-get_elem? IsTidy s.workers i w h.tidy at) h.tidy;
          late = All-set Late s.workers i w' (All-get_elem? Late s.workers i w h.late at) h.late;
        }

  on_write-IsOrderly :
      (i : ℕ) (s : System D S T) → IsOrderly n s → Ensures (IsOrderly n) (on_write i s)
  unfolding count_processed
  on_write-IsOrderly i s h = on_write-Ensures (IsOrderly n) i s λ w batch at busy all_written.
      let w' : Worker T = record w { writing = none; written = [] } in
      let Late = StopsLate s.proc.ctx.cancelled s.proc.input_chan in
      record {
        staffed = length-set s.workers i w' ∙ h.staffed;
        tidy = All-set IsTidy s.workers i w' (All-get_elem? IsTidy s.workers i w h.tidy at) h.tidy;
        late = All-set Late s.workers i w' (All-get_elem? Late s.workers i w h.late at) h.late;
      }

  same_chan-IsOrderly :
      (s : System D S T) (p : Processor D S T)
      → (p.input_chan ≡ s.proc.input_chan) × (p.ctx ≡ s.proc.ctx)
      → IsOrderly n s
      → All (StopsLate p.ctx.cancelled p.input_chan) s.workers
  same_chan-IsOrderly s p same h =
      subst₂ (λ (x : Context) c. All (StopsLate x.cancelled c) s.workers) (sym same.1) (sym same.0)
        h.late

  settle-IsOrderly :
      (i : ℕ) (c : Caller T) (s : System D S T) (o : Progress D S T)
      → IsGentle s.proc o
      → IsOrderly n s
      → Ensures (IsOrderly n) (settle i c s o)
  unfolding settle
  settle-IsOrderly i c s (moved stage p) k h = record {
    staffed = h.staffed;
    tidy = h.tidy;
    late = same_chan-IsOrderly s p k h;
  }
  settle-IsOrderly i c s (queued p) k h = record {
    staffed = h.staffed;
    tidy = h.tidy;
    late =
        All-mono (StopsLate s.proc.ctx.cancelled s.proc.input_chan)
          (StopsLate p.ctx.cancelled p.input_chan) s.workers
          (λ w late off live.
            cc (k.0, (late off (ap (λ (x : Context). x.cancelled) (sym k.1) ∙ live)).0))
          h.late;
  }
  settle-IsOrderly i c s (returned failure p) k h = record {
    staffed = h.staffed;
    tidy = h.tidy;
    late = same_chan-IsOrderly s p k h;
  }
  settle-IsOrderly i c s blocked k h = tt
  settle-IsOrderly i c s panicked k h = tt

  on_close-IsOrderly : (s : System D S T) → IsOrderly n s → Ensures (IsOrderly n) (on_close s)
  unfolding on_close close_input
  on_close-IsOrderly s h = elim (Bool-cases s.proc.input_chan.closed) [
    | inl shut ↦ ground arith
    | inr live ↦
        let late =
          All-mono (StopsLate s.proc.ctx.cancelled s.proc.input_chan)
            (StopsLate s.proc.ctx.cancelled (record (s.proc.input_chan) { closed = true }))
            s.workers (λ w k off on. (refl, (k off on).1)) h.late in
        ground arith
  ]

  pub step-IsOrderly :
      (a : Action T) (s : System D S T) → IsOrderly n s → Ensures (IsOrderly n) (step a s)
  unfolding step on_caller force_exit
  step-IsOrderly (submits e) s h = record { staffed = h.staffed; tidy = h.tidy; late = h.late }
  step-IsOrderly (proceeds i now prefer_done) s h =
      with_some-Ensures (IsOrderly n) (get_elem? s.callers i) _ λ c e.
        settle-IsOrderly i c s (advance c.stage now prefer_done c.event s.proc)
          (advance-IsGentle c.stage now prefer_done c.event s.proc) h
  step-IsOrderly (receives i) s h = on_receive-IsOrderly i s h
  step-IsOrderly (stores i now) s h =
      on_worker-IsOrderly i (store now) s
        (λ w w' e k late.
          let good = store-IsTidy now w e k in (good.0, λ off. late (sym good.1 ∙ off)))
        h
  step-IsOrderly (fires i) s h =
      on_worker-IsOrderly i fire s
        (λ w w' e k late. let good = fire-IsTidy w e k in (good.0, λ off. late (sym good.1 ∙ off)))
        h
  step-IsOrderly (hands i k) s h = on_hand-IsOrderly i k s h
  step-IsOrderly (writes i) s h = on_write-IsOrderly i s h
  step-IsOrderly (stops i) s h =
      on_worker-IsOrderly i (stop s.proc.ctx.cancelled s.proc.input_chan) s
        (λ w w' e k late. stop-IsTidy s.proc.ctx.cancelled s.proc.input_chan w e) h
  step-IsOrderly closes s h = on_close-IsOrderly s h
  step-IsOrderly forces s h = on_force-Ensures (IsOrderly n) s (record {
    staffed = h.staffed;
    tidy = h.tidy;
    late =
        All-mono (StopsLate s.proc.ctx.cancelled s.proc.input_chan)
          (StopsLate true s.proc.input_chan) s.workers (λ w k off live. cc) h.late;
  })

-- ===== src/System/Settled.antt =====
-- Workers that have exited stay so (pkg/processor/processor.go, `worker`), and how schedules are put
-- together.
use mathlib.Core.Path.{subst}
use mathlib.Core.Option.{none-ne-some}
use extend_game_telemetry_co.Prelude.{
  ◌∙◌, ℕ, ◌++◌, ◌≡◌, refl, sym, Bool, Option, none, some, List, [], ◌∷◌, get_elem?, All, All-set,
  All-get_elem?, arith, Bool-cases, inl, inr,
}
use extend_game_telemetry_co.Runtime.{Chan}
use extend_game_telemetry_co.Batcher
use extend_game_telemetry_co.Processor.{
  Progress, moved, queued, returned, blocked, panicked, advance, close_input,
}
use extend_game_telemetry_co.System.{
  hands, Worker, Caller, System, Action, submits, proceeds, receives, stores, fires, writes, stops,
  closes, forces, Outcome, next, disabled, crash, settle, on_worker, on_receive, on_caller,
  on_close, step, run, store, fire, stop, receive, and_then,
}
use extend_game_telemetry_co.System.Reasoning.{
  on_force-Ensures, on_hand-Ensures, on_write-Ensures, Ensures, with_some-Ensures,
}
use extend_game_telemetry_co.System.Orderly.{IsTidy, IsOrderly, step-IsOrderly}
use extend_game_telemetry_co.System.Exit.{IsDone}

module _ {T : Type 0} where
  store-IsDone :
      (now : ℕ) (w : Worker T) {w' : Worker T}
      → store now w ≡ some w'
      → IsTidy w
      → IsDone w
      → IsDone w'
  unfolding store
  store-IsDone now w h tidy done = ground arith

  fire-IsDone : (w : Worker T) {w' : Worker T} → fire w ≡ some w' → IsTidy w → IsDone w → IsDone w'
  unfolding fire Batcher.timeout_flush Batcher.flush
  fire-IsDone w h tidy done = ground arith

  stop-IsDone :
      (cancelled : Bool) (c : Chan T) (w : Worker T) {w' : Worker T}
      → stop cancelled c w ≡ some w'
      → IsDone w
      → IsDone w'
  unfolding stop
  stop-IsDone cancelled c w h done = ground arith

  receive-IsDone :
      (c : Chan T) (w : Worker T) {r : Worker T × Chan T} → receive c w ≡ some r → IsDone w → ⊥
  unfolding receive
  receive-IsDone c w h done = ground arith

module _ {D S T : Type 0} where
  pub and_then-next :
      (o : Outcome D S T) (f : System D S T → Outcome D S T) {t : System D S T}
      → and_then o f ≡ next t
      → (s : System D S T) × (o ≡ next s) × (f s ≡ next t)
  and_then-next (next s) f h = (s, refl, h)
  and_then-next disabled f h = ground arith
  and_then-next crash f h = ground arith

  pub run-append :
      (xs ys : List (Action T)) (s : System D S T) {t u : System D S T}
      → run xs s ≡ next t
      → run ys t ≡ next u
      → run (xs ++ ys) s ≡ next u
  unfolding run
  run-append [] ys s {t} {u} h k = subst (λ o. and_then o (run ys) ≡ next u) (sym h) k
  run-append (a ∷ xs) ys s h k =
      let (t, e, rest) = and_then-next (step a s) (run xs) h in rw e (run-append xs ys t rest k)

  -- Every worker has exited.
  abbrev pub AllDone : System D S T → Type 0
  AllDone s = All IsDone s.workers

  settle-AllDone :
      (i : ℕ) (c : Caller T) (s : System D S T) (o : Progress D S T)
      → AllDone s
      → Ensures AllDone (settle i c s o)
  unfolding settle
  settle-AllDone i c s (moved stage p) h = h
  settle-AllDone i c s (queued p) h = h
  settle-AllDone i c s (returned failure p) h = h
  settle-AllDone i c s blocked h = tt
  settle-AllDone i c s panicked h = tt

  on_worker-AllDone :
      (i : ℕ) (g : Worker T → Option (Worker T)) (s : System D S T)
      → ((w w' : Worker T) → g w ≡ some w' → IsTidy w → IsDone w → IsDone w')
      → All IsTidy s.workers
      → AllDone s
      → Ensures AllDone (on_worker i g s)
  unfolding on_worker
  on_worker-AllDone i g s keep tidy h = with_some-Ensures AllDone (get_elem? s.workers i) _ λ w e.
      with_some-Ensures AllDone (g w) _ λ w' went.
        All-set IsDone s.workers i w'
          (keep w w' went (All-get_elem? IsTidy s.workers i w tidy e)
            (All-get_elem? IsDone s.workers i w h e))
          h

  on_close-AllDone : (s : System D S T) → AllDone s → Ensures AllDone (on_close s)
  unfolding on_close close_input
  on_close-AllDone s h = elim (Bool-cases s.proc.input_chan.closed) [
    | inl shut ↦ ground arith
    | inr live ↦ ground arith
  ]

  -- Once every worker has exited, no step starts one again or gives it a batch.
  pub step-AllDone :
      (a : Action T) (s : System D S T)
      → All IsTidy s.workers
      → AllDone s
      → Ensures AllDone (step a s)
  unfolding step on_caller on_receive
  step-AllDone (submits e) s tidy h = h
  step-AllDone (proceeds i now prefer_done) s tidy h =
      with_some-Ensures AllDone (get_elem? s.callers i) _
        λ c e. settle-AllDone i c s (advance c.stage now prefer_done c.event s.proc) h
  step-AllDone (receives i) s tidy h = with_some-Ensures AllDone (get_elem? s.workers i) _ λ w e.
      with_some-Ensures AllDone (receive s.proc.input_chan w) _ λ r went.
        absurd (receive-IsDone s.proc.input_chan w went (All-get_elem? IsDone s.workers i w h e))
  step-AllDone (stores i now) s tidy h =
      on_worker-AllDone i (store now) s (λ w w' e k done. store-IsDone now w e k done) tidy h
  step-AllDone (fires i) s tidy h =
      on_worker-AllDone i fire s (λ w w' e k done. fire-IsDone w e k done) tidy h
  step-AllDone (hands i k) s tidy h =
      on_hand-Ensures AllDone i k s λ w batch plugin at busy there new.
        let idle = (All-get_elem? IsDone s.workers i w h at).1 in
        absurd (none-ne-some _ (sym idle ∙ busy))
  step-AllDone (writes i) s tidy h = on_write-Ensures AllDone i s λ w batch at busy all_written.
      All-set IsDone s.workers i (record w { writing = none; written = [] })
        ((All-get_elem? IsDone s.workers i w h at).0, refl) h
  step-AllDone (stops i) s tidy h =
      on_worker-AllDone i (stop s.proc.ctx.cancelled s.proc.input_chan) s
        (λ w w' e k done. stop-IsDone s.proc.ctx.cancelled s.proc.input_chan w e done) tidy h
  step-AllDone closes s tidy h = on_close-AllDone s h
  step-AllDone forces s tidy h = on_force-Ensures AllDone s h

  abbrev pub Settled : ℕ → System D S T → Type 0
  Settled n s = IsOrderly n s × AllDone s

  Ensures-both :
      (n : ℕ) (o : Outcome D S T)
      → Ensures (IsOrderly n) o
      → Ensures AllDone o
      → Ensures (Settled n) o
  Ensures-both n (next s) h k = (h, k)
  Ensures-both n disabled h k = tt
  Ensures-both n crash h k = tt

  pub step-Settled :
      (n : ℕ) (a : Action T) (s : System D S T) → Settled n s → Ensures (Settled n) (step a s)
  step-Settled n a s h =
      Ensures-both n (step a s) (step-IsOrderly a s h.0) (step-AllDone a s h.0.tidy h.1)

-- ===== src/System/Fifo.antt =====
-- With one worker the pipeline of a processor is a queue (pkg/processor/processor.go): events are
-- processed in the order in which they were accepted.
use mathlib.Core.List.{append_assoc, append-nil}
use mathlib.Core.Path.{subst}
use extend_game_telemetry_co.Prelude.{
  ℕ, ◌++◌, ◌≡◌, ◌∙◌, refl, sym, ap, Bool, Option, none, some, List, [], ◌∷◌, false, keep, images,
  get_elem?, arith, All,
}
use extend_game_telemetry_co.Prelude.Int.{pos_part}
use extend_game_telemetry_co.Batcher.Order.{batch_of}
use extend_game_telemetry_co.Storage.{StoragePlugin, Plugin}
use extend_game_telemetry_co.Processor
use extend_game_telemetry_co.Processor.{
  Processor, write_to_plugin, DedupObject, Progress, moved, queued, returned, blocked, panicked,
  advance, count_processed, close_input, force_exit,
}
use extend_game_telemetry_co.System.{
  on_hand, hands, Worker, Caller, System, Action, submits, proceeds, receives, stores, fires,
  writes, stops, closes, forces, next, settle, on_worker, on_receive, on_write, on_caller, on_close,
  step, run, store, fire, stop, receive, boot,
}
use extend_game_telemetry_co.System.Reasoning.{
  on_force-Ensures, on_hand-Ensures, on_write-Ensures, Ensures, run-Ensures, Ensures_next,
  with_some-Ensures,
}
use extend_game_telemetry_co.Processor.Fanout.{Journals, IsSink}
use extend_game_telemetry_co.System.Orderly.{IsTidy, StopsLate, IsOrderly, step-IsOrderly}
use extend_game_telemetry_co.System.Exit.{IsDone, IsFresh-IsOrderly}
use extend_game_telemetry_co.System.Flight.{done_flight, in_flight}
use extend_game_telemetry_co.System.Launch.{IsNew, IsFresh, boot-IsFresh, boot-plugins}
use extend_game_telemetry_co.System.Delivery.{one_of}
use extend_game_telemetry_co.System.Conservation.{IsPush, advance-IsPush}
use extend_game_telemetry_co.System.Line.{
  line_of, store_line, fire_line, stop_line, receive_line, single, new_line, sole,
}
use extend_game_telemetry_co.System.Ordered.{HasInOrder, step-HasInOrder, IsFresh-HasInOrder}

module _ {D S T : Type 0} where
  -- Of one worker: the accepted events are, in order, those delivered, those that the worker has,
  -- and those in the channel.
  abbrev pub IsFifo : System D S T → Type 0
  IsFifo s =
      (w : Worker T) × (s.workers ≡ w ∷ [])
      × (s.accepted ≡ s.delivered ++ (line_of w ++ s.proc.input_chan.buffer))

  on_worker-IsFifo :
      (i : ℕ) (g : Worker T → Option (Worker T)) (s : System D S T)
      → ((w w' : Worker T) → g w ≡ some w' → line_of w' ≡ line_of w)
      → IsFifo s
      → Ensures IsFifo (on_worker i g s)
  unfolding on_worker
  on_worker-IsFifo i g s keep (w, one, order) =
      with_some-Ensures IsFifo (get_elem? s.workers i) _ λ v at.
        with_some-Ensures IsFifo (g v) _ λ w' went.
          let (same, after) = sole s.workers w v w' i one at in
          let line = keep v w' went ∙ ap line_of same in
          (w', after, order ∙ ap (λ xs. s.delivered ++ (xs ++ s.proc.input_chan.buffer)) (sym line))

  on_receive-IsFifo : (i : ℕ) (s : System D S T) → IsFifo s → Ensures IsFifo (on_receive i s)
  unfolding on_receive
  on_receive-IsFifo i s (w, one, order) = with_some-Ensures IsFifo (get_elem? s.workers i) _ λ v at.
      with_some-Ensures IsFifo (receive s.proc.input_chan v) _ λ (w', c) went.
        let (same, after) = sole s.workers w v w' i one at in
        let line =
          receive_line s.proc.input_chan v went
          ∙ ap (λ x. line_of x ++ s.proc.input_chan.buffer) same in
        (w', after, order ∙ ap (λ xs. s.delivered ++ xs) (sym line))

  on_hand-IsFifo : (i k : ℕ) (s : System D S T) → IsFifo s → Ensures IsFifo (on_hand i k s)
  on_hand-IsFifo i k s (w, one, order) =
      on_hand-Ensures IsFifo i k s λ v batch plugin at busy there new.
        let (same, after) = sole s.workers w v (record v { written = k ∷ v.written }) i one at in
        (
          record v { written = k ∷ v.written },
          after,
          order ∙ ap (λ x. s.delivered ++ (line_of x ++ s.proc.input_chan.buffer)) (sym same),
        )

  on_write-IsFifo : (i : ℕ) (s : System D S T) → IsFifo s → Ensures IsFifo (on_write i s)
  unfolding count_processed
  on_write-IsFifo i s (w, one, order) = on_write-Ensures IsFifo i s λ v batch at busy all_written.
      let out : Worker T = record v { writing = none; written = [] } in
      let (same, after) = sole s.workers w v out i one at in
      let rest = v.batcher.events ++ one_of v.holding in
      let buffer = s.proc.input_chan.buffer in
      (
        out,
        after,
        order
            ∙ ap (λ x. s.delivered ++ (line_of x ++ buffer)) (sym same)
            ∙ ap (λ o. s.delivered ++ ((batch_of o ++ rest) ++ buffer)) busy
            ∙ ap (λ xs. s.delivered ++ xs) (append_assoc batch rest buffer)
            ∙ sym (append_assoc s.delivered batch (rest ++ buffer)),
      )

  settle-IsFifo :
      (i : ℕ) (c : Caller T) (s : System D S T) (o : Progress D S T)
      → IsPush c.event s.proc o
      → IsFifo s
      → Ensures IsFifo (settle i c s o)
  unfolding settle
  settle-IsFifo i c s (moved stage p) k (w, one, order) =
      (w, one, order ∙ ap (λ b. s.delivered ++ (line_of w ++ b)) (sym k))
  settle-IsFifo i c s (queued p) k (w, one, order) = (
    w,
    one,
    ap (λ xs. xs ++ c.event ∷ []) order
        ∙ append_assoc s.delivered (line_of w ++ s.proc.input_chan.buffer) (c.event ∷ [])
        ∙ ap (λ xs. s.delivered ++ xs)
            (append_assoc (line_of w) s.proc.input_chan.buffer (c.event ∷ []))
        ∙ ap (λ b. s.delivered ++ (line_of w ++ b)) (sym k),
  )
  settle-IsFifo i c s (returned failure p) k (w, one, order) =
      (w, one, order ∙ ap (λ b. s.delivered ++ (line_of w ++ b)) (sym k))
  settle-IsFifo i c s blocked k h = tt
  settle-IsFifo i c s panicked k h = tt

  step-IsFifo : (a : Action T) (s : System D S T) → IsFifo s → Ensures IsFifo (step a s)
  unfolding step on_caller on_close close_input force_exit
  step-IsFifo (submits e) s h = h
  step-IsFifo (proceeds i now prefer_done) s h =
      with_some-Ensures IsFifo (get_elem? s.callers i) _ λ c e.
        settle-IsFifo i c s (advance c.stage now prefer_done c.event s.proc)
          (advance-IsPush c.stage now prefer_done c.event s.proc) h
  step-IsFifo (receives i) s h = on_receive-IsFifo i s h
  step-IsFifo (stores i now) s h = on_worker-IsFifo i (store now) s (λ w w' e. store_line now w e) h
  step-IsFifo (fires i) s h = on_worker-IsFifo i fire s (λ w w' e. fire_line w e) h
  step-IsFifo (hands i k) s h = on_hand-IsFifo i k s h
  step-IsFifo (writes i) s h = on_write-IsFifo i s h
  step-IsFifo (stops i) s h =
      on_worker-IsFifo i (stop s.proc.ctx.cancelled s.proc.input_chan) s
        (λ w w' e. stop_line s.proc.ctx.cancelled s.proc.input_chan w e) h
  step-IsFifo closes s h = ground arith
  step-IsFifo forces s h = on_force-Ensures IsFifo s h

  IsFresh-IsFifo : (s : System D S T) → IsFresh 1 s → IsFifo s
  IsFresh-IsFifo s h =
      let (w, one) = single s.workers h.staffed in
      let new = subst (All IsNew) one h.new_workers in
      (w, one, h.no_accepted ∙ sym (rw (h.no_delivered, new_line w new.0, h.empty) refl))

  settled :
      (s : System D S T)
      → s.proc.ctx.cancelled ≡ false
      → All IsDone s.workers
      → IsOrderly 1 s
      → IsFifo s
      → s.delivered ≡ s.accepted
  settled s live done orderly (w, one, order) =
      let exited = (subst (All IsDone) one done).0 in
      let tidy = (subst (All IsTidy) one orderly.tidy).0 exited.0 in
      let late =
        (subst (All (StopsLate s.proc.ctx.cancelled s.proc.input_chan)) one orderly.late).0 exited.0
          live in
      let nothing : line_of w ≡ [] = rw (exited.1, tidy.1, tidy.0) refl in
      sym (order ∙ rw (nothing, late.1) (append-nil s.delivered))

module _ {D S T : Type 0} (config : Processor.Config) (plugins : List (Plugin S T))
    (deduplicator : Option (DedupObject D T)) (actions : List (Action T)) {s₀ s : System D S T}
    (up : boot config plugins deduplicator ≡ some s₀) (sole_worker : pos_part config.workers ≡ 1)
    (went : run actions s₀ ≡ next s) where
  -- A processor with exactly one worker, after any schedule of its goroutines: the accepted events
  -- are, in the order in which they were accepted, those of the processed batches, then those that
  -- the worker has, then those queued in the channel.
  pub run-IsFifo : IsFifo s
  run-IsFifo = Ensures_next IsFifo went (
      run-Ensures IsFifo step-IsFifo actions s₀ (
        IsFresh-IsFifo s₀
          (subst (λ n. IsFresh n s₀) sole_worker (boot-IsFresh config plugins deduplicator up))))

  -- A processor with exactly one worker, after any schedule of its goroutines in which the context
  -- was not cancelled and the worker has exited: a backend that stores an entry of each event that
  -- it is handed and can represent, started empty at any place among the plugins, has stored the
  -- entries of the accepted events that pass its filter, in the order in which they were accepted.
  pub exit_in_order :
      {X : Type 0} {IsGood : S → Type 0} {log : S → List X} {image : T → Option X}
      {passes : T → Bool} {m : StoragePlugin S T} {plugin : Plugin S T}
      (j : Journals IsGood log image passes m) (i : ℕ)
      → get_elem? plugins i ≡ some plugin
      → IsSink j [] plugin
      → s.proc.ctx.cancelled ≡ false
      → All IsDone s.workers
      → (plugin' : Plugin S T) × (get_elem? s.proc.plugins i ≡ some plugin')
        × (log plugin'.state ≡ images image (keep passes s.accepted))
  exit_in_order {image = image} {passes = passes} j i at unused live done =
      let fresh =
        subst (λ n. IsFresh n s₀) sole_worker (boot-IsFresh config plugins deduplicator up) in
      let (w, one, plugin', at', sink) = Ensures_next (HasInOrder j i) went (
        run-Ensures (HasInOrder j i) (step-HasInOrder j i) actions s₀ (
          IsFresh-HasInOrder j i s₀ fresh
            (ap (λ ps. get_elem? ps i) (boot-plugins config plugins deduplicator up) ∙ at)
            unused)) in
      let orderly =
        Ensures_next (IsOrderly 1) went
          (run-Ensures (IsOrderly 1) step-IsOrderly actions s₀ (IsFresh-IsOrderly s₀ fresh)) in
      let out = (subst (All IsDone) one done).0 in
      let all_delivered : s.delivered ++ in_flight i w ≡ s.accepted =
        ap (λ es. s.delivered ++ es) (done_flight i w out)
        ∙ append-nil s.delivered
        ∙ settled s live done orderly run-IsFifo in
      (plugin', at', sink.2 ∙ ap (λ es. images image (keep passes es)) all_delivered)

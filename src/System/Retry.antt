-- ===== src/System/Retry.antt =====
-- A call of `Submit` that fails while the processor is shut down, and its retry
-- (pkg/processor/processor.go).
use extend_game_telemetry_co.Prelude.{
  ℕ, ◌+◌, ◌≡◌, ◌∙◌, refl, ap, true, false, some, List, [], ◌∷◌, length, ltb, u64, arith,
}
use extend_game_telemetry_co.Prelude.Result.{ok}
use extend_game_telemetry_co.Runtime.{with_timeout, has_room}
use extend_game_telemetry_co.Dedup.{Remembers}
use extend_game_telemetry_co.Processor.{
  DedupObject, advance, check_duplicate, mark_seen, offer, await_room, close_input, force_exit,
}
use extend_game_telemetry_co.System.{
  System, Action, submits, proceeds, closes, forces, next, settle, on_caller, on_close, on_force,
  step, run,
}

-- A caller comes to the second `select` on a full channel, `Shutdown` closes the channel and its
-- timeout passes, the `select` takes the cancelled context, and the event is submitted once more.
abbrev pub refused_and_retried : {T : Type 0} → ℕ → ℕ → T → List (Action T)
refused_and_retried now now' e =
    submits e
    ∷ proceeds 0 now false
    ∷ proceeds 0 now false
    ∷ proceeds 0 now false
    ∷ closes
    ∷ forces
    ∷ proceeds 0 now true
    ∷ submits e
    ∷ proceeds 0 now' false
    ∷ []

module _ {D S T : Type 0} (now now' : ℕ) (e : T) (s : System D S T) (o : DedupObject D T) where
  -- One call was dropped and one was a duplicate; nothing was accepted, and no call is left.
  abbrev pub IsLost : System D S T → Type 0
  IsLost s' =
      (s'.accepted ≡ s.accepted)
      × (s'.callers ≡ [])
      × (s'.proc.metrics.events_dropped ≡ u64 (s.proc.metrics.events_dropped + 1))
      × (s'.proc.metrics.events_duplicated ≡ u64 (s.proc.metrics.events_duplicated + 1))

  -- The same, of a state in which these facts are written out.
  retry_at :
      (buffer : List T) (capacity : ℕ)
      → let start = record s {
        callers = [];
        proc = record (s.proc) {
          deduplicator = some o;
          input_chan = record { buffer = buffer; capacity = capacity; closed = false };
        };
      } in
        Remembers o.methods
        → o.methods.is_duplicate (with_timeout s.proc.ctx 100) e o.state ≡ ok false
        → ltb (length buffer) capacity ≡ false
        → (s' : System D S T) × (run (refused_and_retried now now' e) start ≡ next s') × IsLost s'
  unfolding run step on_caller on_close on_force settle advance check_duplicate mark_seen offer
      await_room close_input force_exit
  retry_at buffer capacity memory unknown full =
      let marked = o.methods.mark (with_timeout s.proc.ctx 100) now e o.state in
      let known =
        memory (with_timeout s.proc.ctx 100)
          (with_timeout (record (s.proc.ctx) { cancelled = true }) 100) now e o.state in
      rw (unknown, full, known) (_, refl, (refl, refl, refl, refl))

  -- With a deduplicator that remembers marks: from a state with an open, full channel and no other
  -- caller, an event that it does not know can be marked as seen, come to the second `select`, be
  -- dropped there for the context that a timed-out `Shutdown` has cancelled, and be submitted
  -- again: the second call is counted as a duplicate, which `Submit` reports as a success, and
  -- the event is never accepted.
  pub retry_swallowed :
      Remembers o.methods
      → s.callers ≡ []
      → s.proc.deduplicator ≡ some o
      → o.methods.is_duplicate (with_timeout s.proc.ctx 100) e o.state ≡ ok false
      → s.proc.input_chan.closed ≡ false
      → has_room s.proc.input_chan ≡ false
      → (s' : System D S T) × (run (refused_and_retried now now' e) s ≡ next s') × IsLost s'
  retry_swallowed memory alone there unknown live full =
      let chan = s.proc.input_chan in
      let (s', ran, lost) = retry_at chan.buffer chan.capacity memory unknown full in
      (s', ap (run (refused_and_retried now now' e)) (ground arith) ∙ ran, lost)

-- ===== src/System/Race.antt =====
-- Two callers of `Submit` with the same event (pkg/processor/processor.go): `IsDuplicate` and `Mark` are
-- two calls, so that the other caller may come in between.
use extend_game_telemetry_co.Prelude.{
  ℕ, ◌+◌, ◌≤◌, ◌++◌, ◌≡◌, ◌∙◌, refl, ap, true, false, some, List, [], ◌∷◌, length, length-append,
  ltb, arith,
}
use mathlib.Core.List.{append_assoc}
use extend_game_telemetry_co.Prelude.Result.{ok}
use extend_game_telemetry_co.Runtime.{with_timeout}
use extend_game_telemetry_co.Processor.{DedupObject, advance, check_duplicate, mark_seen, offer}
use extend_game_telemetry_co.System.{
  System, Action, submits, proceeds, next, settle, on_caller, step, run,
}

-- Two callers come in with one event, and take their steps by turns.
abbrev pub by_turns : {T : Type 0} → ℕ → ℕ → T → List (Action T)
by_turns now now' e =
    submits e
    ∷ submits e
    ∷ proceeds 0 now false
    ∷ proceeds 1 now' false
    ∷ proceeds 0 now false
    ∷ proceeds 1 now' false
    ∷ proceeds 0 now false
    ∷ proceeds 1 now' false
    ∷ []

module _ {D S T : Type 0} (now now' : ℕ) (e : T) (s : System D S T) (o : DedupObject D T) where
  abbrev marked_once : DedupObject D T
  marked_once = record o { state = (o.methods.mark (with_timeout s.proc.ctx 100) now e o.state).1 }

  abbrev marked_twice : DedupObject D T
  marked_twice = record o {
    state = (o.methods.mark (with_timeout s.proc.ctx 100) now' e marked_once.state).1;
  }

  -- The same, of a state in which these facts are written out.
  race_at :
      (buffer : List T) (capacity : ℕ)
      → let start = record s {
        callers = [];
        proc = record (s.proc) {
          deduplicator = some o;
          input_chan = record { buffer = buffer; capacity = capacity; closed = false };
        };
      } in
        o.methods.is_duplicate (with_timeout s.proc.ctx 100) e o.state ≡ ok false
        → ltb (length buffer) capacity ≡ true
        → ltb (length (buffer ++ e ∷ [])) capacity ≡ true
        → (s' : System D S T) × (run (by_turns now now' e) start ≡ next s')
          × (s'.accepted ≡ (s.accepted ++ e ∷ []) ++ e ∷ [])
  unfolding run step on_caller settle advance check_duplicate mark_seen offer
  race_at buffer capacity unknown first second =
      rw (unknown, unknown, first, second) (_, refl, refl)

  -- Whatever the deduplicator: two callers of `Submit` with an event that it does not know, on an
  -- open channel with room for two, can both get the event accepted.
  pub race_accepts_twice :
      s.callers ≡ []
      → s.proc.deduplicator ≡ some o
      → o.methods.is_duplicate (with_timeout s.proc.ctx 100) e o.state ≡ ok false
      → s.proc.input_chan.closed ≡ false
      → length s.proc.input_chan.buffer + 2 ≤ s.proc.input_chan.capacity
      → (s' : System D S T) × (run (by_turns now now' e) s ≡ next s')
        × (s'.accepted ≡ s.accepted ++ e ∷ e ∷ [])
  race_accepts_twice alone there unknown live room =
      let chan = s.proc.input_chan in
      let (s', ran, both) =
        race_at chan.buffer chan.capacity unknown (ground arith)
          (ground (arith, length-append chan.buffer (e ∷ []))) in
      (
        s',
        ap (run (by_turns now now' e)) (ground arith) ∙ ran,
        both ∙ append_assoc s.accepted (e ∷ []) (e ∷ []),
      )

-- ===== src/Processor/Submission.antt =====
-- `Submit` of pkg/processor/processor.go, when nothing else runs in between: what it returns, and
-- what it leaves, in each case.
use extend_game_telemetry_co.Prelude.{
  ℕ, ◌≡◌, ◌∙◌, Bool, true, false, none, some, codes, arith, if◌then◌else◌,
}
use extend_game_telemetry_co.Prelude.Result.{ok, err}
use extend_game_telemetry_co.Runtime.{with_timeout, has_room}
use extend_game_telemetry_co.Processor.{
  Processor, Progress, queued, returned, blocked, panicked, submit, check_duplicate, mark_seen,
  offer, await_room, enqueue, count_dropped, count_duplicated,
}

module _ {D S T : Type 0} (now : ℕ) (prefer_done : Bool) (e : T) (p : Processor D S T) where
  -- What `Submit` learns from its deduplicator: an error counts as "not seen".
  abbrev pub seen_before : Bool
  seen_before = elim (p.deduplicator) [
    | none ↦ false
    | some o ↦ elim (o.methods.is_duplicate (with_timeout p.ctx 100) e o.state) [
      | err _ ↦ false
      | ok is_dupe ↦ is_dupe
    ]
  ]

  -- The processor after `Mark`.
  abbrev pub marked : Processor D S T
  marked = elim (p.deduplicator) [
    | none ↦ p
    | some o ↦ record p {
      deduplicator =
          some (record o { state = (o.methods.mark (with_timeout p.ctx 100) now e o.state).1 });
    }
  ]

  -- Sending: panic on a closed channel, then the queue, then the shutdown error.
  abbrev pub send_outcome : Progress D S T
  send_outcome =
      if p.input_chan.closed
      then panicked
      else if has_room p.input_chan
      then queued (enqueue e marked)
      else if p.ctx.cancelled
      then returned (some (codes "processor is shutting down")) (count_dropped marked)
      else blocked

  -- `Submit` of one caller with no other goroutine in between: an event that was seen before is
  -- counted and skipped with no error; any other is marked and then, in this order, the send panics
  -- on a closed channel, the event is queued if there is room, the shutdown error is returned and
  -- the drop counted if the context is cancelled, and the caller blocks.
  pub submit_cases :
      submit now prefer_done e p
      ≡ (if seen_before then returned none (count_duplicated p) else send_outcome)
  unfolding submit check_duplicate mark_seen offer await_room
  submit_cases = ground arith

  -- After `Shutdown` has closed the channel, `Submit` of an event that was not seen before panics.
  pub submit_closed :
      seen_before ≡ false → p.input_chan.closed ≡ true → submit now prefer_done e p ≡ panicked
  submit_closed fresh shut = submit_cases ∙ ground arith

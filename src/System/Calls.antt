-- ===== src/System/Calls.antt =====
-- One call of `Submit` from its start to its return as a schedule (pkg/processor/processor.go): the
-- function that the handlers call against the steps that the goroutines take.
use extend_game_telemetry_co.Prelude.{
  ℕ, zero, suc, ◌+◌, ◌++◌, ◌≡◌, ◌∙◌, refl, sym, ap, Bool, some, List, [], ◌∷◌, length, get_elem?,
  set, arith,
}
use extend_game_telemetry_co.Processor.Submission.{submit_cases}
use extend_game_telemetry_co.Processor.{
  Processor, Stage, entered, counting, count_received, Progress, moved, queued, returned, blocked,
  panicked, advance, resume, submit,
}
use extend_game_telemetry_co.System.{
  System, Action, submits, proceeds, Outcome, next, disabled, crash, remove, settle, on_caller,
  step, run, and_then,
}

module _ {A : Type 0} where
  get_elem?_last : (xs : List A) (a : A) → get_elem? (xs ++ a ∷ []) (length xs) ≡ some a
  get_elem?_last [] a = refl
  get_elem?_last (x ∷ xs) a = get_elem?_last xs a

  set_last : (xs : List A) (a b : A) → set (xs ++ a ∷ []) (length xs) b ≡ xs ++ b ∷ []
  set_last [] a b = refl
  set_last (x ∷ xs) a b = ap (λ ys. x ∷ ys) (set_last xs a b)

  remove_last : (xs : List A) (a : A) → remove (xs ++ a ∷ []) (length xs) ≡ xs
  remove_last [] a = refl
  remove_last (x ∷ xs) a = ap (λ ys. x ∷ ys) (remove_last xs a)

module _ {D S T : Type 0} (now : ℕ) (prefer_done : Bool) (e : T) (base : System D S T) where
  -- The system with one more caller, at a stage of its `Submit`.
  abbrev pub calling : Stage → Processor D S T → System D S T
  calling stage p = record base {
    proc = p;
    callers = base.callers ++ record { stage = stage; event = e } ∷ [];
  }

  -- What one step of that caller comes to.
  abbrev outcome_of : Progress D S T → Outcome D S T
  outcome_of (moved stage p) = next (calling stage p)
  outcome_of (queued p) = next (record base {
    proc = p;
    callers = base.callers ++ record { stage = counting; event = e } ∷ [];
    accepted = base.accepted ++ e ∷ [];
  })
  outcome_of (returned failure p) = next (record base { proc = p })
  outcome_of blocked = disabled
  outcome_of panicked = crash

  abbrev proceed : Action T
  proceed = proceeds (length base.callers) now prefer_done

  settle_last :
      (stage : Stage) (p : Processor D S T) (o : Progress D S T)
      → settle (length base.callers) (record { stage = stage; event = e }) (calling stage p) o
        ≡ outcome_of o
  unfolding settle
  settle_last stage p (moved stage' p') = rw (set_last base.callers) refl
  settle_last stage p (queued p') = rw (set_last base.callers) refl
  settle_last stage p (returned failure p') = rw (remove_last base.callers) refl
  settle_last stage p blocked = refl
  settle_last stage p panicked = refl

  step-calling :
      (stage : Stage) (p : Processor D S T)
      → step proceed (calling stage p) ≡ outcome_of (advance stage now prefer_done e p)
  unfolding step on_caller
  step-calling stage p =
      rw (get_elem?_last base.callers (record { stage = stage; event = e }))
        (settle_last stage p (advance stage now prefer_done e p))

  step-counting :
      (accepted : List T) (p : Processor D S T)
      → step proceed (record base {
        proc = p;
        callers = base.callers ++ record { stage = counting; event = e } ∷ [];
        accepted = accepted;
      })
        ≡ next (record base { proc = count_received p; accepted = accepted })
  unfolding step on_caller settle advance
  step-counting accepted p =
      rw (get_elem?_last base.callers (record { stage = counting; event = e }))
        (rw (remove_last base.callers) refl)

  -- What a call comes to, as a schedule from `start`: an event that is queued is accepted, a return
  -- leaves no caller, a panic ends the process, and a caller that is blocked stays at a stage
  -- at which it has no step.
  abbrev pub Ends : System D S T → Progress D S T → Type 0
  Ends start (moved stage p) =
      (actions : List (Action T)) × (run actions start ≡ next (calling stage p))
  Ends start (queued p) =
      (actions : List (Action T)) × (run actions start
        ≡ next (record base { proc = p; accepted = base.accepted ++ e ∷ [] }))
  Ends start (returned failure p) =
      (actions : List (Action T)) × (run actions start ≡ next (record base { proc = p }))
  Ends start blocked =
      (actions : List (Action T)) × (stage : Stage) × (p : Processor D S T) × (run actions start
        ≡ next (calling stage p))
      × (step proceed (calling stage p) ≡ disabled)
  Ends start panicked = (actions : List (Action T)) × (run actions start ≡ crash)

  -- A step before.
  earlier :
      (a : Action T) (start next_state : System D S T) (o : Progress D S T)
      → step a start ≡ next next_state
      → Ends next_state o
      → Ends start o
  unfolding run
  earlier a start t (moved stage p) h (actions, ran) = (a ∷ actions, rw (h, and_then) ran)
  earlier a start t (queued p) h (actions, ran) = (a ∷ actions, rw (h, and_then) ran)
  earlier a start t (returned failure p) h (actions, ran) = (a ∷ actions, rw (h, and_then) ran)
  earlier a start t blocked h (actions, stage, p, ran, stuck) =
      (a ∷ actions, stage, p, rw (h, and_then) ran, stuck)
  earlier a start t panicked h (actions, ran) = (a ∷ actions, rw (h, and_then) ran)

  continued : ℕ → Progress D S T → Progress D S T
  continued k o = elim o [
    | moved stage' p' ↦ resume k stage' now prefer_done e p'
    | queued p' ↦ queued (count_received p')
    | returned failure p' ↦ returned failure p'
    | blocked ↦ blocked
    | panicked ↦ panicked
  ]

  continued_lem :
      (k : ℕ) (stage : Stage) (p : Processor D S T) (o : Progress D S T)
      → ((stage' : Stage) (p' : Processor D S T)
          → Ends (calling stage' p') (resume k stage' now prefer_done e p'))
      → advance stage now prefer_done e p ≡ o
      → Ends (calling stage p) (continued k o)
  unfolding continued run
  continued_lem k stage p (moved stage' p') later h =
      earlier proceed (calling stage p) (calling stage' p') (resume k stage' now prefer_done e p')
        (step-calling stage p ∙ ap outcome_of h) (later stage' p')
  continued_lem k stage p (queued p') later h = (
    proceed ∷ proceed ∷ [],
    rw (step-calling stage p, h, and_then) (rw (step-counting (base.accepted ++ e ∷ []) p') refl),
  )
  continued_lem k stage p (returned failure p') later h =
      (proceed ∷ [], rw (step-calling stage p, h, and_then) refl)
  continued_lem k stage p blocked later h =
      ([], stage, p, refl, step-calling stage p ∙ ap outcome_of h)
  continued_lem k stage p panicked later h =
      (proceed ∷ [], rw (step-calling stage p, h, and_then) refl)

  resume-Ends :
      (k : ℕ) (stage : Stage) (p : Processor D S T)
      → Ends (calling stage p) (resume k stage now prefer_done e p)
  unfolding run continued
  resume-Ends zero stage p = ([], refl)
  resume-Ends (suc k) stage p =
      continued_lem k stage p (advance stage now prefer_done e p) (resume-Ends k) refl

module _ {D S T : Type 0} (now : ℕ) (prefer_done : Bool) (e : T) where
  -- The call stops before its steps run out.
  submit_stops :
      (p : Processor D S T) (stage : Stage) (p' : Processor D S T)
      → ¬ (submit now prefer_done e p ≡ moved stage p')
  submit_stops p stage p' h = let cases = sym (submit_cases now prefer_done e p) ∙ h in ground arith

  -- A call that stops, as a schedule.
  abbrev pub Returns : System D S T → System D S T → Progress D S T → Type 0
  Returns base start (moved stage p) = ⊥
  Returns base start (queued p) = Ends now prefer_done e base start (queued p)
  Returns base start (returned failure p) = Ends now prefer_done e base start (returned failure p)
  Returns base start blocked = Ends now prefer_done e base start blocked
  Returns base start panicked = Ends now prefer_done e base start panicked

  stops_lem :
      (base start : System D S T) (o : Progress D S T)
      → ((stage : Stage) (p : Processor D S T) → ¬ (o ≡ moved stage p))
      → Ends now prefer_done e base start o
      → Returns base start o
  stops_lem base start (moved stage p) never h = never stage p refl
  stops_lem base start (queued p) never h = h
  stops_lem base start (returned failure p) never h = h
  stops_lem base start blocked never h = h
  stops_lem base start panicked never h = h

  -- For every system and every event: the call of `Submit` that the handlers' model makes in one go
  -- ends in a schedule of the state machine, from the call to its return. When the call queues the
  -- event, the schedule ends with that processor, the event as the last that was accepted and no
  -- further caller; when it returns without, the caller is gone and nothing was accepted; when it
  -- panics, so does the process; when it blocks, the caller stands at a stage at which it has no
  -- step. The counter of calls is one more each time.
  pub submit-Returns :
      (s : System D S T)
      → Returns (record s { submissions = s.submissions + 1 }) s (submit now prefer_done e s.proc)
  unfolding submit step
  submit-Returns s =
      let base : System D S T = record s { submissions = s.submissions + 1 } in
      stops_lem base s (submit now prefer_done e s.proc) (submit_stops s.proc) (
        earlier now prefer_done e base (submits e) s (calling now prefer_done e base entered s.proc)
          (submit now prefer_done e s.proc) refl
          (resume-Ends now prefer_done e base 4 entered s.proc))

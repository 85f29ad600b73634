-- ===== src/Batcher/Deadline.antt =====
-- How long an event waits in a batcher for the timer (pkg/processor/batcher.go).
use mathlib.Core.Path.{subst}
use extend_game_telemetry_co.Prelude.{
  ℕ, ◌+◌, ◌≤◌, ◌≡◌, refl, ◌≢◌, ◌++◌, Option, none, some, List, [], ◌∷◌, length, arith,
  length-append, All, All-append, Option-cases, inl, inr, is_empty, Bool-cases, ◌∙◌,
}
use extend_game_telemetry_co.Prelude.Int.{pos, pos_part, leb_ℤ}
use extend_game_telemetry_co.Batcher.{
  Batcher, Call, add_at, timer_fires, flush_now, call, run, add, flush, timeout_flush, flush_all,
  start_timer,
}
use extend_game_telemetry_co.Batcher.Sizes.{Optional, IsWellFormed, run-IsWellFormed}

module _ {T : Type 0} (arrival : T → ℕ) where
  -- The calls come in the order of time, and an event is added when it arrives.
  abbrev pub IsChronological : ℕ → List (Call T) → Type 0
  IsChronological t [] = Unit
  IsChronological t (add_at now e ∷ calls) =
      (now ≡ arrival e) × (t ≤ now) × IsChronological now calls
  IsChronological t (timer_fires ∷ calls) = IsChronological t calls
  IsChronological t (flush_now ∷ calls) = IsChronological t calls

  abbrev pub IsDue : ℕ → ℕ → List T → Type 0
  IsDue wait d = All (λ e. d ≤ arrival e + wait)

  -- At time `t` or later: the armed timer fires within the waiting time of every pending event.
  abbrev pub IsPunctual : ℕ → Batcher T → Type 0
  IsPunctual t b =
      Optional (λ d. (d ≤ t + pos_part b.max_wait) × IsDue (pos_part b.max_wait) d b.events) b.timer

  flush-IsPunctual : (t : ℕ) (b : Batcher T) → IsPunctual t b → IsPunctual t (flush b).0
  unfolding flush
  flush-IsPunctual t b p = elim (Bool-cases (is_empty b.events)) [
    | inl e ↦ rw e p
    | inr e ↦ rw e tt
  ]

  late :
      (wait t now d : ℕ) (e : T) (events : List T)
      → now ≡ arrival e
      → t ≤ now
      → (d ≤ t + wait) × IsDue wait d events
      → (d ≤ now + wait) × IsDue wait d (events ++ e ∷ [])
  late wait t now d e events a le h =
      (omega arith, All-append (λ x. d ≤ arrival x + wait) events (e ∷ []) h.1 (omega arith, tt))

  -- The timer after the event `e` joins `events` at `now`.
  timer_after : ℕ → ℕ → List T → Option ℕ → Option ℕ
  timer_after now wait [] timer = some (now + wait)
  timer_after now wait (x ∷ xs) timer = timer

  timer_after_lem :
      (wait t now : ℕ) (e : T) (events : List T) (timer : Option ℕ)
      → now ≡ arrival e
      → t ≤ now
      → Optional (λ d. (d ≤ t + wait) × IsDue wait d events) timer
      → Optional
          (λ d. (d ≤ now + wait) × IsDue wait d (events ++ e ∷ []))
          (timer_after now wait events timer)
  unfolding timer_after
  timer_after_lem wait t now e [] timer a le h = omega arith
  timer_after_lem wait t now e (x ∷ xs) none a le h = tt
  timer_after_lem wait t now e (x ∷ xs) (some d) a le h = late wait t now d e (x ∷ xs) a le h

  timer-start_timer :
      (now : ℕ) (e : T) (b : Batcher T)
      → start_timer now (record b { events = b.events ++ e ∷ [] }) ≡ record b {
        events = b.events ++ e ∷ [];
        timer = timer_after now (pos_part b.max_wait) b.events b.timer;
      }
  unfolding start_timer timer_after
  timer-start_timer now e b = ground (arith, length-append b.events (e ∷ []))

  add-IsPunctual :
      (t now : ℕ) (e : T) (b : Batcher T)
      → now ≡ arrival e
      → t ≤ now
      → IsPunctual t b
      → IsPunctual now (add now e b).0
  unfolding add
  add-IsPunctual t now e b a le p =
      let b' : Batcher T = record b {
        events = b.events ++ e ∷ [];
        timer = timer_after now (pos_part b.max_wait) b.events b.timer;
      } in
      let ready : IsPunctual now b' =
        timer_after_lem (pos_part b.max_wait) t now e b.events b.timer a le p in
      rw (timer-start_timer now e b)
        (elim (Bool-cases (leb_ℤ b'.max_size (pos (length b'.events)))) [
          | inl full ↦ rw full (flush-IsPunctual now b' ready)
          | inr room ↦ rw room ready
        ])

  abbrev last_time : ℕ → List (Call T) → ℕ
  last_time t [] = t
  last_time t (add_at now e ∷ calls) = last_time now calls
  last_time t (timer_fires ∷ calls) = last_time t calls
  last_time t (flush_now ∷ calls) = last_time t calls

  run-IsPunctual :
      (calls : List (Call T)) (t : ℕ) (b : Batcher T)
      → IsChronological t calls
      → IsPunctual t b
      → IsPunctual (last_time t calls) (run calls b).0
  unfolding run call timeout_flush flush_all
  run-IsPunctual [] t b c p = p
  run-IsPunctual (add_at now e ∷ calls) t b c p =
      run-IsPunctual calls now (add now e b).0 c.2 (add-IsPunctual t now e b c.0 c.1 p)
  run-IsPunctual (timer_fires ∷ calls) t b c p =
      run-IsPunctual calls t (flush b).0 c (flush-IsPunctual t b p)
  run-IsPunctual (flush_now ∷ calls) t b c p =
      run-IsPunctual calls t (flush b).0 c (flush-IsPunctual t b p)

  call-max_wait : (c : Call T) (b : Batcher T) → (call c b).0.max_wait ≡ b.max_wait
  unfolding call timeout_flush flush_all add flush start_timer
  call-max_wait (add_at now e) b = ground arith
  call-max_wait timer_fires b = ground arith
  call-max_wait flush_now b = ground arith

  run-max_wait : (calls : List (Call T)) (b : Batcher T) → (run calls b).0.max_wait ≡ b.max_wait
  unfolding run
  run-max_wait [] b = refl
  run-max_wait (c ∷ calls) b = run-max_wait calls (call c b).0 ∙ call-max_wait c b

  IsDue-within :
      (t : ℕ) (b : Batcher T)
      → IsWellFormed b
      → IsPunctual t b
      → b.events ≢ []
      → (d : ℕ) × (b.timer ≡ some d) × IsDue (pos_part b.max_wait) d b.events
  IsDue-within t b v p pending = elim (Option-cases b.timer) [
    | inl off ↦ absurd (v.armed pending off)
    | inr (d, on) ↦ (d, on, (subst (Optional _) on p).1)
  ]

  -- From a well-formed batcher with nothing pending, after any chronological history of calls that
  -- leaves events pending, the timer is armed, and fires no later than the configured wait after
  -- the arrival of each pending event.
  pub run-IsDue :
      (calls : List (Call T)) (t : ℕ) (b : Batcher T)
      → IsWellFormed b
      → b.events ≡ []
      → IsChronological t calls
      → (run calls b).0.events ≢ []
      → (d : ℕ) × ((run calls b).0.timer ≡ some d)
        × IsDue (pos_part b.max_wait) d (run calls b).0.events
  run-IsDue calls t b v idle c pending =
      subst
        (λ wait.
          (d : ℕ) × ((run calls b).0.timer ≡ some d)
          × IsDue (pos_part wait) d (run calls b).0.events)
        (run-max_wait calls b)
        (IsDue-within (last_time t calls) (run calls b).0 (run-IsWellFormed calls b v).0
          (run-IsPunctual calls t b c (rw (v.disarmed idle) tt)) pending)

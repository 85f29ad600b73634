-- ===== src/System/Reasoning.antt =====
-- What holds after the steps and the schedules of pkg/processor/processor.go's goroutines.
use mathlib.Core.Path.{subst}
use extend_game_telemetry_co.Prelude.{
  ℕ, ◌++◌, Bool, true, false, Option, none, some, List, [], ◌∷◌, get_elem?, set, if◌then◌else◌, ◌≡◌,
  refl, sym, length, Bool-cases, inl, inr,
}
use extend_game_telemetry_co.Storage.{Plugin}
use extend_game_telemetry_co.Processor.{write_to_plugin, count_processed, force_exit}
use extend_game_telemetry_co.System.{
  Worker, System, Action, Outcome, next, disabled, crash, and_then, run, step, with_some, on_hand,
  on_write, on_force, has, covers,
}

module _ {D S T : Type 0} where
  -- What holds of the state that an outcome leaves, if it leaves one.
  abbrev pub Ensures : (System D S T → Type 0) → Outcome D S T → Type 0
  Ensures P (next s) = P s
  Ensures P disabled = Unit
  Ensures P crash = Unit

  pub Ensures_next :
      (P : System D S T → Type 0) {o : Outcome D S T} {s : System D S T}
      → o ≡ next s
      → Ensures P o
      → P s
  Ensures_next P e h = subst (Ensures P) e h

  and_then-Ensures :
      (P : System D S T → Type 0) (o : Outcome D S T) (f : System D S T → Outcome D S T)
      → Ensures P o
      → ((s : System D S T) → P s → Ensures P (f s))
      → Ensures P (and_then o f)
  and_then-Ensures P (next s) f h k = k s h
  and_then-Ensures P disabled f h k = tt
  and_then-Ensures P crash f h k = tt

  -- A property that every step keeps holds after every schedule.
  pub run-Ensures :
      (P : System D S T → Type 0)
      → ((a : Action T) (s : System D S T) → P s → Ensures P (step a s))
      → (actions : List (Action T)) (s : System D S T) → P s
      → Ensures P (run actions s)
  unfolding run
  run-Ensures P keep [] s h = h
  run-Ensures P keep (a ∷ actions) s h =
      and_then-Ensures P (step a s) (run actions) (keep a s h)
        (λ s' h'. run-Ensures P keep actions s' h')

  pub with_some-Ensures :
      {A : Type 0} (P : System D S T → Type 0) (o : Option A) (f : A → Outcome D S T)
      → ((a : A) → o ≡ some a → Ensures P (f a))
      → Ensures P (with_some o f)
  with_some-Ensures P none f h = tt
  with_some-Ensures P (some a) f h = h a refl

  pub if-Ensures :
      (P : System D S T → Type 0) (b : Bool) (s : System D S T)
      → (b ≡ true → P s)
      → Ensures P (if b then next s else disabled)
  if-Ensures P true s h = h refl
  if-Ensures P false s h = tt

  -- What a plugin's goroutine keeps.
  pub on_hand-Ensures :
      (P : System D S T → Type 0) (i k : ℕ) (s : System D S T)
      → ((w : Worker T) (batch : List T) (plugin : Plugin S T)
          → get_elem? s.workers i ≡ some w
          → w.writing ≡ some batch
          → get_elem? s.proc.plugins k ≡ some plugin
          → has k w.written ≡ false
          → P (record s {
            workers = set s.workers i (record w { written = k ∷ w.written });
            proc = record (s.proc) {
              plugins = set s.proc.plugins k (write_to_plugin s.proc.ctx batch plugin);
            };
          }))
      → Ensures P (on_hand i k s)
  unfolding on_hand
  on_hand-Ensures P i k s keeps = with_some-Ensures P (get_elem? s.workers i) _ λ w at.
      with_some-Ensures P w.writing _ λ batch busy.
        with_some-Ensures P (get_elem? s.proc.plugins k) _ λ plugin there.
          elim (Bool-cases (has k w.written)) [
            | inl done ↦ rw done tt
            | inr new ↦ rw new (keeps w batch plugin at busy there new)
          ]

  -- What the end of `processBatch` keeps.
  pub on_write-Ensures :
      (P : System D S T → Type 0) (i : ℕ) (s : System D S T)
      → ((w : Worker T) (batch : List T)
          → get_elem? s.workers i ≡ some w
          → w.writing ≡ some batch
          → covers (length s.proc.plugins) w.written ≡ true
          → P (record s {
            workers = set s.workers i (record w { writing = none; written = [] });
            proc = count_processed batch s.proc;
            delivered = s.delivered ++ batch;
          }))
      → Ensures P (on_write i s)
  unfolding on_write
  on_write-Ensures P i s keeps = with_some-Ensures P (get_elem? s.workers i) _ λ w at.
      with_some-Ensures P w.writing _ λ batch busy.
        if-Ensures P (covers (length s.proc.plugins) w.written) _
          λ all_written. keeps w batch at busy all_written

  pub on_force-Ensures :
      (P : System D S T → Type 0) (s : System D S T)
      → P (record s { proc = (force_exit s.proc).1 })
      → Ensures P (on_force s)
  unfolding on_force
  on_force-Ensures P s h = elim (Bool-cases s.proc.input_chan.closed) [
    | inl shut ↦
        let forced : on_force s ≡ next (record s { proc = (force_exit s.proc).1 }) = rw shut refl in
        subst (Ensures P) (sym forced) h
    | inr open_ ↦
        let idle : on_force s ≡ disabled = rw open_ refl in subst (Ensures P) (sym idle) tt
  ]

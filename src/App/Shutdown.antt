-- ===== src/App/Shutdown.antt =====
-- What the application's shutdown leaves in a storage backend (internal/app/app.go, `Shutdown`, with
-- ShutdownProcessors, CloseDeduplicators and CloseStoragePlugins of internal/bootstrap).
use mathlib.Core.Path.{subst}
use extend_game_telemetry_co.Prelude.{
  ℕ, ◌<◌, ◌++◌, ◌≡◌, ◌∙◌, refl, sym, ap, Bool, true, false, ◌&&◌, Option, some, List, [], ◌∷◌,
  get_elem?, get_elem?-map, All, count, yields, map, arith, Bool-cases, Option-cases, inl, inr,
}
use extend_game_telemetry_co.Prelude.Int.{pos_part}
use extend_game_telemetry_co.Storage.{StoragePlugin, Plugin}
use extend_game_telemetry_co.Processor
use extend_game_telemetry_co.Processor.{
  Processor, DedupObject, Progress, moved, queued, returned, blocked, panicked, advance,
  close_input,
}
use extend_game_telemetry_co.Processor.Fanout.{Journals, IsSink}
use extend_game_telemetry_co.System.{
  Worker, System, Action, closes, next, disabled, on_close, step, run, boot, and_then,
}
use extend_game_telemetry_co.System.Reasoning.{run-Ensures, Ensures_next}
use extend_game_telemetry_co.System.Launch.{boot-IsFresh}
use extend_game_telemetry_co.System.Orderly.{IsOrderly, step-IsOrderly}
use extend_game_telemetry_co.System.Exit.{IsDone, IsFresh-IsOrderly}
use extend_game_telemetry_co.System.Drain.{closed_drains}
use extend_game_telemetry_co.System.Backends.{exit_stores}
use extend_game_telemetry_co.Bootstrap.StoragePlugins.{close_plugin}
use extend_game_telemetry_co.App.{
  Plan, all_done, wait_or_force, wind_down, close_deduplicator, close_stores, shut_down,
}
use extend_game_telemetry_co.System.Settled.{
  and_then-next, run-append, AllDone, Settled, step-Settled,
}

module _ {T : Type 0} where
  all_done_sound : (ws : List (Worker T)) → all_done ws ≡ true → All IsDone ws
  all_done_sound [] h = tt
  all_done_sound (w ∷ ws) h = (ground arith, all_done_sound ws (ground arith))

  all_done_complete : (ws : List (Worker T)) → All IsDone ws → all_done ws ≡ true
  all_done_complete [] h = refl
  all_done_complete (w ∷ ws) h = rw (h.0.0, h.0.1) (all_done_complete ws h.1)

module _ {D S T : Type 0} where
  next-injective : {s t : System D S T} → next s ≡ next t → s ≡ t
  next-injective h = cc

  disabled-ne-next : {t : System D S T} → disabled ≡ next t → ⊥
  disabled-ne-next h = ground arith

  waited :
      (timed_out : Bool) (s t : System D S T)
      → timed_out ≡ false
      → wait_or_force timed_out s ≡ next t
      → (s ≡ t) × AllDone s
  waited true s t calm h = ground arith
  waited false s t calm h = elim (Bool-cases (all_done s.workers)) [
    | inl done ↦
        let e : next s ≡ next t = sym (rw done refl) ∙ h in
        (next-injective e, all_done_sound s.workers done)
    | inr busy ↦ let e : disabled ≡ next t = sym (rw busy refl) ∙ h in absurd (disabled-ne-next e)
  ]

  -- A shutdown that did not time out is a schedule of the processor's goroutines, at whose end
  -- every worker has exited.
  pub wind_down-AllDone :
      {n : ℕ} (plan : Plan T) (s : System D S T) {t : System D S T}
      → IsOrderly n s
      → plan.timed_out ≡ false
      → wind_down plan s ≡ next t
      → (schedule : List (Action T)) × (run schedule s ≡ next t) × AllDone t
  unfolding wind_down run step
  wind_down-AllDone {n} plan s {t} h calm went =
      let (s₁, e₁, r₁) = and_then-next (run plan.before s) _ went in
      let (s₂, e₂, r₂) = and_then-next (on_close s₁) _ r₁ in
      let (s₃, e₃, r₃) = and_then-next (run plan.during s₂) _ r₂ in
      let (s₄, e₄, r₄) = and_then-next (wait_or_force plan.timed_out s₃) _ r₃ in
      let (same, done) = waited plan.timed_out s₃ s₄ calm e₄ in
      let closing = closes ∷ plan.during in
      let close = subst (λ o. and_then o (run plan.during) ≡ next s₃) (sym e₂) e₃ in
      let upto = run-append plan.before closing s e₁ close in
      let tail = subst (λ x. run plan.after x ≡ next t) (sym same) r₄ in
      let orderly =
        Ensures_next (IsOrderly n) upto
          (run-Ensures (IsOrderly n) step-IsOrderly (plan.before ++ closing) s h) in
      let settled =
        Ensures_next (Settled n) tail
          (run-Ensures (Settled n) (step-Settled n) plan.after s₃ (orderly, done)) in
      (
        (plan.before ++ closing) ++ plan.after,
        run-append (plan.before ++ closing) plan.after s upto tail,
        settled.1,
      )

  closed_by :
      (p : Processor D S T) {p' : Processor D S T}
      → close_deduplicator p ≡ some p'
      → (p'.plugins ≡ p.plugins) × (p'.ctx ≡ p.ctx)
  unfolding close_deduplicator
  closed_by p h = ground arith

  pub close_stores_lem :
      (s : System D S T) {t : System D S T}
      → close_stores s ≡ next t
      → (t.proc.plugins ≡ map close_plugin s.proc.plugins)
        × (t.proc.ctx ≡ s.proc.ctx)
        × (t.accepted ≡ s.accepted)
  unfolding close_stores
  close_stores_lem s h = elim (Option-cases (close_deduplicator s.proc)) [
    | inl e ↦ ground arith
    | inr (p, e) ↦ let same = closed_by s.proc e in ground arith
  ]

  -- From every state with an open channel a shutdown can finish in time, by the workers' own steps
  -- alone, and then every worker has exited.
  pub wind_down_finishes :
      (s : System D S T)
      → s.proc.input_chan.closed ≡ false
      → (plan : Plan T) × (s' : System D S T) × (plan.timed_out ≡ false)
        × (wind_down plan s ≡ next s')
        × All IsDone s'.workers
  unfolding wind_down on_close close_input run
  wind_down_finishes s live =
      let shut = record s {
        proc = record (s.proc) { input_chan = record (s.proc.input_chan) { closed = true } };
      } in
      let (actions, own, s', ran, done) = closed_drains shut refl in
      (
        record { before = []; during = actions; timed_out = false; after = [] },
        s',
        refl,
        rw (live, ran, and_then, wait_or_force, all_done_complete s'.workers done) refl,
        done,
      )

module _ {D S T X : Type 0} {IsGood : S → Type 0} {log : S → List X} {image : T → Option X}
    {passes : T → Bool} {m : StoragePlugin S T} (j : Journals IsGood log image passes m) (i : ℕ)
    (config : Processor.Config) (plugins : List (Plugin S T))
    (deduplicator : Option (DedupObject D T)) where
  -- A processor that was started with at least one worker and runs any schedule of its goroutines,
  -- and is then shut down with the deduplicator and the plugins, its workers being done before the
  -- timeout and its context never cancelled: a backend that stores an entry of each event that it
  -- is handed and can represent, started empty at any place among the plugins, is closed, and was
  -- closed with the entry of every accepted event that passes its filter in it, as often as it was
  -- accepted, and nothing else.
  pub shut_down_stores :
      (f : X → Bool) (actions : List (Action T)) (plan : Plan T) {s₀ s s' : System D S T}
      {plugin : Plugin S T}
      → boot config plugins deduplicator ≡ some s₀
      → 0 < pos_part config.workers
      → run actions s₀ ≡ next s
      → shut_down plan s ≡ next s'
      → plan.timed_out ≡ false
      → s'.proc.ctx.cancelled ≡ false
      → get_elem? plugins i ≡ some plugin
      → IsSink j [] plugin
      → (stored : Plugin S T) × (get_elem? s'.proc.plugins i ≡ some (close_plugin stored))
        × (count f (log stored.state) ≡ count (λ e. passes e && yields f image e) s'.accepted)
  unfolding shut_down
  shut_down_stores f actions plan {s₀} {s} up some_worker went ended calm live at unused =
      let n = pos_part config.workers in
      let (t, wound, closed) = and_then-next (wind_down plan s) close_stores ended in
      let (shut, ctx, accepted) = close_stores_lem t closed in
      let orderly = Ensures_next (IsOrderly n) went (
        run-Ensures (IsOrderly n) step-IsOrderly actions s₀
          (IsFresh-IsOrderly s₀ (boot-IsFresh config plugins deduplicator up))) in
      let (schedule, ran, done) = wind_down-AllDone plan s orderly calm wound in
      let (stored, place, holds) =
        exit_stores j i config plugins deduplicator (actions ++ schedule) up
          (run-append actions schedule s₀ went ran) at unused f some_worker
          (ap (λ x. x.cancelled) (sym ctx) ∙ live) done in
      (
        stored,
        ap (λ ps. get_elem? ps i) shut ∙ get_elem?-map close_plugin t.proc.plugins i place,
        holds ∙ ap (count (λ e. passes e && yields f image e)) (sym accepted),
      )

-- ===== src/System/Drain.antt =====
-- The workers finish once the channel is closed (pkg/processor/processor.go, `worker`): none of them
-- is stuck, and their steps run out.
use extend_game_telemetry_co.Prelude.{
  sym, ◌≤◌, ◌==◌, ==_iff, length-set, ℕ, zero, suc, ◌+◌, ◌<◌, ◌++◌, ◌≡◌, ◌∙◌, ◌⊎◌, refl, ap, Bool,
  true, false, if◌then◌else◌, Option, none, some, List, [], ◌∷◌, arith, get_elem?, length, set, All,
  total, total-set, Bool-cases, Option-cases, List-cases, inl, inr,
}
use extend_game_telemetry_co.Runtime.{Chan}
use extend_game_telemetry_co.Batcher
use extend_game_telemetry_co.Batcher.{Batcher}
use extend_game_telemetry_co.Processor.{count_processed, write_to_plugin}
use mathlib.Core.Path.{subst}
use extend_game_telemetry_co.System.{
  has, covers, hands, on_hand, is_none, Worker, System, Action, submits, proceeds, fires, closes,
  forces, receives, stores, writes, stops, next, step, on_worker, on_receive, on_write, with_some,
  store, stop, receive, run, and_then,
}
use extend_game_telemetry_co.System.Exit.{IsDone}

-- How many of the first `n` places are not in a list.
abbrev pub missing : ℕ → List ℕ → ℕ
missing zero js = 0
missing (suc n) js = (if has n js then 0 else 1) + missing n js

missing_bound : (n : ℕ) (js : List ℕ) → missing n js ≤ n
missing_bound zero js = omega arith
missing_bound (suc n) js = ground (arith, missing_bound n js)

missing_mono : (n k : ℕ) (js : List ℕ) → missing n (k ∷ js) ≤ missing n js
missing_mono zero k js = omega arith
missing_mono (suc n) k js = ground (arith, missing_mono n k js)

missing_less :
    (n k : ℕ) (js : List ℕ) → k < n → has k js ≡ false → missing n (k ∷ js) < missing n js
missing_less zero k js less new = absurd (omega arith)
missing_less (suc n) k js less new = elim (Bool-cases (k == n)) [
  | inl same ↦
      let it_is = (==_iff k n).0 same in
      let fresh : has n js ≡ false = ap (λ x. has x js) (sym it_is) ∙ new in
      ground (arith, missing_mono n k js)
  | inr other ↦ ground (arith, ==_iff k n, missing_less n k js)
]

find_missing :
    (n : ℕ) (js : List ℕ) → (covers n js ≡ true) ⊎ ((k : ℕ) × (k < n) × (has k js ≡ false))
find_missing zero js = inl refl
find_missing (suc n) js = elim (Bool-cases (has n js)) [
  | inr new ↦ inr (n, omega arith, new)
  | inl here ↦ elim (find_missing n js) [
    | inl all ↦ inl (ground arith)
    | inr (k, less, new) ↦ inr (k, omega arith, new)
  ]
]

get_elem?_below :
    {A : Type 0} (xs : List A) (k : ℕ) → k < length xs → (a : A) × (get_elem? xs k ≡ some a)
get_elem?_below [] k less = absurd (omega arith)
get_elem?_below (x ∷ xs) zero less = (x, refl)
get_elem?_below (x ∷ xs) (suc k) less = get_elem?_below xs k (omega arith)

-- What a worker still has to do: of its running batch, whatever is running, as many steps as there
-- are plugins that have not been handed it, and one more.
abbrev pub flush_work : {T : Type 0} → ℕ → Option (List T) → List ℕ → ℕ
flush_work n none js = 0
flush_work n (some batch) js = 1 + missing n js

abbrev pub work : {T : Type 0} → ℕ → Worker T → ℕ
work n w =
    (if is_none w.holding then 0 else n + 3)
    + flush_work n w.writing w.written
    + (if w.running then n + 2 else 0)

-- What all workers still have to do, with as many plugins and four steps for each queued event.
abbrev pub remaining : {D S T : Type 0} → ℕ → System D S T → ℕ
remaining n s = total (λ _. n + 4) s.proc.input_chan.buffer + total (work n) s.workers

flush_work_new : {T : Type 0} (n : ℕ) (batch : Option (List T)) → flush_work n batch [] ≤ n + 1
flush_work_new n none = omega arith
flush_work_new n (some batch) = omega (arith, missing_bound n [])

module _ {T : Type 0} where
  receive_works :
      (n : ℕ) (c : Chan T) (w : Worker T) {w' : Worker T} {c' : Chan T}
      → receive c w ≡ some (w', c')
      → total (λ _. n + 4) c'.buffer + work n w' < total (λ _. n + 4) c.buffer + work n w
  unfolding receive
  receive_works n c w h = ground arith

  receive_closed :
      (c : Chan T) (w : Worker T) {w' : Worker T} {c' : Chan T}
      → receive c w ≡ some (w', c')
      → c'.closed ≡ c.closed
  unfolding receive
  receive_closed c w h = ground arith

  store_works :
      (n now : ℕ) (w : Worker T) {w' : Worker T} → store now w ≡ some w' → work n w' < work n w
  unfolding store
  store_works n now w h = elim (Option-cases w.holding) [
    | inl free ↦ ground arith
    | inr (e, held) ↦ ground (arith, flush_work_new n (Batcher.add now e w.batcher).1)
  ]

  stop_works :
      (n : ℕ) (cancelled : Bool) (c : Chan T) (w : Worker T) {w' : Worker T}
      → stop cancelled c w ≡ some w'
      → work n w' < work n w
  unfolding stop
  stop_works n cancelled c w h = ground (arith, flush_work_new n (Batcher.flush_all w.batcher).1)

  -- What a worker can do next on a closed channel.
  data Duty (cancelled : Bool) (c : Chan T) (w : Worker T) : Type 0 where
    to_write : (batch : List T) → w.writing ≡ some batch → Duty cancelled c w
    to_store : (w' : Worker T) → store 0 w ≡ some w' → Duty cancelled c w
    to_receive : (w' : Worker T) (c' : Chan T) → receive c w ≡ some (w', c') → Duty cancelled c w
    to_stop : (w' : Worker T) → stop cancelled c w ≡ some w' → Duty cancelled c w

  store_enabled :
      (w : Worker T) (e : T)
      → w.writing ≡ none
      → w.holding ≡ some e
      → (w' : Worker T) × (store 0 w ≡ some w')
  unfolding store
  store_enabled w e idle held = (
    record w {
      batcher = (Batcher.add 0 e w.batcher).0;
      holding = none;
      writing = (Batcher.add 0 e w.batcher).1;
      written = [];
    },
    ground arith,
  )

  receive_enabled :
      (c : Chan T) (w : Worker T) (e : T) (rest : List T)
      → w.running ≡ true
      → w.holding ≡ none
      → c.buffer ≡ e ∷ rest
      → receive c w ≡ some (record w { holding = some e }, record c { buffer = rest })
  unfolding receive
  receive_enabled c w e rest on free more = ground arith

  stop_enabled :
      (cancelled : Bool) (c : Chan T) (w : Worker T)
      → w.running ≡ true
      → w.holding ≡ none
      → w.writing ≡ none
      → c.closed ≡ true
      → c.buffer ≡ []
      → (w' : Worker T) × (stop cancelled c w ≡ some w')
  unfolding stop
  stop_enabled cancelled c w on free idle shut dry = (
    record w {
      batcher = (Batcher.flush_all w.batcher).0;
      writing = (Batcher.flush_all w.batcher).1;
      written = [];
      running = false;
    },
    ground arith,
  )

  duty :
      (cancelled : Bool) (c : Chan T) (w : Worker T)
      → c.closed ≡ true
      → IsDone w ⊎ Duty cancelled c w
  duty cancelled c w shut = elim (Option-cases w.writing) [
    | inr (batch, busy) ↦ inr (to_write batch busy)
    | inl idle ↦ elim (Option-cases w.holding) [
      | inr (e, held) ↦ let able = store_enabled w e idle held in inr (to_store able.0 able.1)
      | inl free ↦ elim (Bool-cases w.running) [
        | inr off ↦ inl (off, idle)
        | inl on ↦ elim (List-cases c.buffer) [
          | inl dry ↦
              let able = stop_enabled cancelled c w on free idle shut dry in
              inr (to_stop able.0 able.1)
          | inr (e, rest, more) ↦ inr (to_receive _ _ (receive_enabled c w e rest on free more))
        ]
      ]
    ]
  ]

module _ {T : Type 0} where
  find-Duty :
      (cancelled : Bool) (c : Chan T) (ws : List (Worker T))
      → c.closed ≡ true
      → All IsDone ws ⊎ ((i : ℕ) × (w : Worker T) × (get_elem? ws i ≡ some w) × Duty cancelled c w)
  find-Duty cancelled c [] shut = inl tt
  find-Duty cancelled c (w ∷ ws) shut = elim (duty cancelled c w shut) [
    | inr todo ↦ inr (0, w, refl, todo)
    | inl done ↦ elim (find-Duty cancelled c ws shut) [
      | inl rest ↦ inl (done, rest)
      | inr (i, v, at, todo) ↦ inr (suc i, v, at, todo)
    ]
  ]

-- An action of a worker itself: no caller's, timer's or `Shutdown`'s.
abbrev pub IsOwn : {T : Type 0} → Action T → Type 0
IsOwn (submits e) = ⊥
IsOwn (proceeds i now prefer_done) = ⊥
IsOwn (receives i) = Unit
IsOwn (stores i now) = Unit
IsOwn (fires i) = ⊥
IsOwn (hands i k) = Unit
IsOwn (writes i) = Unit
IsOwn (stops i) = Unit
IsOwn closes = ⊥
IsOwn forces = ⊥

module _ {D S T : Type 0} where
  -- An action of a worker, enabled, that leaves less to do, and the channel closed.
  abbrev pub Advances : System D S T → Type 0
  Advances s =
      (a : Action T) × IsOwn a
      × (s' : System D S T) × (step a s ≡ next s')
      × (remaining (length s.proc.plugins) s' < remaining (length s.proc.plugins) s)
      × (length s'.proc.plugins ≡ length s.proc.plugins)
      × (s'.proc.input_chan.closed ≡ true)

  advance_at :
      (s : System D S T) (i : ℕ) (w : Worker T)
      → s.proc.input_chan.closed ≡ true
      → get_elem? s.workers i ≡ some w
      → Duty s.proc.ctx.cancelled s.proc.input_chan w
      → Advances s
  unfolding step on_worker on_receive on_write on_hand count_processed
  advance_at s i w shut at (to_write batch busy) =
      let n = length s.proc.plugins in
      elim (find_missing n w.written) [
        | inl all_written ↦
            let out : Worker T = record w { writing = none; written = [] } in
            (
              writes i,
              tt,
              record s {
                workers = set s.workers i out;
                proc = count_processed batch s.proc;
                delivered = s.delivered ++ batch;
              },
              rw (at, with_some) (rw (busy, with_some) (rw all_written refl)),
              omega (
                arith,
                ap (λ o. flush_work n o w.written) busy,
                total-set (work n) s.workers i w out at,
              ),
              refl,
              shut,
            )
        | inr (k, less, new) ↦
            let (plugin, there) = get_elem?_below s.proc.plugins k less in
            let handed : Worker T = record w { written = k ∷ w.written } in
            let plugins = set s.proc.plugins k (write_to_plugin s.proc.ctx batch plugin) in
            (
              hands i k,
              tt,
              record s {
                workers = set s.workers i handed;
                proc = record (s.proc) { plugins = plugins };
              },
              rw (at, with_some) (rw (busy, with_some) (rw (there, with_some) (rw new refl))),
              omega (
                arith,
                ap (λ o. flush_work n o w.written) busy,
                ap (λ o. flush_work n o (k ∷ w.written)) busy,
                missing_less n k w.written less new,
                total-set (work n) s.workers i w handed at,
              ),
              length-set s.proc.plugins k (write_to_plugin s.proc.ctx batch plugin),
              shut,
            )
      ]
  advance_at s i w shut at (to_store w' went) =
      let n = length s.proc.plugins in
      (
        stores i 0,
        tt,
        record s { workers = set s.workers i w' },
        rw (at, with_some) (rw (went, with_some)),
        omega (arith, total-set (work n) s.workers i w w' at, store_works n 0 w went),
        refl,
        shut,
      )
  advance_at s i w shut at (to_receive w' c' went) =
      let n = length s.proc.plugins in
      (
        receives i,
        tt,
        record s { workers = set s.workers i w'; proc = record (s.proc) { input_chan = c' } },
        rw (at, with_some) (rw (went, with_some)),
        omega (
          arith,
          total-set (work n) s.workers i w w' at,
          receive_works n s.proc.input_chan w went,
        ),
        refl,
        receive_closed s.proc.input_chan w went ∙ shut,
      )
  advance_at s i w shut at (to_stop w' went) =
      let n = length s.proc.plugins in
      (
        stops i,
        tt,
        record s { workers = set s.workers i w' },
        rw (at, with_some) (rw (went, with_some)),
        omega (
          arith,
          total-set (work n) s.workers i w w' at,
          stop_works n s.proc.ctx.cancelled s.proc.input_chan w went,
        ),
        refl,
        shut,
      )

  -- Once the channel is closed, either every worker has exited, or a worker can take a step, and
  -- each such step leaves less to do: the workers neither block each other nor run on for ever.
  pub closed-Advances :
      (s : System D S T) → s.proc.input_chan.closed ≡ true → All IsDone s.workers ⊎ Advances s
  closed-Advances s shut = elim (find-Duty s.proc.ctx.cancelled s.proc.input_chan s.workers shut) [
    | inl done ↦ inl done
    | inr (i, w, at, todo) ↦ inr (advance_at s i w shut at todo)
  ]

  drain_within :
      (fuel n : ℕ) (s : System D S T)
      → remaining n s < fuel
      → n ≡ length s.proc.plugins
      → s.proc.input_chan.closed ≡ true
      → (actions : List (Action T)) × All IsOwn actions
        × (s' : System D S T) × (run actions s ≡ next s')
        × All IsDone s'.workers
  unfolding run
  drain_within zero n s h same shut = absurd (omega arith)
  drain_within (suc fuel) n s h same shut = elim (closed-Advances s shut) [
    | inl done ↦ ([], tt, s, refl, done)
    | inr (a, own, t, went, less, as_many, still) ↦
        let less_of : remaining n t < remaining n s =
          subst (λ k. remaining k t < remaining k s) (sym same) less in
        let (actions, all_own, s', ran, done) =
          drain_within fuel n t (omega arith) (same ∙ sym as_many) still in
        (a ∷ actions, (own, all_own), s', rw (went, and_then) ran, done)
  ]

  -- From every state with a closed channel there is a schedule of the workers' own steps alone, with
  -- none of a caller, a timer or the goroutine of `Shutdown`, after which every worker has exited.
  pub closed_drains :
      (s : System D S T)
      → s.proc.input_chan.closed ≡ true
      → (actions : List (Action T)) × All IsOwn actions
        × (s' : System D S T) × (run actions s ≡ next s')
        × All IsDone s'.workers
  closed_drains s shut =
      let n = length s.proc.plugins in
      drain_within (suc (remaining n s)) n s (omega arith) refl shut

-- ===== src/App/Deduplicated.antt =====
-- Deduplication in the running service: the processors that internal/bootstrap/processor.go starts, with
-- the deduplicator that internal/bootstrap/deduplicator.go chooses.
use extend_game_telemetry_co.Prelude.{
  ◌++◌, ℕ, ◌≤◌, ◌≡◌, ◌∙◌, refl, ap, Bool, true, false, some, List, Text, codes, length, arith,
}
use extend_game_telemetry_co.Prelude.Int.{pos_part}
use extend_game_telemetry_co.Storage.{Plugin, Deduplicatable}
use extend_game_telemetry_co.Dedup.Memory.{lookup, new_memory_deduplicator}
use extend_game_telemetry_co.Dedup.Redis.{RedisClient, RedisConfig, new_redis_deduplicator}
use extend_game_telemetry_co.Dedup.Redis.Marks.{IsStore}
use extend_game_telemetry_co.Processor.{Processor}
use extend_game_telemetry_co.Processor.Once.{firsts, submit_each, submit_each-firsts}
use extend_game_telemetry_co.System.{System}
use extend_game_telemetry_co.System.Launch.{boot-IsFresh, boot-shared}
use extend_game_telemetry_co.Settings
use extend_game_telemetry_co.Settings.{processor_config}
use extend_game_telemetry_co.Bootstrap.Deduplicators.{
  AnyDeduplicator, memory, redis, chosen, build_deduplicator, any_deduplicator,
}
use extend_game_telemetry_co.Bootstrap.Deduplicators.Choice.{
  print_of, any_deduplicator-Recalls, chosen-memory, IsUp, redis_methods-Recalls,
}
use extend_game_telemetry_co.Bootstrap.Backends.{Remotes, Backend}
use extend_game_telemetry_co.App.{start_processor}

-- The server that a configuration names.
abbrev pub server_of : Settings.Config → RedisConfig
server_of c =
    let r = c.deduplication.redis in record { addr = r.addr; password = r.password; db = r.db }

module _ {C : Type 0} {R : Remotes} (commands : RedisClient C) (fingerprint : Text → Text)
    (connect : RedisConfig → C) where
  -- A configuration enables deduplication of the kind "memory". On a processor that was just
  -- started with it, calls of `Submit` that follow one another, no more of them than the channel
  -- has places and with no event received and no cleanup in between, all return without an error,
  -- and the channel then holds the first event of each fingerprint, in order, and nothing else.
  pub memory_once :
      {T : Type 0} (keyed : Deduplicatable T) (c : Settings.Config)
      (plugins : List (Plugin (Backend R) T)) (prefer_done : Bool) (es : List (ℕ × T))
      {s : System (AnyDeduplicator C) (Backend R) T}
      → start_processor commands fingerprint connect keyed c plugins ≡ some s
      → c.deduplication.enabled ≡ true
      → c.deduplication.kind ≡ codes "memory"
      → length es ≤ pos_part c.processor.channel_buffer
      → (p : Processor (AnyDeduplicator C) (Backend R) T) × (submit_each prefer_done es s.proc
          ≡ some p)
        × (p.input_chan.buffer ≡ firsts (print_of commands fingerprint keyed) (λ _. false) es)
  unfolding start_processor processor_config build_deduplicator lookup new_memory_deduplicator
  memory_once keyed c plugins prefer_done es {s} up on kind few =
      let built = build_deduplicator commands fingerprint keyed connect c in
      let fresh = boot-IsFresh (processor_config c) plugins (some built) up in
      let (there, room) = boot-shared (processor_config c) plugins (some built) up in
      let state = memory (new_memory_deduplicator c.deduplication.ttl) in
      let holds =
        there
        ∙ ap
            (λ d.
              some (record { methods = any_deduplicator commands fingerprint keyed; state = d }))
            (chosen-memory commands fingerprint keyed connect c.deduplication on kind) in
      let (p, ran, held) =
        submit_each-firsts (any_deduplicator-Recalls commands fingerprint keyed) prefer_done es
          s.proc state (λ _. false) holds tt (λ k. refl) fresh.is_open
          (omega (arith, few, room, ap length fresh.empty)) in
      (p, ran, held ∙ rw fresh.empty refl)

  -- A configuration enables deduplication of the kind "redis", its server is up and no key expires.
  -- On a processor that was just started with it, calls of `Submit` that follow one another, no
  -- more of them than the channel has places and with no event received in between, all return
  -- without an error, and the channel then holds, in order and nothing else, the first event of each
  -- fingerprint whose key the server did not have at the start.
  pub redis_once :
      {T : Type 0} {holds : Text → C → Bool} (store : IsStore commands holds) (up : IsUp commands)
      (keyed : Deduplicatable T) (c : Settings.Config) (plugins : List (Plugin (Backend R) T))
      (prefer_done : Bool) (es : List (ℕ × T)) {s : System (AnyDeduplicator C) (Backend R) T}
      → start_processor commands fingerprint connect keyed c plugins ≡ some s
      → c.deduplication.enabled ≡ true
      → c.deduplication.kind ≡ codes "redis"
      → length es ≤ pos_part c.processor.channel_buffer
      → (p : Processor (AnyDeduplicator C) (Backend R) T) × (submit_each prefer_done es s.proc
          ≡ some p)
        × (p.input_chan.buffer
            ≡ firsts
                (print_of commands fingerprint keyed)
                (λ k. holds (codes "telemetry:dedup:" ++ k) (connect (server_of c)))
                es)
  unfolding start_processor processor_config build_deduplicator new_redis_deduplicator
  redis_once {holds = holds} store up keyed c plugins prefer_done es {s} started on kind few =
      let built = build_deduplicator commands fingerprint keyed connect c in
      let fresh = boot-IsFresh (processor_config c) plugins (some built) started in
      let (there, room) = boot-shared (processor_config c) plugins (some built) started in
      let state = redis (new_redis_deduplicator connect (server_of c) c.deduplication.ttl) in
      let chosen_redis : chosen commands fingerprint keyed connect c.deduplication ≡ state =
        rw (on, kind) refl in
      let holds_it =
        there
        ∙ ap
            (λ d.
              some (record { methods = any_deduplicator commands fingerprint keyed; state = d }))
            chosen_redis in
      let (p, ran, held) =
        submit_each-firsts (redis_methods-Recalls commands fingerprint keyed store up) prefer_done
          es s.proc state (λ k. holds (codes "telemetry:dedup:" ++ k) (connect (server_of c)))
          holds_it tt (λ k. refl) fresh.is_open (omega (arith, few, room, ap length fresh.empty)) in
      (p, ran, held ∙ rw fresh.empty refl)

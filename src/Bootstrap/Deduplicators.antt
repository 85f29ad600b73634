-- ===== src/Bootstrap/Deduplicators.antt =====
-- internal/bootstrap/deduplicator.go. A deduplicator of the interface type is one of the three
-- implementations, with its state; a call of a method goes to that implementation's.
pub mod Choice
use extend_game_telemetry_co.Prelude.{
  ℕ, Bool, true, false, Option, none, some, Text, codes, text_eq, not, if◌then◌else◌,
}
use extend_game_telemetry_co.Prelude.Result.{Result, ok, err}
use extend_game_telemetry_co.Runtime.{Context}
use extend_game_telemetry_co.Storage.{Error, Deduplicatable}
use extend_game_telemetry_co.Dedup.{Deduplicator}
use extend_game_telemetry_co.Dedup
use extend_game_telemetry_co.Dedup.Memory.{
  MemoryDeduplicator, new_memory_deduplicator, memory_deduplicator,
}
use extend_game_telemetry_co.Dedup.Redis.{
  RedisClient, RedisConfig, RedisDeduplicator, new_redis_deduplicator, redis_deduplicator,
}
use extend_game_telemetry_co.Processor.{DedupObject}
use extend_game_telemetry_co.Settings

pub data AnyDeduplicator (C : Type 0) : Type 0 where
  noop : AnyDeduplicator C
  memory : MemoryDeduplicator → AnyDeduplicator C
  redis : RedisDeduplicator C → AnyDeduplicator C

abbrev pub with_kind : {A B X : Type 0} → (A → B) → X × A → X × B
with_kind f (x, a) = (x, f a)

abbrev close_with : {A B : Type 0} → (A → B) → Option (Error × A) → Option (Error × B)
close_with f none = none
close_with f (some r) = some (with_kind f r)

module _ {C T : Type 0} (commands : RedisClient C) (fingerprint : Text → Text)
    (keyed : Deduplicatable T) where
  abbrev nothing : Deduplicator (Unit {0}) T
  nothing = Dedup.noop_deduplicator

  unfoldable pub is_duplicate : Context → T → AnyDeduplicator C → Result Text Bool
  is_duplicate ctx e noop = nothing.is_duplicate ctx e tt
  is_duplicate ctx e (memory d) = (memory_deduplicator fingerprint keyed).is_duplicate ctx e d
  is_duplicate ctx e (redis d) =
      (redis_deduplicator commands fingerprint keyed).is_duplicate ctx e d

  unfoldable pub mark : Context → ℕ → T → AnyDeduplicator C → Error × AnyDeduplicator C
  mark ctx now e noop = with_kind (λ _. noop) (nothing.mark ctx now e tt)
  mark ctx now e (memory d) =
      with_kind memory ((memory_deduplicator fingerprint keyed).mark ctx now e d)
  mark ctx now e (redis d) =
      with_kind redis ((redis_deduplicator commands fingerprint keyed).mark ctx now e d)

  unfoldable pub close : AnyDeduplicator C → Option (Error × AnyDeduplicator C)
  close noop = close_with (λ _. noop) (nothing.close tt)
  close (memory d) = close_with memory ((memory_deduplicator fingerprint keyed).close d)
  close (redis d) = close_with redis ((redis_deduplicator commands fingerprint keyed).close d)

  unfoldable pub any_deduplicator : Deduplicator (AnyDeduplicator C) T
  any_deduplicator = record { is_duplicate = is_duplicate; mark = mark; close = close }

  -- `buildDeduplicator`; `connect` is `redis.NewClient`.
  abbrev pub chosen : (RedisConfig → C) → Settings.DeduplicationConfig → AnyDeduplicator C
  chosen connect c =
      if not c.enabled
      then noop
      else if text_eq c.kind (codes "memory")
      then memory (new_memory_deduplicator c.ttl)
      else if text_eq c.kind (codes "redis")
      then redis (
          new_redis_deduplicator connect
            (record { addr = c.redis.addr; password = c.redis.password; db = c.redis.db }) c.ttl)
      else noop

  unfoldable pub build_deduplicator :
      (RedisConfig → C) → Settings.Config → DedupObject (AnyDeduplicator C) T
  build_deduplicator connect c = record {
    methods = any_deduplicator;
    state = chosen connect c.deduplication;
  }

-- ===== src/Dedup/Redis.antt =====
-- pkg/dedup/redis.go. The Redis client is a package of its own: its commands and the server behind
-- them are the parameter `client` over the state `C`.
pub mod Marks
pub mod Expiry
use extend_game_telemetry_co.Prelude.{ℕ, ◌++◌, Bool, Option, some, Text, codes, ltb}
use extend_game_telemetry_co.Prelude.Int.{ℤ}
use extend_game_telemetry_co.Prelude.Result.{Result, ok, err}
use extend_game_telemetry_co.Runtime.{Context}
use extend_game_telemetry_co.Dedup.{Deduplicator}
use extend_game_telemetry_co.Storage.{Error, Deduplicatable}

-- The commands that the deduplicator sends. `exists` returns how many of the named keys there are.
pub record RedisClient (C : Type 0) : Type 0 where
  pub exists : Context → Text → C → Result Text ℕ
  pub set : Context → Text → Text → ℤ → C → Error × C
  pub ping : Context → C → Error
  pub info : Context → Text → C → Result Text Text
  pub close : C → Error × C

-- `RedisConfig` of the package.
pub record RedisConfig : Type 0 where
  pub addr : Text
  pub password : Text
  pub db : ℤ

pub record RedisDeduplicator (C : Type 0) : Type 0 where
  pub client : C
  pub ttl : ℤ
  pub prefix : Text

-- `connect` is `redis.NewClient`.
unfoldable pub new_redis_deduplicator :
    {C : Type 0} → (RedisConfig → C) → RedisConfig → ℤ → RedisDeduplicator C
new_redis_deduplicator connect config ttl = record {
  client = connect config;
  ttl = ttl;
  prefix = codes "telemetry:dedup:";
}

module _ {C T : Type 0} (commands : RedisClient C) (fingerprint : Text → Text)
    (keyed : Deduplicatable T) where
  unfoldable pub redis_key : RedisDeduplicator C → T → Text
  redis_key d e = d.prefix ++ fingerprint (keyed.deduplication_key e)

  abbrev is_present : Result Text ℕ → Result Text Bool
  is_present (err e) = err e
  is_present (ok n) = ok (ltb 0 n)

  unfoldable pub is_duplicate : Context → T → RedisDeduplicator C → Result Text Bool
  is_duplicate ctx e d = is_present (commands.exists ctx (redis_key d e) d.client)

  -- The clock is the server's.
  unfoldable pub mark : Context → ℕ → T → RedisDeduplicator C → Error × RedisDeduplicator C
  mark ctx now e d =
      let (failure, client) = commands.set ctx (redis_key d e) (codes "1") d.ttl d.client in
      (failure, record d { client = client })

module _ {C : Type 0} (commands : RedisClient C) where
  unfoldable pub close : RedisDeduplicator C → Option (Error × RedisDeduplicator C)
  close d =
      let (failure, client) = commands.close d.client in
      some (failure, record d { client = client })

  unfoldable pub ping : Context → RedisDeduplicator C → Error
  ping ctx d = commands.ping ctx d.client

  -- The text that `Stats` reports under "info".
  unfoldable pub stats : Context → RedisDeduplicator C → Result Text Text
  stats ctx d = commands.info ctx (codes "stats") d.client

-- `RedisDeduplicator` as an implementation of the interface.
unfoldable pub redis_deduplicator :
    {C T : Type 0}
    → RedisClient C
    → (Text → Text)
    → Deduplicatable T
    → Deduplicator (RedisDeduplicator C) T
redis_deduplicator commands fingerprint keyed = record {
  is_duplicate = is_duplicate commands fingerprint keyed;
  mark = mark commands fingerprint keyed;
  close = close commands;
}

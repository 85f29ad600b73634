-- ===== src/Bootstrap/Deduplicators/Choice.antt =====
-- What `buildDeduplicator` of internal/bootstrap/deduplicator.go returns, as a set of fingerprints.
use extend_game_telemetry_co.Prelude.{
  ℕ, ◌≡◌, ◌∙◌, refl, ap, Bool, true, false, ◌||◌, ◌++◌, none, [], ◌∷◌, Text, codes, text_eq, arith,
}
use extend_game_telemetry_co.Prelude.Int.{ℤ}
use extend_game_telemetry_co.Prelude.Result.{ok}
use extend_game_telemetry_co.Runtime.{Context}
use extend_game_telemetry_co.Storage.{Deduplicatable}
use extend_game_telemetry_co.Dedup.{Deduplicator}
use extend_game_telemetry_co.Dedup.Memory
use extend_game_telemetry_co.Dedup.Memory.{
  MemoryDeduplicator, lookup, insert, is_some, new_memory_deduplicator, memory_deduplicator,
}
use extend_game_telemetry_co.Dedup.Memory.History.{lookup-insert}
use extend_game_telemetry_co.Dedup.Redis
use extend_game_telemetry_co.Dedup.Redis.Marks.{IsStore}
use extend_game_telemetry_co.Dedup.Redis.{redis_key, redis_deduplicator, RedisClient, RedisConfig}
use extend_game_telemetry_co.Processor.Once.{Recalls}
use extend_game_telemetry_co.Settings
use extend_game_telemetry_co.Bootstrap.Deduplicators.{
  AnyDeduplicator, noop, memory, redis, is_duplicate, mark, any_deduplicator, chosen,
}

abbrev pub IsMemory : {C : Type 0} → AnyDeduplicator C → Type 0
IsMemory noop = ⊥
IsMemory (memory d) = Unit
IsMemory (redis d) = ⊥

-- The fingerprints in the map.
abbrev pub knows : {C : Type 0} → AnyDeduplicator C → Text → Bool
knows noop k = false
knows (memory d) k = is_some (lookup k d.cache)
knows (redis d) k = false

module _ {C T : Type 0} (commands : RedisClient C) (fingerprint : Text → Text)
    (keyed : Deduplicatable T) where
  abbrev pub print_of : T → Text
  print_of e = fingerprint (keyed.deduplication_key e)

  is_some-insert :
      (k j : Text) (now : ℕ) (d : MemoryDeduplicator)
      → is_some (lookup j (insert k now d.cache)) ≡ text_eq k j || is_some (lookup j d.cache)
  is_some-insert k j now d = rw (lookup-insert k j now d.cache) (ground arith)

  abbrev methods : Deduplicator (AnyDeduplicator C) T
  methods = any_deduplicator commands fingerprint keyed

  memory_answers :
      (ctx : Context) (e : T) (d : AnyDeduplicator C)
      → IsMemory d
      → methods.is_duplicate ctx e d ≡ ok (knows d (print_of e))
  unfolding any_deduplicator is_duplicate memory_deduplicator Memory.is_duplicate
  memory_answers ctx e noop good = absurd good
  memory_answers ctx e (memory d) good = refl
  memory_answers ctx e (redis d) good = absurd good

  memory_marks :
      (ctx : Context) (now : ℕ) (e : T) (d : AnyDeduplicator C) (k : Text)
      → IsMemory d
      → knows (methods.mark ctx now e d).1 k ≡ text_eq (print_of e) k || knows d k
  unfolding any_deduplicator mark memory_deduplicator Memory.mark
  memory_marks ctx now e noop k good = absurd good
  memory_marks ctx now e (memory d) k good = is_some-insert (print_of e) k now d
  memory_marks ctx now e (redis d) k good = absurd good

  mark-IsMemory :
      (ctx : Context) (now : ℕ) (e : T) (d : AnyDeduplicator C)
      → IsMemory d
      → IsMemory (methods.mark ctx now e d).1
  unfolding any_deduplicator mark memory_deduplicator Memory.mark
  mark-IsMemory ctx now e noop good = absurd good
  mark-IsMemory ctx now e (memory d) good = tt
  mark-IsMemory ctx now e (redis d) good = absurd good

  -- An in-memory deduplicator recalls its marks, until a cleanup.
  pub any_deduplicator-Recalls : Recalls IsMemory print_of knows methods
  any_deduplicator-Recalls = record {
    answers = memory_answers;
    marks = memory_marks;
    stays = mark-IsMemory;
  }

  -- The configuration with deduplication enabled, of the kind "memory".
  pub chosen-memory :
      (connect : RedisConfig → C) (c : Settings.DeduplicationConfig)
      → c.enabled ≡ true
      → c.kind ≡ codes "memory"
      → chosen commands fingerprint keyed connect c ≡ memory (new_memory_deduplicator c.ttl)
  chosen-memory connect c on kind = rw (on, kind) refl

-- What a Redis server does while it can be reached.
pub record IsUp {C : Type 0} (commands : RedisClient C) : Type 0 where
  pub answers : (ctx : Context) (k : Text) (c : C) → (n : ℕ) × (commands.exists ctx k c ≡ ok n)
  pub accepts :
      (ctx : Context) (k v : Text) (ttl : ℤ) (c : C) → (commands.set ctx k v ttl c).0 ≡ none

abbrev pub IsRedis : {C : Type 0} → AnyDeduplicator C → Type 0
IsRedis noop = ⊥
IsRedis (memory d) = ⊥
IsRedis (redis d) = Unit

text_eq-prefix : (p s t : Text) → text_eq (p ++ s) (p ++ t) ≡ text_eq s t
text_eq-prefix [] s t = refl
text_eq-prefix (c ∷ p) s t = ground (arith, text_eq-prefix p s t)

module _ {C T : Type 0} (commands : RedisClient C) (fingerprint : Text → Text)
    (keyed : Deduplicatable T) {holds : Text → C → Bool} (store : IsStore commands holds)
    (up : IsUp commands) where
  -- The fingerprints whose keys the server has.
  abbrev pub stored : AnyDeduplicator C → Text → Bool
  stored noop k = false
  stored (memory d) k = false
  stored (redis d) k = holds (d.prefix ++ k) d.client

  abbrev redis_methods : Deduplicator (AnyDeduplicator C) T
  redis_methods = any_deduplicator commands fingerprint keyed

  redis_answers :
      (ctx : Context) (e : T) (d : AnyDeduplicator C)
      → IsRedis d
      → redis_methods.is_duplicate ctx e d ≡ ok (stored d (print_of commands fingerprint keyed e))
  unfolding any_deduplicator is_duplicate redis_deduplicator Redis.is_duplicate redis_key
  redis_answers ctx e noop good = absurd good
  redis_answers ctx e (memory d) good = absurd good
  redis_answers ctx e (redis d) good =
      let (n, there) =
        up.answers ctx (d.prefix ++ print_of commands fingerprint keyed e) d.client in
      rw there (ap (λ b. ok b) (store.counts ctx _ _ n there))

  redis_marks :
      (ctx : Context) (now : ℕ) (e : T) (d : AnyDeduplicator C) (k : Text)
      → IsRedis d
      → stored (redis_methods.mark ctx now e d).1 k
        ≡ text_eq (print_of commands fingerprint keyed e) k || stored d k
  unfolding any_deduplicator mark redis_deduplicator Redis.mark redis_key
  redis_marks ctx now e noop k good = absurd good
  redis_marks ctx now e (memory d) k good = absurd good
  redis_marks ctx now e (redis d) k good =
      let key = print_of commands fingerprint keyed e in
      store.sets ctx (d.prefix ++ key) (codes "1") d.ttl d.client
        (up.accepts ctx (d.prefix ++ key) (codes "1") d.ttl d.client) (d.prefix ++ k)
      ∙ ap (λ b. b || holds (d.prefix ++ k) d.client) (text_eq-prefix d.prefix key k)

  mark-IsRedis :
      (ctx : Context) (now : ℕ) (e : T) (d : AnyDeduplicator C)
      → IsRedis d
      → IsRedis (redis_methods.mark ctx now e d).1
  unfolding any_deduplicator mark redis_deduplicator Redis.mark
  mark-IsRedis ctx now e noop good = absurd good
  mark-IsRedis ctx now e (memory d) good = absurd good
  mark-IsRedis ctx now e (redis d) good = tt

  -- A Redis deduplicator recalls its marks, while the server is up and no key expires.
  pub redis_methods-Recalls :
      Recalls IsRedis (print_of commands fingerprint keyed) stored redis_methods
  redis_methods-Recalls = record {
    answers = redis_answers;
    marks = redis_marks;
    stays = mark-IsRedis;
  }

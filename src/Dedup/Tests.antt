-- ===== src/Dedup/Tests.antt =====
-- A deduplicator in which a key is marked and swept, and a server on which it expires.
use extend_game_telemetry_co.Prelude.{
  ℕ, ◌+◌, ◌≡◌, Option, some, text_eq, if◌then◌else◌, refl, arith, none, List, [], ◌∷◌, Text, codes,
}
use extend_game_telemetry_co.Prelude.Int.{pos, pos_part}
use extend_game_telemetry_co.Prelude.Result.{ok, ok-injective}
use extend_game_telemetry_co.Runtime.{background}
use extend_game_telemetry_co.Storage.{Deduplicatable}
use extend_game_telemetry_co.Dedup.Redis.{RedisClient, RedisDeduplicator, redis_key}
use extend_game_telemetry_co.Dedup.Redis as Redis
use extend_game_telemetry_co.Dedup.Redis.Expiry.{
  is_live, Clocked, IsExpiring, Occurrence, waited, pass, remembered, pass-is_duplicate,
}
use extend_game_telemetry_co.Dedup.Redis.Expiry as Expiry
use extend_game_telemetry_co.Dedup.Memory.{is_duplicate, is_some, new_memory_deduplicator}
use extend_game_telemetry_co.Dedup.Memory.History.{
  Happening, marked, ticked, happen, last_mark, happen-is_duplicate,
}

abbrev by_itself : Deduplicatable Text
by_itself = record { deduplication_key = λ e. e }

-- Marked at 3, swept at 5 and at 20, with 10 to live.
abbrev swept : List (Happening Text)
swept = marked 3 (codes "a") ∷ ticked 5 ∷ ticked 20 ∷ marked 21 (codes "b") ∷ []

happen-is_duplicate_example :
    is_duplicate
      (λ k. k)
      by_itself
      background
      (codes "a")
      (happen (λ k. k) by_itself background swept (new_memory_deduplicator (pos 10)))
    ≡ ok (is_some (last_mark (λ k. k) by_itself (pos 10) (codes "a") swept none))
happen-is_duplicate_example =
    happen-is_duplicate (λ k. k) by_itself background (pos 10) swept (codes "a")

-- The time, and for each key when it expires.
abbrev Shelf : Type 0
Shelf = ℕ × (Text → Option ℕ)

abbrev redis : RedisClient Shelf
redis = record {
  exists = λ ctx k c. ok (if is_live c.0 (c.1 k) then 1 else 0);
  set = λ ctx k v ttl c.
      (none, (c.0, λ k'. if text_eq k k' then some (c.0 + pos_part ttl) else c.1 k'));
  ping = λ ctx c. none;
  info = λ ctx k c. ok [];
  close = λ c. (none, c);
}

abbrev timed : Clocked Shelf
timed = record { clock = λ c. c.0; deadline = λ k c. c.1 k; wait = λ n c. (c.0 + n, c.1) }

redis-IsExpiring : IsExpiring redis timed pos_part
redis-IsExpiring = record {
  counts = λ ctx k c n h. ground (arith, ok-injective h);
  sets = λ ctx k v ttl c positive went k'. refl;
  stays = λ ctx k v ttl c. refl;
  waits = λ n c. (refl, λ k. refl);
}

abbrev first_instance : RedisDeduplicator Shelf
first_instance = record { client = (0, λ k. none); ttl = pos 10; prefix = codes "p:" }

-- Marked at 0 and looked up at 12.
abbrev elapsed : List (Occurrence Text)
elapsed = Expiry.marked 0 (codes "a") ∷ waited 5 ∷ Expiry.marked 0 (codes "b") ∷ waited 7 ∷ []

pass-is_duplicate_example :
    Redis.is_duplicate redis
      (λ k. k)
      by_itself
      background
      (codes "a")
      (record first_instance {
        client =
            pass redis
              (λ k. k)
              by_itself
              timed
              background
              first_instance
              elapsed
              first_instance.client;
      })
    ≡ ok (remembered redis (λ k. k) by_itself first_instance 10 (codes "p:a") elapsed 0 none)
unfolding redis_key Redis.mark pass
pass-is_duplicate_example =
    pass-is_duplicate redis (λ k. k) by_itself timed background first_instance pos_part
      redis-IsExpiring background (codes "a") elapsed first_instance.client 0 refl
      (refl, (refl, tt)) refl

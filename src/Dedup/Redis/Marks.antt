-- ===== src/Dedup/Redis/Marks.antt =====
-- What a mark of pkg/dedup/redis.go does to the answers of `IsDuplicate`.
use extend_game_telemetry_co.Prelude.{ℕ, ◌≡◌, ◌∙◌, ap, Bool, ◌||◌, none, Text, codes, text_eq, ltb}
use extend_game_telemetry_co.Prelude.Int.{ℤ}
use extend_game_telemetry_co.Prelude.Result.{ok}
use extend_game_telemetry_co.Runtime.{Context}
use extend_game_telemetry_co.Storage.{Deduplicatable}
use extend_game_telemetry_co.Dedup.Redis.{
  RedisClient, RedisDeduplicator, redis_key, is_duplicate, mark,
}

-- What EXISTS and SET promise, while no key expires: `holds` says which keys there are.
pub record IsStore {C : Type 0} (commands : RedisClient C) (holds : Text → C → Bool) : Type 0 where
  pub counts :
      (ctx : Context) (k : Text) (c : C) (n : ℕ)
      → commands.exists ctx k c ≡ ok n
      → ltb 0 n ≡ holds k c
  pub sets :
      (ctx : Context) (k v : Text) (ttl : ℤ) (c : C)
      → (commands.set ctx k v ttl c).0 ≡ none
      → (k' : Text) → holds k' (commands.set ctx k v ttl c).1 ≡ (text_eq k k' || holds k' c)

module _ {C T : Type 0} (commands : RedisClient C) (fingerprint : Text → Text)
    (keyed : Deduplicatable T) where
  -- While no key expires: after a `Mark` of `e` that returned no error, an `IsDuplicate` of any
  -- event whose EXISTS is answered says true exactly if its key is that of `e` or was there before.
  pub is_duplicate-mark :
      {holds : Text → C → Bool} (ctx ctx' : Context) (now : ℕ) (e e' : T) (d : RedisDeduplicator C)
      (n : ℕ)
      → IsStore commands holds
      → (mark commands fingerprint keyed ctx now e d).0 ≡ none
      → commands.exists ctx'
          (redis_key commands fingerprint keyed d e')
          (mark commands fingerprint keyed ctx now e d).1.client
        ≡ ok n
      → is_duplicate commands fingerprint keyed ctx' e'
          (mark commands fingerprint keyed ctx now e d).1
        ≡ ok (
            text_eq
              (redis_key commands fingerprint keyed d e)
              (redis_key commands fingerprint keyed d e')
            || holds (redis_key commands fingerprint keyed d e') d.client)
  unfolding is_duplicate mark redis_key
  is_duplicate-mark ctx ctx' now e e' d n store went there =
      rw there
        (ap ok (store.counts ctx' _ _ n there ∙ store.sets ctx _ (codes "1") d.ttl d.client went _))

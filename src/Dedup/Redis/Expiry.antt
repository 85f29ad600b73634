-- ===== src/Dedup/Redis/Expiry.antt =====
-- What pkg/dedup/redis.go remembers while time passes: the answers of `IsDuplicate` against a record
-- of the marks and of the time between them. The marks may come from any number of instances of the
-- service with one configuration, which share the server.
use extend_game_telemetry_co.Prelude.{
  ℕ, ◌+◌, ◌≡◌, ◌∙◌, refl, ap, Bool, true, false, Option, none, some, List, [], ◌∷◌, Text, codes,
  text_eq, ltb, if◌then◌else◌,
}
use extend_game_telemetry_co.Prelude.Int.{ℤ, pos, ltb_ℤ}
use extend_game_telemetry_co.Prelude.Result.{ok}
use extend_game_telemetry_co.Runtime.{Context}
use extend_game_telemetry_co.Storage.{Deduplicatable}
use extend_game_telemetry_co.Dedup.Redis.{
  RedisClient, RedisDeduplicator, redis_key, is_duplicate, mark,
}

-- A key is there until its deadline.
abbrev pub is_live : ℕ → Option ℕ → Bool
is_live time none = false
is_live time (some deadline) = ltb time deadline

-- A server with a clock, and for each key the time at which it expires.
pub record Clocked (C : Type 0) : Type 0 where
  pub clock : C → ℕ
  pub deadline : Text → C → Option ℕ
  pub wait : ℕ → C → C

-- What EXISTS and SET with a positive time to live promise. `lifetime` is how long a key lives,
-- after the rounding of the client.
pub record IsExpiring {C : Type 0} (commands : RedisClient C) (server : Clocked C)
    (lifetime : ℤ → ℕ) : Type 0 where
  pub counts :
      (ctx : Context) (k : Text) (c : C) (n : ℕ)
      → commands.exists ctx k c ≡ ok n
      → ltb 0 n ≡ is_live (server.clock c) (server.deadline k c)
  pub sets :
      (ctx : Context) (k v : Text) (ttl : ℤ) (c : C)
      → ltb_ℤ (pos 0) ttl ≡ true
      → (commands.set ctx k v ttl c).0 ≡ none
      → (k' : Text)
      → server.deadline k' (commands.set ctx k v ttl c).1
        ≡ (if text_eq k k' then some (server.clock c + lifetime ttl) else server.deadline k' c)
  pub stays :
      (ctx : Context) (k v : Text) (ttl : ℤ) (c : C)
      → server.clock (commands.set ctx k v ttl c).1 ≡ server.clock c
  pub waits :
      (n : ℕ) (c : C)
      → (server.clock (server.wait n c) ≡ server.clock c + n)
        × ((k : Text) → server.deadline k (server.wait n c) ≡ server.deadline k c)

-- What happens: some instance marks an event, or time passes.
pub data Occurrence (T : Type 0) : Type 0 where
  marked : ℕ → T → Occurrence T
  waited : ℕ → Occurrence T

module _ {C T : Type 0} (commands : RedisClient C) (fingerprint : Text → Text)
    (keyed : Deduplicatable T) (d : RedisDeduplicator C) where
  -- Whether a key is there, of the history alone: the last mark of the key counts, for `life`.
  abbrev pub remembered : ℕ → Text → List (Occurrence T) → ℕ → Option ℕ → Bool
  remembered life k [] time seen = is_live time seen
  remembered life k (marked now e ∷ rest) time seen =
      remembered life k rest time
        (if text_eq (redis_key commands fingerprint keyed d e) k then some (time + life) else seen)
  remembered life k (waited n ∷ rest) time seen = remembered life k rest (time + n) seen

module _ {C T : Type 0} (commands : RedisClient C) (fingerprint : Text → Text)
    (keyed : Deduplicatable T) (server : Clocked C) (ctx : Context) (d : RedisDeduplicator C) where
  abbrev pub marked_at : ℕ → T → C → RedisDeduplicator C
  marked_at now e c = (mark commands fingerprint keyed ctx now e (record d { client = c })).1

  -- The server after a history, whichever instances of the configuration of `d` send the marks.
  unfoldable pub pass : List (Occurrence T) → C → C
  pass [] c = c
  pass (marked now e ∷ rest) c = pass rest (marked_at now e c).client
  pass (waited n ∷ rest) c = pass rest (server.wait n c)

  -- No mark of the history returned an error.
  abbrev pub AllWent : List (Occurrence T) → C → Type 0
  AllWent [] c = Unit
  AllWent (marked now e ∷ rest) c =
      ((mark commands fingerprint keyed ctx now e (record d { client = c })).0 ≡ none)
      × AllWent rest (marked_at now e c).client
  AllWent (waited n ∷ rest) c = AllWent rest (server.wait n c)

  module _ (lifetime : ℤ → ℕ) (expiring : IsExpiring commands server lifetime) where
    pass-remembered :
        (k : Text) (history : List (Occurrence T)) (c : C)
        → ltb_ℤ (pos 0) d.ttl ≡ true
        → AllWent history c
        → is_live (server.clock (pass history c)) (server.deadline k (pass history c))
          ≡ remembered commands fingerprint keyed d
              (lifetime d.ttl)
              k
              history
              (server.clock c)
              (server.deadline k c)
    unfolding pass mark redis_key
    pass-remembered k [] c positive went = refl
    pass-remembered k (marked now e ∷ rest) c positive went =
        pass-remembered k rest (marked_at now e c).client positive went.1
        ∙ ap
            (λ t.
              remembered commands fingerprint keyed d (lifetime d.ttl) k rest t
                (server.deadline k (marked_at now e c).client))
            (expiring.stays ctx _ (codes "1") d.ttl c)
        ∙ ap (remembered commands fingerprint keyed d (lifetime d.ttl) k rest (server.clock c))
            (expiring.sets ctx _ (codes "1") d.ttl c positive went.0 k)
    pass-remembered k (waited n ∷ rest) c positive went =
        pass-remembered k rest (server.wait n c) positive went
        ∙ ap
            (λ t.
              remembered commands fingerprint keyed d (lifetime d.ttl) k rest t
                (server.deadline k (server.wait n c)))
            ((expiring.waits n c).0)
        ∙ ap (remembered commands fingerprint keyed d (lifetime d.ttl) k rest (server.clock c + n))
            ((expiring.waits n c).1 k)

    -- On a server that expires keys and with a positive time to live: after any history of marks
    -- that returned no error and of waiting, by whichever instances, an `IsDuplicate` whose EXISTS
    -- is answered says true exactly when less than the lifetime has passed since the last mark
    -- of the event's key, or, with no such mark, when the key that the server had before is
    -- still there.
    pub pass-is_duplicate :
        (ctx' : Context) (e : T) (history : List (Occurrence T)) (c : C) (n : ℕ)
        → ltb_ℤ (pos 0) d.ttl ≡ true
        → AllWent history c
        → commands.exists ctx' (redis_key commands fingerprint keyed d e) (pass history c) ≡ ok n
        → is_duplicate commands fingerprint keyed ctx' e (record d { client = pass history c })
          ≡ ok (
              remembered commands fingerprint keyed d
                (lifetime d.ttl)
                (redis_key commands fingerprint keyed d e)
                history
                (server.clock c)
                (server.deadline (redis_key commands fingerprint keyed d e) c))
    unfolding is_duplicate redis_key
    pass-is_duplicate ctx' e history c n positive went there = rw there (
        ap ok (
          expiring.counts ctx' _ _ n there
          ∙ pass-remembered (redis_key commands fingerprint keyed d e) history c positive went))

-- ===== src/Dedup/Memory/History.antt =====
-- What the in-memory deduplicator remembers (pkg/dedup/memory.go): its map against a record of the
-- last mark of each key.
use extend_game_telemetry_co.Prelude.{
  ℕ, ◌+◌, leb, not, Bool, ◌≡◌, refl, false, Option, none, some, List, [], ◌∷◌, Text, text_eq,
  text_eq_iff, arith, if◌then◌else◌, ap, ◌∙◌,
}
use extend_game_telemetry_co.Prelude.Int.{ℤ, pos, negsuc}
use extend_game_telemetry_co.Prelude.Result.{ok}
use extend_game_telemetry_co.Runtime.{Context}
use extend_game_telemetry_co.Dedup.{Remembers}
use extend_game_telemetry_co.Storage.{Deduplicatable}
use extend_game_telemetry_co.Dedup.Memory.{
  Cache, lookup, insert, MemoryDeduplicator, is_some, expired, drop_expired, remove_expired,
  cleanup_tick, new_memory_deduplicator, is_duplicate, mark, memory_deduplicator,
}

pub lookup-insert :
    (k j : Text) (t : ℕ) (c : Cache)
    → lookup j (insert k t c) ≡ (if text_eq k j then some t else lookup j c)
unfolding lookup insert
lookup-insert k j t [] = refl
lookup-insert k j t ((i, u) ∷ c) =
    ground (arith, text_eq_iff k j, text_eq_iff i k, text_eq_iff i j, lookup-insert k j t c)

-- No fingerprint stands twice in the map.
abbrev pub NodupKeys : Cache → Type 0
NodupKeys [] = Unit
NodupKeys ((k, _) ∷ c) = (lookup k c ≡ none) × NodupKeys c

pub insert-NodupKeys : (k : Text) (t : ℕ) (c : Cache) → NodupKeys c → NodupKeys (insert k t c)
unfolding insert lookup
insert-NodupKeys k t [] u = (refl, tt)
insert-NodupKeys k t ((j, v) ∷ c) u =
    ground
      (arith, insert-NodupKeys k t c u.1, lookup-insert k j t c, text_eq_iff j k, text_eq_iff k j)

-- A mark made at `t` is within the time to live at `now`: `now` is at most `t` plus the time to live.
abbrev pub is_fresh : ℤ → ℕ → ℕ → Bool
is_fresh (pos ttl) now t = leb now (t + ttl)
is_fresh (negsuc n) now t = leb (now + n + 1) t

expired_lem : (ttl : ℤ) (now t : ℕ) → expired ttl now t ≡ not (is_fresh ttl now t)
unfolding expired
expired_lem (pos ttl) now t = ground arith
expired_lem (negsuc n) now t = ground arith

-- What a cleanup leaves of a mark: one within the time to live stays.
abbrev survivor : ℤ → ℕ → Option ℕ → Option ℕ
survivor ttl now none = none
survivor ttl now (some t) = if is_fresh ttl now t then some t else none

pub lookup-drop_expired :
    (ttl : ℤ) (now : ℕ) (k : Text) (c : Cache)
    → NodupKeys c
    → lookup k (drop_expired ttl now c) ≡ survivor ttl now (lookup k c)
unfolding drop_expired lookup
lookup-drop_expired ttl now k [] u = refl
lookup-drop_expired ttl now k ((j, t) ∷ c) u =
    ground (arith, expired_lem ttl now t, lookup-drop_expired ttl now k c u.1, text_eq_iff j k)

pub drop_expired-NodupKeys :
    (ttl : ℤ) (now : ℕ) (c : Cache) → NodupKeys c → NodupKeys (drop_expired ttl now c)
unfolding drop_expired
drop_expired-NodupKeys ttl now [] u = tt
drop_expired-NodupKeys ttl now ((j, t) ∷ c) u =
    ground (arith, drop_expired-NodupKeys ttl now c u.1, lookup-drop_expired ttl now j c u.1)

cleanup_tick_lem :
    (now : ℕ) (d : MemoryDeduplicator)
    → d.stopped ≡ false
    → cleanup_tick now d ≡ remove_expired now d
unfolding cleanup_tick
cleanup_tick_lem now d h = ground arith

-- What happens to a deduplicator: an event is marked, or the cleanup goroutine's ticker fires.
pub data Happening (T : Type 0) : Type 0 where
  marked : ℕ → T → Happening T
  ticked : ℕ → Happening T

module _ {T : Type 0} (fingerprint : Text → Text) (keyed : Deduplicatable T) where
  abbrev pub print_of : T → Text
  print_of e = fingerprint (keyed.deduplication_key e)

  pub happen : Context → List (Happening T) → MemoryDeduplicator → MemoryDeduplicator
  happen ctx [] d = d
  happen ctx (marked now e ∷ hs) d = happen ctx hs (mark fingerprint keyed ctx now e d).1
  happen ctx (ticked now ∷ hs) d = happen ctx hs (cleanup_tick now d)

  -- The time of the last mark of a fingerprint, unless a later cleanup came past its time to live.
  abbrev pub last_mark : ℤ → Text → List (Happening T) → Option ℕ → Option ℕ
  last_mark ttl k [] seen = seen
  last_mark ttl k (marked now e ∷ hs) seen =
      last_mark ttl k hs (if text_eq (print_of e) k then some now else seen)
  last_mark ttl k (ticked now ∷ hs) seen = last_mark ttl k hs (survivor ttl now seen)

  happen-lookup :
      (ctx : Context) (hs : List (Happening T)) (d : MemoryDeduplicator) (k : Text)
      → NodupKeys d.cache
      → d.stopped ≡ false
      → lookup k (happen ctx hs d).cache ≡ last_mark d.ttl k hs (lookup k d.cache)
  unfolding happen mark remove_expired
  happen-lookup ctx [] d k u open_ = refl
  happen-lookup ctx (marked now e ∷ hs) d k u open_ =
      happen-lookup ctx hs (mark fingerprint keyed ctx now e d).1 k
        (insert-NodupKeys (print_of e) now d.cache u) open_
      ∙ ap (last_mark d.ttl k hs) (lookup-insert (print_of e) k now d.cache)
  happen-lookup ctx (ticked now ∷ hs) d k u open_ =
      ap (λ x. lookup k (happen ctx hs x).cache) (cleanup_tick_lem now d open_)
      ∙ (happen-lookup ctx hs (remove_expired now d) k (drop_expired-NodupKeys d.ttl now d.cache u)
            open_
          ∙ ap (last_mark d.ttl k hs) (lookup-drop_expired d.ttl now k d.cache u))

  -- A deduplicator that was just built, after any marks and cleanups: an event is a duplicate
  -- exactly when its fingerprint was marked and every cleanup after the last such mark came at a
  -- time that is at most that mark's plus the time to live.
  pub happen-is_duplicate :
      (ctx : Context) (ttl : ℤ) (hs : List (Happening T)) (e : T)
      → is_duplicate fingerprint keyed ctx e (happen ctx hs (new_memory_deduplicator ttl))
        ≡ ok (is_some (last_mark ttl (print_of e) hs none))
  unfolding is_duplicate new_memory_deduplicator lookup
  happen-is_duplicate ctx ttl hs e =
      rw (happen-lookup ctx hs (new_memory_deduplicator ttl) (print_of e) tt refl)

  -- An event is a duplicate right after it is marked.
  pub memory-Remembers : Remembers (memory_deduplicator fingerprint keyed)
  unfolding memory_deduplicator is_duplicate mark
  memory-Remembers ctx ctx' now e d = rw (
    lookup-insert (print_of e) (print_of e) now d.cache,
    (text_eq_iff (print_of e) (print_of e)).1 refl,
  )

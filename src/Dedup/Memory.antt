-- ===== src/Dedup/Memory.antt =====
-- pkg/dedup/memory.go. The read-write mutex makes each operation one step. The map from
-- fingerprints to times is an association list, in which an assignment replaces the entry.
pub mod History
use extend_game_telemetry_co.Prelude.{
  ℕ, Bool, true, false, Option, none, some, List, [], ◌∷◌, Text, text_eq, if◌then◌else◌, length,
}
use extend_game_telemetry_co.Prelude.Int.{ℤ, ltb_ℤ, sub_ℕ}
use extend_game_telemetry_co.Prelude.Result.{Result, ok}
use extend_game_telemetry_co.Runtime.{Context}
use extend_game_telemetry_co.Dedup.{Deduplicator}
use extend_game_telemetry_co.Storage.{Error, Deduplicatable}

abbrev pub Cache : Type 0
Cache = List (Text × ℕ)

unfoldable pub lookup : Text → Cache → Option ℕ
lookup k [] = none
lookup k ((j, t) ∷ c) = if text_eq j k then some t else lookup k c

-- `cache[key] = t`
unfoldable pub insert : Text → ℕ → Cache → Cache
insert k t [] = (k, t) ∷ []
insert k t ((j, u) ∷ c) = if text_eq j k then (k, t) ∷ c else (j, u) ∷ insert k t c

-- `MemoryDeduplicator`; `stopped` says that the channel `stopCleanup` is closed.
pub record MemoryDeduplicator : Type 0 where
  pub cache : Cache
  pub ttl : ℤ
  pub stopped : Bool

unfoldable pub new_memory_deduplicator : ℤ → MemoryDeduplicator
new_memory_deduplicator ttl = record { cache = []; ttl = ttl; stopped = false }

abbrev pub is_some : {A : Type 0} → Option A → Bool
is_some none = false
is_some (some _) = true

-- The test of `removeExpired`: older than the time to live.
unfoldable pub expired : ℤ → ℕ → ℕ → Bool
expired ttl now t = ltb_ℤ ttl (sub_ℕ now t)

unfoldable pub drop_expired : ℤ → ℕ → Cache → Cache
drop_expired ttl now [] = []
drop_expired ttl now ((k, t) ∷ c) =
    let rest = drop_expired ttl now c in if expired ttl now t then rest else (k, t) ∷ rest

-- `removeExpired`, which the cleanup goroutine calls every minute until it is stopped.
unfoldable pub remove_expired : ℕ → MemoryDeduplicator → MemoryDeduplicator
remove_expired now d = record d { cache = drop_expired d.ttl now d.cache }

-- A tick of the ticker in `cleanup`: after `Close` the goroutine is gone.
unfoldable pub cleanup_tick : ℕ → MemoryDeduplicator → MemoryDeduplicator
cleanup_tick now d = if d.stopped then d else remove_expired now d

module _ {T : Type 0} (fingerprint : Text → Text) (keyed : Deduplicatable T) where
  unfoldable pub is_duplicate : Context → T → MemoryDeduplicator → Result Text Bool
  is_duplicate ctx e d = ok (is_some (lookup (fingerprint (keyed.deduplication_key e)) d.cache))

  unfoldable pub mark : Context → ℕ → T → MemoryDeduplicator → Error × MemoryDeduplicator
  mark ctx now e d =
      (none, record d { cache = insert (fingerprint (keyed.deduplication_key e)) now d.cache })

-- Closing a channel twice panics.
unfoldable pub close : MemoryDeduplicator → Option (Error × MemoryDeduplicator)
close d = if d.stopped then none else some (none, record d { cache = []; stopped = true })

-- The number that `Stats` reports under "entries".
unfoldable pub entries : MemoryDeduplicator → ℕ
entries d = length d.cache

-- `MemoryDeduplicator` as an implementation of the interface.
unfoldable pub memory_deduplicator :
    {T : Type 0} → (Text → Text) → Deduplicatable T → Deduplicator MemoryDeduplicator T
memory_deduplicator fingerprint keyed = record {
  is_duplicate = is_duplicate fingerprint keyed;
  mark = mark fingerprint keyed;
  close = close;
}

-- ===== src/Runtime.antt =====
-- What the Go runtime gives the collector: contexts with cancellation and a timeout, and buffered
-- channels. A channel of capacity 0 (a rendezvous) is never built by the collector, whose
-- configuration check wants a positive buffer.
use extend_game_telemetry_co.Prelude.{
  ℕ, ◌++◌, Bool, false, Option, none, some, List, [], ◌∷◌, length, ltb,
}
use extend_game_telemetry_co.Prelude.Int.{ℤ, pos, negsuc}

pub record Context : Type 0 where
  pub cancelled : Bool
  -- The deadline that the latest `WithTimeout` set, in milliseconds from the call.
  pub timeout : Option ℕ

abbrev pub background : Context
background = record { cancelled = false; timeout = none }

abbrev pub with_timeout : Context → ℕ → Context
with_timeout c ms = record c { timeout = some ms }

pub record Chan (T : Type 0) : Type 0 where
  pub buffer : List T
  pub capacity : ℕ
  pub closed : Bool

-- `make(chan T, n)`, which panics at a negative size.
abbrev pub make_chan : {T : Type 0} → ℤ → Option (Chan T)
make_chan (pos n) = some (record { buffer = []; capacity = n; closed = false })
make_chan (negsuc n) = none

abbrev pub has_room : {T : Type 0} → Chan T → Bool
has_room c = ltb (length c.buffer) c.capacity

abbrev pub push : {T : Type 0} → Chan T → T → Chan T
push c e = record c { buffer = c.buffer ++ e ∷ [] }

-- ===== src/System/Delivery.antt =====
-- The worker's steps move events and lose none: counts of the events that pass any test
-- (pkg/processor/processor.go, batcher.go).
use extend_game_telemetry_co.Prelude.{
  ℕ, ◌+◌, ◌++◌, ◌≡◌, ap, Bool, Option, none, some, List, [], ◌∷◌, arith, count, count-append,
  Option-cases, inl, inr,
}
use extend_game_telemetry_co.Runtime.{Chan}
use extend_game_telemetry_co.Batcher
use extend_game_telemetry_co.Batcher.{Batcher}
use extend_game_telemetry_co.Batcher.Order.{batch_of, flush_order, add_order}
use extend_game_telemetry_co.System.{Worker, receive, store, fire, stop}

abbrev pub one_of : {T : Type 0} → Option T → List T
one_of none = []
one_of (some e) = e ∷ []

module _ {T : Type 0} (f : T → Bool) where
  -- The events that a worker has: held, pending in its batcher, or being written.
  abbrev pub pending : Worker T → ℕ
  pending w = count f (one_of w.holding) + count f w.batcher.events + count f (batch_of w.writing)

  split_count :
      (batch : Option (List T)) (left whole : List T)
      → batch_of batch ++ left ≡ whole
      → count f (batch_of batch) + count f left ≡ count f whole
  split_count batch left whole h =
      omega (arith, count-append f (batch_of batch) left, ap (count f) h)

  pub flush-count :
      (b : Batcher T)
      → count f (batch_of (Batcher.flush b).1) + count f (Batcher.flush b).0.events
        ≡ count f b.events
  flush-count b =
      split_count (Batcher.flush b).1 (Batcher.flush b).0.events b.events (flush_order b)

  add-count :
      (now : ℕ) (e : T) (b : Batcher T)
      → count f (batch_of (Batcher.add now e b).1) + count f (Batcher.add now e b).0.events
        ≡ count f b.events + count f (e ∷ [])
  add-count now e b = omega (
    arith,
    split_count (Batcher.add now e b).1 (Batcher.add now e b).0.events (b.events ++ e ∷ [])
        (add_order now e b),
    count-append f b.events (e ∷ []),
  )

  pub receive-count :
      (c : Chan T) (w : Worker T) {w' : Worker T} {c' : Chan T}
      → receive c w ≡ some (w', c')
      → pending w' + count f c'.buffer ≡ pending w + count f c.buffer
  unfolding receive
  receive-count c w h = ground arith

  pub store_count :
      (now : ℕ) (w : Worker T) {w' : Worker T} → store now w ≡ some w' → pending w' ≡ pending w
  unfolding store
  store_count now w h = elim (Option-cases w.holding) [
    | inl e ↦ ground arith
    | inr (e, held) ↦ ground (arith, add-count now e w.batcher)
  ]

  pub fire_count : (w : Worker T) {w' : Worker T} → fire w ≡ some w' → pending w' ≡ pending w
  unfolding fire Batcher.timeout_flush
  fire_count w h = ground (arith, flush-count w.batcher)

  pub stop_count :
      (cancelled : Bool) (c : Chan T) (w : Worker T) {w' : Worker T}
      → stop cancelled c w ≡ some w'
      → pending w' ≡ pending w
  unfolding stop Batcher.flush_all
  stop_count cancelled c w h = ground (arith, flush-count w.batcher)

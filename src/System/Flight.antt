-- ===== src/System/Flight.antt =====
-- The batch that a worker of pkg/processor/processor.go is processing, as far as one plugin has been
-- handed it.
use extend_game_telemetry_co.Prelude.{
  zero, suc, true, ◌∷◌, ◌==◌, ==_iff, if◌then◌else◌, set, length, Bool-cases, inl, inr, ℕ, ◌<◌, ◌≡◌,
  Bool, ◌&&◌, Option, some, List, [], yields, get_elem?, arith,
}
use extend_game_telemetry_co.Runtime.{Chan}
use extend_game_telemetry_co.Batcher.Order.{batch_of}
use extend_game_telemetry_co.System.{covers, has, Worker, store, fire, stop, receive}
use extend_game_telemetry_co.System.Launch.{IsNew}
use extend_game_telemetry_co.System.Exit.{IsDone}

-- A replaced element and the others.
pub get_elem?-set :
    {A : Type 0} (xs : List A) (k i : ℕ) (a b : A)
    → get_elem? xs i ≡ some a
    → get_elem? (set xs k b) i ≡ (if k == i then some b else some a)
get_elem?-set [] k i a b h = ground arith
get_elem?-set (x ∷ xs) zero zero a b h = ground arith
get_elem?-set (x ∷ xs) zero (suc i) a b h = ground arith
get_elem?-set (x ∷ xs) (suc k) zero a b h = ground arith
get_elem?-set (x ∷ xs) (suc k) (suc i) a b h = ground (arith, get_elem?-set xs k i a b h)

pub covers-has : (n : ℕ) (js : List ℕ) (i : ℕ) → covers n js ≡ true → i < n → has i js ≡ true
covers-has zero js i h less = absurd (omega arith)
covers-has (suc n) js i h less = elim (Bool-cases (i == n)) [
  | inl same ↦ ground (arith, ==_iff i n)
  | inr other ↦ ground (arith, ==_iff i n, covers-has n js i)
]

pub get_elem?-length :
    {A : Type 0} (xs : List A) (i : ℕ) {a : A} → get_elem? xs i ≡ some a → i < length xs
get_elem?-length [] i h = ground arith
get_elem?-length (x ∷ xs) zero h = omega arith
get_elem?-length (x ∷ xs) (suc i) h = omega (arith, get_elem?-length xs i h)

module _ {T : Type 0} (i : ℕ) where
  -- The events of a batch that the plugin at place `i` has been handed and that is still running.
  abbrev pub in_flight : Worker T → List T
  in_flight w = if has i w.written then batch_of w.writing else []

  pub store_flight :
      (now : ℕ) (w w' : Worker T) → store now w ≡ some w' → in_flight w' ≡ in_flight w
  unfolding store
  store_flight now w w' h = ground arith

  pub fire_flight : (w w' : Worker T) → fire w ≡ some w' → in_flight w' ≡ in_flight w
  unfolding fire
  fire_flight w w' h = ground arith

  pub stop_flight :
      (cancelled : Bool) (c : Chan T) (w w' : Worker T)
      → stop cancelled c w ≡ some w'
      → in_flight w' ≡ in_flight w
  unfolding stop
  stop_flight cancelled c w w' h = ground arith

  pub new_flight : (w : Worker T) → IsNew w → in_flight w ≡ []
  new_flight w new = let nothing = new.nothing_written in ground arith

  pub done_flight : (w : Worker T) → IsDone w → in_flight w ≡ []
  done_flight w done = ground arith

  pub receive_flight :
      (c : Chan T) (w w' : Worker T) (c' : Chan T)
      → receive c w ≡ some (w', c')
      → in_flight w' ≡ in_flight w
  unfolding receive
  receive_flight c w w' c' h = ground arith

module _ {T X : Type 0} (image : T → Option X) (passes : T → Bool) (f : X → Bool) where
  -- The events that the plugin stores an entry of which passes the test.
  abbrev pub counts : T → Bool
  counts e = passes e && yields f image e

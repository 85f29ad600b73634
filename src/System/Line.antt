-- ===== src/System/Line.antt =====
-- What the steps of one worker do to the line of its events (pkg/processor/processor.go, `worker`).
use mathlib.Core.List.{append_assoc, append-nil}
use extend_game_telemetry_co.Prelude.{
  ℕ, zero, suc, ◌++◌, ◌≡◌, ◌∙◌, refl, sym, ap, Bool, some, List, [], ◌∷◌, get_elem?, set, length,
  arith, Option-cases, List-cases, inl, inr,
}
use extend_game_telemetry_co.Runtime.{Chan}
use extend_game_telemetry_co.Batcher
use extend_game_telemetry_co.Batcher.Order.{batch_of, flush_order, add_order}
use extend_game_telemetry_co.System.{Worker, store, fire, stop, receive}
use extend_game_telemetry_co.System.Launch.{IsNew}
use extend_game_telemetry_co.System.Delivery.{one_of}

module _ {T : Type 0} where
  -- The events that a worker has, oldest first.
  abbrev pub line_of : Worker T → List T
  line_of w = batch_of w.writing ++ (w.batcher.events ++ one_of w.holding)

  pub store_line :
      (now : ℕ) (w : Worker T) {w' : Worker T} → store now w ≡ some w' → line_of w' ≡ line_of w
  unfolding store
  store_line now w h = elim (Option-cases w.holding) [
    | inl e ↦ ground arith
    | inr (e, held) ↦
        ground (arith, add_order now e w.batcher, append-nil (Batcher.add now e w.batcher).0.events)
  ]

  flushed_line :
      (b : Batcher.Batcher T) (held : List T)
      → batch_of (Batcher.flush b).1 ++ ((Batcher.flush b).0.events ++ held) ≡ b.events ++ held
  flushed_line b held =
      sym (append_assoc (batch_of (Batcher.flush b).1) (Batcher.flush b).0.events held)
      ∙ ap (λ xs. xs ++ held) (flush_order b)

  pub fire_line : (w : Worker T) {w' : Worker T} → fire w ≡ some w' → line_of w' ≡ line_of w
  unfolding fire Batcher.timeout_flush
  fire_line w h = ground (arith, flushed_line w.batcher (one_of w.holding))

  pub stop_line :
      (cancelled : Bool) (c : Chan T) (w : Worker T) {w' : Worker T}
      → stop cancelled c w ≡ some w'
      → line_of w' ≡ line_of w
  unfolding stop Batcher.flush_all
  stop_line cancelled c w h = ground (arith, flushed_line w.batcher (one_of w.holding))

  moves_up :
      (batch events : List T) (e : T) (rest : List T)
      → (batch ++ (events ++ e ∷ [])) ++ rest ≡ (batch ++ (events ++ [])) ++ e ∷ rest
  moves_up batch events e rest =
      append_assoc batch (events ++ e ∷ []) rest
      ∙ ap (λ xs. batch ++ xs) (append_assoc events (e ∷ []) rest)
      ∙ sym (append_assoc batch events (e ∷ rest))
      ∙ ap (λ xs. (batch ++ xs) ++ e ∷ rest) (sym (append-nil events))

  pub receive_line :
      (c : Chan T) (w : Worker T) {w' : Worker T} {c' : Chan T}
      → receive c w ≡ some (w', c')
      → line_of w' ++ c'.buffer ≡ line_of w ++ c.buffer
  unfolding receive
  receive_line c w h = elim (List-cases c.buffer) [
    | inl dry ↦ ground arith
    | inr (e, rest, more) ↦ ground (arith, moves_up (batch_of w.writing) w.batcher.events e rest)
  ]

  pub single : (ws : List (Worker T)) → length ws ≡ 1 → (w : Worker T) × (ws ≡ w ∷ [])
  single [] h = ground arith
  single (w ∷ []) h = (w, refl)
  single (w ∷ v ∷ ws) h = ground arith

  pub new_line : (w : Worker T) → IsNew w → line_of w ≡ []
  new_line w new = rw (new.nothing_pending, new.nothing_held, new.nothing_written) refl

  -- The one worker is at place 0.
  pub sole :
      (ws : List (Worker T)) (w v w' : Worker T) (i : ℕ)
      → ws ≡ w ∷ []
      → get_elem? ws i ≡ some v
      → (v ≡ w) × (set ws i w' ≡ w' ∷ [])
  sole ws w v w' zero one at = rw one (ground arith, refl)
  sole ws w v w' (suc i) one at = ground arith

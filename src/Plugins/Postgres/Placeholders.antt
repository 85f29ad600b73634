-- ===== src/Plugins/Postgres/Placeholders.antt =====
-- The statement that `WriteBatch` of pkg/storage/plugins/postgres builds: its placeholders and its
-- arguments fit together.
use extend_game_telemetry_co.Prelude.{
  ℕ, suc, zero, ◌+◌, ◌++◌, ◌≡◌, refl, ap, ◌∙◌, none, some, List, [], ◌∷◌, length, arith,
}
use extend_game_telemetry_co.Plugins.{EventKind, Json}
use extend_game_telemetry_co.Plugins.Postgres.{Arg, transform, rows_from, row_args}

-- The numbers from `n` on, `k` of them.
abbrev pub range : ℕ → ℕ → List ℕ
range n zero = []
range n (suc k) = n ∷ range (n + 1) k

abbrev pub concat : {A : Type 0} → List (List A) → List A
concat [] = []
concat (xs ∷ xss) = xs ++ concat xss

module _ {E P : Type 0} (kind : EventKind E P) (json : Json P) where
  -- The arguments of the events whose payload can be marshalled, in the batch's order.
  abbrev pub arguments : List E → List (Arg P)
  arguments [] = []
  arguments (e ∷ evts) = elim (transform kind json e) [
    | none ↦ arguments evts
    | some r ↦ row_args r ++ arguments evts
  ]

  -- The placeholders, read from left to right, number the arguments one by one from `arg_pos` on.
  pub placeholders_lem :
      (arg_pos : ℕ) (evts : List E)
      → concat (rows_from kind json arg_pos evts).0
        ≡ range arg_pos (length (rows_from kind json arg_pos evts).1)
  unfolding rows_from
  placeholders_lem arg_pos [] = refl
  placeholders_lem arg_pos (e ∷ evts) =
      ground (arith, placeholders_lem arg_pos evts, placeholders_lem (arg_pos + 7) evts)

  -- The arguments are those of the events that can be marshalled, seven for each, in order.
  pub arguments_lem :
      (arg_pos : ℕ) (evts : List E) → (rows_from kind json arg_pos evts).1 ≡ arguments evts
  unfolding rows_from
  arguments_lem arg_pos [] = refl
  arguments_lem arg_pos (e ∷ evts) =
      ground (arith, arguments_lem arg_pos evts, arguments_lem (arg_pos + 7) evts)

  -- The statement of a batch: read from left to right, its placeholders are 1, 2, 3, … up to the
  -- number of its arguments, and its arguments are those of the events whose payload can be
  -- marshalled, in the batch's order.
  pub rows_from_lem :
      (evts : List E)
      → (concat (rows_from kind json 1 evts).0 ≡ range 1 (length (arguments evts)))
        × ((rows_from kind json 1 evts).1 ≡ arguments evts)
  rows_from_lem evts = (
    placeholders_lem 1 evts ∙ ap (λ xs. range 1 (length xs)) (arguments_lem 1 evts),
    arguments_lem 1 evts,
  )

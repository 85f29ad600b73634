-- ===== src/Plugins/Postgres/Journal.antt =====
-- The rows that `WriteBatch` of pkg/storage/plugins/postgres adds to a table.
use extend_game_telemetry_co.Prelude.{
  ℕ, zero, suc, ◌≡◌, Option, none, some, List, [], ◌++◌, map, get_elem?, Text, ◌⊎◌,
}
use extend_game_telemetry_co.Prelude.Int.{ℤ}
use extend_game_telemetry_co.Prelude.Result.{ok}
use extend_game_telemetry_co.Runtime.{Context}
use extend_game_telemetry_co.Plugins.{EventKind, Json}
use extend_game_telemetry_co.Plugins.Postgres.{
  Sql, PostgresPlugin, Insert, Arg, row_args, transform,
}

-- The argument of a placeholder, `$1` being the first.
abbrev pub argument : {P : Type 0} → List (Arg P) → ℕ → Option (Arg P)
argument args zero = none
argument args (suc n) = get_elem? args n

-- The row that one list of VALUES stands for: an argument for each placeholder.
abbrev pub row_of : {P : Type 0} → List (Arg P) → List ℕ → List (Option (Arg P))
row_of args places = map (argument args) places

-- Rows of a table.
abbrev pub Rows : Type 0 → Type 0
Rows P = List (List (Option (Arg P)))

-- What a database does with the statements that it takes: a transaction begins with no work, an
-- INSERT that succeeds adds its rows to it, and a commit that succeeds brings its rows into the
-- tables, one that fails nothing. It may refuse any of these. `stored` are the rows of a table,
-- `pending` those that a transaction will add to it.
pub record IsTransactional {W Tx P : Type 0} (sql : Sql W Tx P) (stored : Text → W → Rows P)
    (pending : Text → Tx → Rows P) : Type 0 where
  pub begins :
      (ctx : Context) (w : W) (tx : Tx)
      → sql.begin_tx ctx w ≡ ok tx
      → (table : Text) → pending table tx ≡ []
  pub inserts :
      (ctx : Context) (statement : Insert) (args : List (Arg P)) (tx tx' : Tx) (n : ℤ)
      → sql.exec ctx statement args tx ≡ ok (n, tx')
      → pending statement.table tx'
        ≡ pending statement.table tx ++ map (row_of args) statement.values
  pub commits :
      (table : Text) (tx : Tx) (w : W)
      → (sql.commit tx w).0 ≡ none
      → stored table (sql.commit tx w).1 ≡ stored table w ++ pending table tx
  pub refuses :
      (table : Text) (tx : Tx) (w : W) (failure : Text)
      → (sql.commit tx w).0 ≡ some failure
      → stored table (sql.commit tx w).1 ≡ stored table w

module _ {E P : Type 0} (kind : EventKind E P) (json : Json P) where
  -- The row of an event, if its payload can be marshalled.
  abbrev pub stored_as : E → Option (List (Option (Arg P)))
  stored_as e = elim (transform kind json e) [
    | none ↦ none
    | some r ↦ some (map (λ a. some a) (row_args r))
  ]

  -- The rows that a statement with these parts stands for, after other arguments.
  abbrev rows_after : List (Arg P) → List (List ℕ) × List (Arg P) → Rows P
  rows_after before rows = map (row_of (before ++ rows.1)) rows.0

module _ {W Tx E P : Type 0} (sql : Sql W Tx P) (kind : EventKind E P) (json : Json P)
    {stored : Text → W → Rows P} {pending : Text → Tx → Rows P}
    (transactional : IsTransactional sql stored pending) where
  -- Success, with these rows added to the plugin's table, or an error, with none.
  abbrev pub Adds : Rows P → PostgresPlugin W → (ℤ × Option Text) × PostgresPlugin W → Type 0
  Adds rows p outcome =
      ((outcome.0.1 ≡ none)
        × (stored p.cfg.table outcome.1.database ≡ stored p.cfg.table p.database ++ rows))
      ⊎ ((failure : Text) × (outcome.0.1 ≡ some failure)
          × (stored p.cfg.table outcome.1.database ≡ stored p.cfg.table p.database))

-- ===== src/Plugins/Postgres/Atomicity.antt =====
-- `WriteBatch` of pkg/storage/plugins/postgres is all or nothing.
use extend_game_telemetry_co.Prelude.{◌≡◌, true, Option, none, some, List, Text, is_empty, ◌⊎◌}
use extend_game_telemetry_co.Prelude.Int.{ℤ, pos}
use extend_game_telemetry_co.Prelude.Result.{Result, ok, err}
use extend_game_telemetry_co.Runtime.{Context}
use extend_game_telemetry_co.Plugins.{EventKind, Json}
use extend_game_telemetry_co.Plugins.Postgres.{Sql, PostgresPlugin, rows_from}

module _ {W Tx E P : Type 0} (sql : Sql W Tx P) (kind : EventKind E P) (json : Json P) where
  -- The one statement of a batch.
  abbrev pub inserted : Context → List E → PostgresPlugin W → Tx → Result Text (ℤ × Tx)
  inserted ctx evts p begun =
      sql.exec ctx (record { table = p.cfg.table; values = (rows_from kind json 1 evts).0 })
        (rows_from kind json 1 evts).1 begun

  -- Why a batch does not come to its commit.
  abbrev pub IsUnwritten : Context → List E → PostgresPlugin W → Type 0
  IsUnwritten ctx evts p =
      ((failure : Text) × (sql.begin_tx ctx p.database ≡ err failure))
      ⊎ ((is_empty (rows_from kind json 1 evts).0 ≡ true)
          ⊎ ((begun : Tx) × (failure : Text) × (sql.begin_tx ctx p.database ≡ ok begun)
              × (inserted ctx evts p begun ≡ err failure)))

  -- The commit of a statement, and the answer by its error.
  abbrev pub IsCommitted :
      Result Text (ℤ × Tx) → PostgresPlugin W → (ℤ × Option Text) × PostgresPlugin W → Type 0
  IsCommitted ran p outcome =
      (affected : ℤ) × (tx : Tx) × (ran ≡ ok (affected, tx))
      × (outcome.1 ≡ record p { database = (sql.commit tx p.database).1 })
      × ((((sql.commit tx p.database).0 ≡ none) × (outcome.0 ≡ (affected, none)))
          ⊎ ((failure answer : Text) × ((sql.commit tx p.database).0 ≡ some failure)
              × (outcome.0 ≡ (pos 0, some answer))))

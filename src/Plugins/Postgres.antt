-- ===== src/Plugins/Postgres.antt =====
-- pkg/storage/plugins/postgres: events as rows of a table, a batch as one INSERT in a transaction.
-- `database/sql` is a parameter. A statement is its table and the placeholder numbers of its
-- VALUES, the parts that the source prints into its text; `CREATE TABLE` is its table name and columns.
pub mod Placeholders
pub mod Atomicity
pub mod Journal
use extend_game_telemetry_co.Prelude.{
  ℕ, ◌+◌, ◌++◌, ◌*◌, ◌/◌, Bool, true, false, Option, none, some, List, [], ◌∷◌, Text, codes,
  is_empty, ltb, if◌then◌else◌,
}
use extend_game_telemetry_co.Prelude.Int.{ℤ, pos, leb_ℤ, pos_part}
use extend_game_telemetry_co.Prelude.Result.{Result, ok, err}
use extend_game_telemetry_co.Runtime.{Context}
use extend_game_telemetry_co.Storage.{Error, StoragePlugin, wrap_error}
use extend_game_telemetry_co.Events.{Value, Document, field_of}
use extend_game_telemetry_co.Events.Gameplay.{GameplayEvent, CreateGameplayTelemetryRequest}
use extend_game_telemetry_co.Events.Performance.{
  PerformanceEvent, CreatePerformanceTelemetryRequest,
}
use extend_game_telemetry_co.Events.UserBehavior.{
  UserBehaviorEvent, CreateUserBehaviorTelemetryRequest,
}
use extend_game_telemetry_co.Plugins.{
  EventKind, Json, gameplay_kind, performance_kind, user_behavior_kind,
}

-- An argument of a statement: a document's member, nil if it has none, or JSON text.
pub data Arg (P : Type 0) : Type 0 where
  member : Option (Value P) → Arg P
  json_text : Text → Arg P

-- `INSERT INTO <table> (…) VALUES ($1,…,$7),($8,…,$14),…`
pub record Insert : Type 0 where
  pub table : Text
  pub values : List (List ℕ)

-- The types of the columns, as `createTableIfNotExists` writes them.
pub data ColumnType : Type 0 where
  bigserial_primary_key big_int json_b timestamp_now : ColumnType
  varchar : ℕ → ColumnType

pub record Column : Type 0 where
  pub name : Text
  pub type_of : ColumnType
  pub not_null : Bool

abbrev column : Text → ColumnType → Bool → Column
column name type_of not_null = record { name = name; type_of = type_of; not_null = not_null }

-- The table that `CREATE TABLE` asks for; its indexes are left out.
abbrev columns : List Column
columns =
    column (codes "id") bigserial_primary_key true
    ∷ column (codes "namespace") (varchar 255) true
    ∷ column (codes "user_id") (varchar 255) true
    ∷ column (codes "event_id") (varchar 255) true
    ∷ column (codes "timestamp") (varchar 255) false
    ∷ column (codes "server_timestamp") big_int true
    ∷ column (codes "payload") json_b true
    ∷ column (codes "source_ip") (varchar 45) false
    ∷ column (codes "created_at") timestamp_now false
    ∷ []

-- The database client, over the database `W` and an open transaction `Tx`, whose work reaches the
-- database with `commit` alone. `open_db` takes the largest numbers of open and idle connections.
pub record Sql (W Tx P : Type 0) : Type 0 where
  pub open_db : Text → ℕ → ℕ → W → Error × W
  pub ping : Context → W → Error
  pub create_table : Context → Text → List Column → W → Error × W
  pub begin_tx : Context → W → Result Text Tx
  pub exec : Context → Insert → List (Arg P) → Tx → Result Text (ℤ × Tx)
  pub commit : Tx → W → Error × W
  pub close : W → Error × W

pub record PluginConfig : Type 0 where
  pub dsn : Text
  pub table : Text
  pub workers : ℤ

-- The plugin object: its configuration, whether `p.db` is set, and the database that it reaches.
pub record PostgresPlugin (W : Type 0) : Type 0 where
  pub cfg : PluginConfig
  pub connected : Bool
  pub database : W

-- What `transform` returns.
pub record Row (P : Type 0) : Type 0 where
  pub namespace : Option (Value P)
  pub user_id : Option (Value P)
  pub event_id : Option (Value P)
  pub timestamp : Option (Value P)
  pub server_timestamp : Option (Value P)
  pub payload : Text
  pub source_ip : Option (Value P)

abbrev pub row_args : {P : Type 0} → Row P → List (Arg P)
row_args r =
    member r.namespace
    ∷ member r.user_id
    ∷ member r.event_id
    ∷ member r.timestamp
    ∷ member r.server_timestamp
    ∷ json_text r.payload
    ∷ member r.source_ip
    ∷ []

abbrev pub row_places : ℕ → List ℕ
row_places n = n ∷ (n + 1) ∷ (n + 2) ∷ (n + 3) ∷ (n + 4) ∷ (n + 5) ∷ (n + 6) ∷ []

module _ {E P : Type 0} (kind : EventKind E P) (json : Json P) where
  unfoldable pub transform : E → Option (Row P)
  transform e =
      let doc = kind.to_document e in
      elim (json.marshal (field_of (codes "payload") doc)) [
        | none ↦ none
        | some payload_json ↦ some (record {
          namespace = field_of (codes "namespace") doc;
          user_id = field_of (codes "user_id") doc;
          event_id = field_of (codes "event_id") doc;
          timestamp = field_of (codes "timestamp") doc;
          server_timestamp = field_of (codes "server_timestamp") doc;
          payload = payload_json;
          source_ip = field_of (codes "source_ip") doc;
        })
      ]

  -- The loop over the events: `valueStrings` and `valueArgs`, from `argPos` on.
  unfoldable pub rows_from : ℕ → List E → List (List ℕ) × List (Arg P)
  rows_from arg_pos [] = ([], [])
  rows_from arg_pos (e ∷ evts) = elim (transform e) [
    | none ↦ rows_from arg_pos evts
    | some r ↦
        let rest = rows_from (arg_pos + 7) evts in
        (row_places arg_pos ∷ rest.0, row_args r ++ rest.1)
  ]

module _ {W Tx E P : Type 0} (sql : Sql W Tx P) (kind : EventKind E P) (json : Json P) where
  -- `NewGameplayPlugin` and its siblings.
  unfoldable pub new_plugin : PluginConfig → W → PostgresPlugin W
  new_plugin cfg w = record {
    cfg = record {
      dsn = cfg.dsn;
      table = if is_empty cfg.table then kind.default_table else cfg.table;
      workers = if leb_ℤ cfg.workers (pos 0) then pos 2 else cfg.workers;
    };
    connected = false;
    database = w;
  }

  abbrev pub max_open_conns : PluginConfig → ℕ
  max_open_conns cfg = let twice = pos_part cfg.workers * 2 in if ltb twice 10 then 10 else twice

  abbrev after_ping : Context → PostgresPlugin W → Error × PostgresPlugin W
  after_ping ctx p =
      let made = sql.create_table ctx p.cfg.table columns p.database in
      (
        wrap_error (codes "failed to create table " ++ p.cfg.table ++ codes ": ") made.0,
        record p { connected = true; database = made.1 },
      )

  abbrev after_open : Context → PostgresPlugin W → Error → Error × PostgresPlugin W
  after_open ctx p (some failure) = (some (codes "failed to open database: " ++ failure), p)
  after_open ctx p none = elim (sql.ping ctx p.database) [
    | some failure ↦ (some (codes "failed to ping database: " ++ failure), p)
    | none ↦ after_ping ctx p
  ]

  unfoldable pub initialize : Context → PostgresPlugin W → Error × PostgresPlugin W
  initialize ctx p =
      if is_empty p.cfg.dsn
      then (some (codes "postgres DSN is required"), p)
      else let opened =
          sql.open_db p.cfg.dsn (max_open_conns p.cfg) (max_open_conns p.cfg / 2) p.database in
        after_open ctx (record p { database = opened.1 }) opened.0

  unfoldable pub filter : PostgresPlugin W → E → Bool
  filter p e = true

  -- The end of `WriteBatch`: a transaction that is not committed is rolled back.
  abbrev pub commit_rows : Result Text (ℤ × Tx) → PostgresPlugin W → (ℤ × Error) × PostgresPlugin W
  commit_rows (err failure) p = ((pos 0, some (codes "failed to insert events: " ++ failure)), p)
  commit_rows (ok (affected, tx)) p =
      let done = sql.commit tx p.database in
      let p' = record p { database = done.1 } in
      elim (done.0) [
        | some failure ↦ ((pos 0, some (codes "failed to commit transaction: " ++ failure)), p')
        | none ↦ ((affected, none), p')
      ]

  abbrev pub insert_rows :
      Context
      → List (List ℕ) × List (Arg P)
      → Tx
      → PostgresPlugin W
      → (ℤ × Error) × PostgresPlugin W
  insert_rows ctx rows tx p =
      if is_empty rows.0
      then ((pos 0, some (codes "all events failed transformation")), p)
      else commit_rows (sql.exec ctx (record { table = p.cfg.table; values = rows.0 }) rows.1 tx) p

  unfoldable pub write_batch : Context → List E → PostgresPlugin W → (ℤ × Error) × PostgresPlugin W
  write_batch ctx evts p =
      if is_empty evts then ((pos 0, none), p) else elim (sql.begin_tx ctx p.database) [
        | err failure ↦ ((pos 0, some (codes "failed to begin transaction: " ++ failure)), p)
        | ok tx ↦ insert_rows ctx (rows_from kind json 1 evts) tx p
      ]

  unfoldable pub close : PostgresPlugin W → Error × PostgresPlugin W
  close p =
      if p.connected
      then (let shut = sql.close p.database in (shut.0, record p { database = shut.1 }))
      else (none, p)

  unfoldable pub health_check : Context → PostgresPlugin W → Error
  health_check ctx p = sql.ping ctx p.database

  unfoldable pub plugin : StoragePlugin (PostgresPlugin W) E
  unfolding initialize filter write_batch close health_check
  plugin = record {
    name = codes "postgres:" ++ kind.label;
    initialize = initialize;
    filter = filter;
    write_batch = write_batch;
    close = close;
    health_check = health_check;
  }

-- The three plugins.
unfoldable pub gameplay_plugin :
    {W Tx : Type 0}
    → Sql W Tx CreateGameplayTelemetryRequest
    → Json CreateGameplayTelemetryRequest
    → StoragePlugin (PostgresPlugin W) GameplayEvent
gameplay_plugin sql json = plugin sql gameplay_kind json

unfoldable pub performance_plugin :
    {W Tx : Type 0}
    → Sql W Tx CreatePerformanceTelemetryRequest
    → Json CreatePerformanceTelemetryRequest
    → StoragePlugin (PostgresPlugin W) PerformanceEvent
performance_plugin sql json = plugin sql performance_kind json

unfoldable pub user_behavior_plugin :
    {W Tx : Type 0}
    → Sql W Tx CreateUserBehaviorTelemetryRequest
    → Json CreateUserBehaviorTelemetryRequest
    → StoragePlugin (PostgresPlugin W) UserBehaviorEvent
user_behavior_plugin sql json = plugin sql user_behavior_kind json

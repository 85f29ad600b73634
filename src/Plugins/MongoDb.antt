-- ===== src/Plugins/MongoDb.antt =====
-- pkg/storage/plugins/mongodb: events as documents of a collection, a batch as one unordered insert.
-- The client is a parameter, and so is the JSON round trip of a payload, which makes it a map `B`.
pub mod Journal
use extend_game_telemetry_co.Prelude.{
  ℕ, ◌*◌, ◌++◌, Bool, true, false, Option, none, some, List, [], ◌∷◌, Text, codes, text_eq,
  is_empty, length, ltb, if◌then◌else◌, map,
}
use extend_game_telemetry_co.Prelude.Int.{ℤ, pos, leb_ℤ, pos_part}
use extend_game_telemetry_co.Prelude.Result.{Result, ok, err}
use extend_game_telemetry_co.Runtime.{Context, background}
use extend_game_telemetry_co.Storage.{Error, StoragePlugin, wrap_error}
use extend_game_telemetry_co.Events.{Value, Document, field_of}
use extend_game_telemetry_co.Events.Gameplay.{GameplayEvent, CreateGameplayTelemetryRequest}
use extend_game_telemetry_co.Events.Performance.{
  PerformanceEvent, CreatePerformanceTelemetryRequest,
}
use extend_game_telemetry_co.Events.UserBehavior.{
  UserBehaviorEvent, CreateUserBehaviorTelemetryRequest,
}
use extend_game_telemetry_co.Plugins.{
  EventKind, gameplay_kind, performance_kind, user_behavior_kind,
}

pub record PluginConfig : Type 0 where
  pub uri : Text
  pub database : Text
  pub collection : Text
  pub workers : ℤ

-- A member of a BSON document: one of the flat document's, the payload's map, or the time of the
-- transformation.
pub data Member (P B : Type 0) : Type 0 where
  flat : Value P → Member P B
  payload_map : B → Member P B
  time : ℤ → Member P B

abbrev pub Bson : Type 0 → Type 0 → Type 0
Bson P B = List (Text × Member P B)

-- The client, over the remote store `W`. `insert_many` returns the number of inserted ids, if there
-- is a result, with its error. `create_indexes` makes the three indexes of the source, and one
-- reading of `now` stands for those of a batch. `round_trip` is `json.Marshal` and then
-- `json.Unmarshal`.
pub record MongoClient (W P B : Type 0) : Type 0 where
  pub connect : Context → Text → ℕ → W → Error × W
  pub ping : Context → W → Error
  pub disconnect : Context → W → Error × W
  pub create_indexes : Context → Text → Text → W → Error × W
  pub insert_many : Context → Text → Text → List (Bson P B) → W → (Option ℕ × Error) × W
  pub now : W → ℤ
  pub round_trip : Value P → Option B

pub record MongoPlugin (W : Type 0) : Type 0 where
  pub cfg : PluginConfig
  pub connected : Bool
  pub remote : W

abbrev or_default : Text → Text → Text
or_default text default = if is_empty text then default else text

-- `flat["payload"] = payloadMap`
abbrev pub with_payload : {P B : Type 0} → B → Document P → Bson P B
with_payload b [] = []
with_payload b ((k, v) ∷ doc) =
    let rest = with_payload b doc in
    if text_eq k (codes "payload") then (k, payload_map b) ∷ rest else (k, flat v) ∷ rest

-- `len(result.InsertedIDs)`, or 0 without a result.
abbrev pub inserted_count : Option ℕ → ℤ
inserted_count none = pos 0
inserted_count (some n) = pos n

module _ {W E P B : Type 0} (client : MongoClient W P B) (kind : EventKind E P) where
  unfoldable pub new_plugin : PluginConfig → W → MongoPlugin W
  new_plugin cfg w = record {
    cfg = record {
      uri = cfg.uri;
      database = or_default cfg.database (codes "telemetry");
      collection = or_default cfg.collection kind.default_table;
      workers = if leb_ℤ cfg.workers (pos 0) then pos 2 else cfg.workers;
    };
    connected = false;
    remote = w;
  }

  abbrev pub pool_size : PluginConfig → ℕ
  pool_size cfg = let twice = pos_part cfg.workers * 2 in if ltb twice 10 then 10 else twice

  abbrev after_connect : Context → MongoPlugin W → Error → Error × MongoPlugin W
  after_connect ctx p (some failure) = (some (codes "failed to connect to mongodb: " ++ failure), p)
  after_connect ctx p none = elim (client.ping ctx p.remote) [
    | some failure ↦ (
      some (codes "failed to ping mongodb: " ++ failure),
      record p { remote = (client.disconnect ctx p.remote).1 },
    )
    | none ↦
        let made = client.create_indexes ctx p.cfg.database p.cfg.collection p.remote in
        (
          wrap_error (codes "failed to create indexes on " ++ p.cfg.collection ++ codes ": ")
              made.0,
          record p { connected = true; remote = made.1 },
        )
  ]

  unfoldable pub initialize : Context → MongoPlugin W → Error × MongoPlugin W
  initialize ctx p =
      if is_empty p.cfg.uri
      then (some (codes "mongodb URI is required"), p)
      else let made = client.connect ctx p.cfg.uri (pool_size p.cfg) p.remote in
        after_connect ctx (record p { remote = made.1 }) made.0

  unfoldable pub filter : MongoPlugin W → E → Bool
  filter p e = true

  -- A document whose payload cannot be converted is an error.
  unfoldable pub transform : ℤ → E → Option (Bson P B)
  transform now e =
      let doc = kind.to_document e in
      let created : Text × Member P B = (codes "created_at", time now) in
      elim (field_of (codes "payload") doc) [
        | none ↦ some (created ∷ map (λ (member : Text × Value P). (member.0, flat member.1)) doc)
        | some v ↦ elim (client.round_trip v) [
          | none ↦ none
          | some b ↦ some (created ∷ with_payload b doc)
        ]
      ]

  -- The loop over the events: those that cannot be converted are skipped.
  unfoldable pub documents_of : ℤ → List E → List (Bson P B)
  documents_of now [] = []
  documents_of now (e ∷ evts) = elim (transform now e) [
    | none ↦ documents_of now evts
    | some doc ↦ doc ∷ documents_of now evts
  ]

  abbrev pub insert : Context → List (Bson P B) → MongoPlugin W → (ℤ × Error) × MongoPlugin W
  insert ctx documents p =
      let sent = client.insert_many ctx p.cfg.database p.cfg.collection documents p.remote in
      ((inserted_count sent.0.0, sent.0.1), record p { remote = sent.1 })

  unfoldable pub write_batch : Context → List E → MongoPlugin W → (ℤ × Error) × MongoPlugin W
  write_batch ctx evts p =
      let documents = documents_of (client.now p.remote) evts in
      if is_empty evts
      then ((pos 0, none), p)
      else if is_empty documents
      then ((pos 0, none), p)
      else insert ctx documents p

  unfoldable pub close : MongoPlugin W → Error × MongoPlugin W
  close p =
      if p.connected
      then (let shut = client.disconnect background p.remote in
          (shut.0, record p { remote = shut.1 }))
      else (none, p)

  unfoldable pub health_check : Context → MongoPlugin W → Error
  health_check ctx p = client.ping ctx p.remote

  unfoldable pub plugin : StoragePlugin (MongoPlugin W) E
  unfolding initialize filter write_batch close health_check
  plugin = record {
    name = codes "mongodb:" ++ kind.label;
    initialize = initialize;
    filter = filter;
    write_batch = write_batch;
    close = close;
    health_check = health_check;
  }

-- The three plugins.
unfoldable pub gameplay_plugin :
    {W B : Type 0}
    → MongoClient W CreateGameplayTelemetryRequest B
    → StoragePlugin (MongoPlugin W) GameplayEvent
gameplay_plugin client = plugin client gameplay_kind

unfoldable pub performance_plugin :
    {W B : Type 0}
    → MongoClient W CreatePerformanceTelemetryRequest B
    → StoragePlugin (MongoPlugin W) PerformanceEvent
performance_plugin client = plugin client performance_kind

unfoldable pub user_behavior_plugin :
    {W B : Type 0}
    → MongoClient W CreateUserBehaviorTelemetryRequest B
    → StoragePlugin (MongoPlugin W) UserBehaviorEvent
user_behavior_plugin client = plugin client user_behavior_kind

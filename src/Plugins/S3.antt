-- ===== src/Plugins/S3.antt =====
-- pkg/storage/plugins/s3: a batch as one JSON object. The AWS client, its configuration loader,
-- `json.MarshalIndent` and the clock are parameters. The key of an object is a record of the parts
-- that the source prints into its text.
pub mod Objects
use extend_game_telemetry_co.Prelude.{
  ℕ, ◌++◌, Bool, true, false, Option, none, some, List, [], ◌∷◌, Text, codes, is_empty, length, map,
  if◌then◌else◌,
}
use extend_game_telemetry_co.Prelude.Int.{ℤ, pos}
use extend_game_telemetry_co.Prelude.Result.{Result, ok, err}
use extend_game_telemetry_co.Runtime.{Context}
use extend_game_telemetry_co.Storage.{Error, StoragePlugin, wrap_error}
use extend_game_telemetry_co.Events.{Document}
use extend_game_telemetry_co.Events.Gameplay.{GameplayEvent, CreateGameplayTelemetryRequest}
use extend_game_telemetry_co.Events.Performance.{
  PerformanceEvent, CreatePerformanceTelemetryRequest,
}
use extend_game_telemetry_co.Events.UserBehavior.{
  UserBehaviorEvent, CreateUserBehaviorTelemetryRequest,
}
use extend_game_telemetry_co.Plugins.{
  EventKind, gameplay_kind, performance_kind, user_behavior_kind,
}

pub record PluginConfig : Type 0 where
  pub bucket : Text
  pub prefix : Text
  pub region : Text
  pub endpoint : Text

-- What the source reads of `time.Now().UTC()`.
pub record UtcTime : Type 0 where
  pub year : ℤ
  pub month : ℕ
  pub day : ℕ
  pub unix_milli : ℤ

-- `{prefix}/{kind}/{namespace}/year=YYYY/month=MM/day=DD/{ts}.json`
pub record ObjectKey : Type 0 where
  pub prefix : Text
  pub label : Text
  pub namespace : Text
  pub year : ℤ
  pub month : ℕ
  pub day : ℕ
  pub unix_milli : ℤ

pub record PutObjectInput : Type 0 where
  pub bucket : Text
  pub key : ObjectKey
  pub body : Text
  pub content_type : Text
  pub namespace : Text
  pub event_count : ℕ
  pub created_at : UtcTime

-- The client, over the remote store `W`. `set_up` loads the configuration of a region and sets the
-- custom endpoint, with path-style addresses, if there is one.
pub record S3Client (W P : Type 0) : Type 0 where
  pub set_up : Context → Text → Option Text → W → Error × W
  pub now : W → UtcTime
  pub marshal_indent : List (Document P) → Result Text Text
  pub put_object : Context → PutObjectInput → W → Error × W
  pub head_bucket : Context → Text → W → Error

pub record S3Plugin (W : Type 0) : Type 0 where
  pub cfg : PluginConfig
  pub remote : W

-- `if text == "" { text = default }`
abbrev or_default : Text → Text → Text
or_default text default = if is_empty text then default else text

-- `evts[0].Namespace`, read only of a batch that is not empty.
abbrev pub first_namespace : {E : Type 0} → (E → Text) → List E → Text
first_namespace namespace [] = []
first_namespace namespace (e ∷ evts) = namespace e

module _ {W E P : Type 0} (client : S3Client W P) (kind : EventKind E P) where
  unfoldable pub new_plugin : PluginConfig → W → S3Plugin W
  new_plugin cfg w = record {
    cfg = record cfg {
      prefix = or_default cfg.prefix (codes "telemetry");
      region = or_default cfg.region (codes "us-east-1");
    };
    remote = w;
  }

  unfoldable pub initialize : Context → S3Plugin W → Error × S3Plugin W
  initialize ctx p =
      if is_empty p.cfg.bucket
      then (some (codes "s3 bucket is required"), p)
      else let endpoint = if is_empty p.cfg.endpoint then none else some p.cfg.endpoint in
        let made = client.set_up ctx p.cfg.region endpoint p.remote in
        (wrap_error (codes "failed to load AWS config: ") made.0, record p { remote = made.1 })

  unfoldable pub filter : S3Plugin W → E → Bool
  filter p e = true

  -- The upload of a batch whose documents are marshalled.
  unfoldable pub object_of : List E → Text → S3Plugin W → PutObjectInput
  object_of evts body p =
      let now = client.now p.remote in
      let namespace = first_namespace kind.namespace evts in
      record {
        bucket = p.cfg.bucket;
        key = record {
          prefix = p.cfg.prefix;
          label = kind.label;
          namespace = namespace;
          year = now.year;
          month = now.month;
          day = now.day;
          unix_milli = now.unix_milli;
        };
        body = body;
        content_type = codes "application/json";
        namespace = namespace;
        event_count = length (map kind.to_document evts);
        created_at = now;
      }

  abbrev pub upload : Context → List E → Text → S3Plugin W → (ℤ × Error) × S3Plugin W
  upload ctx evts body p =
      let sent = client.put_object ctx (object_of evts body p) p.remote in
      let p' = record p { remote = sent.1 } in
      elim (sent.0) [
        | some failure ↦ ((pos 0, some (codes "failed to upload to S3: " ++ failure)), p')
        | none ↦ ((pos (length (map kind.to_document evts)), none), p')
      ]

  unfoldable pub write_batch : Context → List E → S3Plugin W → (ℤ × Error) × S3Plugin W
  write_batch ctx evts p =
      if is_empty evts
      then ((pos 0, none), p)
      else elim (client.marshal_indent (map kind.to_document evts)) [
        | err failure ↦ ((pos 0, some (codes "failed to marshal events: " ++ failure)), p)
        | ok body ↦ upload ctx evts body p
      ]

  unfoldable pub close : S3Plugin W → Error × S3Plugin W
  close p = (none, p)

  unfoldable pub health_check : Context → S3Plugin W → Error
  health_check ctx p =
      wrap_error (codes "S3 health check failed: ") (client.head_bucket ctx p.cfg.bucket p.remote)

  unfoldable pub plugin : StoragePlugin (S3Plugin W) E
  unfolding initialize filter write_batch close health_check
  plugin = record {
    name = codes "s3:" ++ kind.label;
    initialize = initialize;
    filter = filter;
    write_batch = write_batch;
    close = close;
    health_check = health_check;
  }

-- The three plugins.
unfoldable pub gameplay_plugin :
    {W : Type 0}
    → S3Client W CreateGameplayTelemetryRequest
    → StoragePlugin (S3Plugin W) GameplayEvent
gameplay_plugin client = plugin client gameplay_kind

unfoldable pub performance_plugin :
    {W : Type 0}
    → S3Client W CreatePerformanceTelemetryRequest
    → StoragePlugin (S3Plugin W) PerformanceEvent
performance_plugin client = plugin client performance_kind

unfoldable pub user_behavior_plugin :
    {W : Type 0}
    → S3Client W CreateUserBehaviorTelemetryRequest
    → StoragePlugin (S3Plugin W) UserBehaviorEvent
user_behavior_plugin client = plugin client user_behavior_kind

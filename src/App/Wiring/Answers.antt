-- ===== src/App/Wiring/Answers.antt =====
-- The first call to a service that was just deployed: internal/app/app.go, internal/server/grpc.go,
-- pkg/service/telemetry.go and pkg/processor/processor.go together.
use extend_game_telemetry_co.Prelude.{
  ℕ, ◌≡◌, ◌∙◌, refl, ap, Bool, true, Option, none, List, [], Text, All, arith, ltb, Bool-cases, inl,
  inr,
}
use extend_game_telemetry_co.Prelude.Int.{ℤ, pos}
use extend_game_telemetry_co.Prelude.Result.{Result, ok, err}
use extend_game_telemetry_co.Runtime.{Context}
use extend_game_telemetry_co.Storage.{Plugin}
use extend_game_telemetry_co.Dedup.Redis.{RedisClient, RedisConfig}
use extend_game_telemetry_co.Processor.{Processor, submit, count_duplicated, enqueue}
use extend_game_telemetry_co.Processor.Submission.{seen_before, marked, submit_cases}
use extend_game_telemetry_co.System.{System}
use extend_game_telemetry_co.Settings
use extend_game_telemetry_co.Settings.{validate_config, get_enabled_plugins}
use extend_game_telemetry_co.Auth.{
  AuthError, AuthRequirement, MethodOptions, Permission, Metadata, extract_auth_requirement,
  enforce, intercept,
}
use extend_game_telemetry_co.Service.{
  Claims, Status, TelemetryService, replied, reply_to_submit, submit_result,
  create_gameplay_telemetry, create_performance_telemetry, create_user_behavior_telemetry,
}
use extend_game_telemetry_co.Server.{
  Call, Request, user_behavior, gameplay, performance, full_method, authorization_of, auth_enabled,
  interceptors, handle, through, map_reply,
}
use extend_game_telemetry_co.Server.Callers.{built_user, map_ok}
use extend_game_telemetry_co.Server.Creation.{ValidatorSdk, new_grpc_server, validate_of}
use extend_game_telemetry_co.Bootstrap.StoragePlugins.{AllClients}
use extend_game_telemetry_co.Bootstrap.StoragePlugins.Loading.{known_names, CanOpen}
use extend_game_telemetry_co.Bootstrap.Backends.{Remotes}
use extend_game_telemetry_co.App.{namespace_of, new}
use extend_game_telemetry_co.App.Start.{IsReady, new_starts}
use extend_game_telemetry_co.App.Wiring.{
  IamSdk, IamServices, initialize_iam, new_telemetry_service, Deployment, up, failure_of, wired,
  deploy, Service,
}

-- A processor that was just started takes an event, whatever its deduplicator says.
ready-submit :
    {D S T : Type 0} (now : ℕ) (prefer_done : Bool) (e : T) {plugins : List (Plugin S T)}
    (s : System D S T)
    → IsReady plugins s
    → (p : Processor D S T) × (reply_to_submit (submit now prefer_done e s.proc)
        ≡ replied (ok tt) p)
unfolding reply_to_submit
ready-submit now prefer_done e s (n, some_worker, fresh, on, room) =
    elim (Bool-cases (seen_before now prefer_done e s.proc)) [
      | inl seen ↦
          let cases = submit_cases now prefer_done e s.proc in
          (count_duplicated s.proc, rw (cases, seen) refl)
      | inr unseen ↦
          let cases = submit_cases now prefer_done e s.proc in
          let has : ltb 0 s.proc.input_chan.capacity ≡ true = ground arith in
          (
            enqueue e (marked now prefer_done e s.proc),
            rw (cases, unseen, fresh.is_open, fresh.empty, has) refl,
          )
    ]

module _ (find_options : Text → Text → Result AuthError MethodOptions)
    (validator : Option (Text → Option Permission → Text → Option Text)) (environment : Text) where
  -- A call that the interceptor lets through.
  intercept_lets :
      {Q R : Type 0} (name : Text) (metadata : Metadata) (handler : Q → R) (request : Q)
      (requirement : AuthRequirement)
      → extract_auth_requirement find_options validator environment name ≡ ok requirement
      → enforce find_options validator environment metadata requirement ≡ ok tt
      → intercept find_options validator environment name metadata handler request
        ≡ ok (handler request)
  unfolding intercept
  intercept_lets name metadata handler request requirement read passed =
      rw (intercept, read, passed) refl

-- Every event is taken.
abbrev TakesAll : {D S T : Type 0} → ℕ → Bool → Processor D S T → Type 0
TakesAll {D} {S} {T} now prefer_done p =
    (e : T)
    → (p' : Processor D S T) × (reply_to_submit (submit now prefer_done e p) ≡ replied (ok tt) p')

-- A handler that builds an event for such a processor replies with success.
submit_result_taken :
    {D S T Q : Type 0} (now : ℕ) (prefer_done : Bool) (made : Result Status T) (user : T → Text)
    (name : Text) (p : Processor D S T) (leaves : Processor D S T → Q)
    → TakesAll now prefer_done p
    → map_ok user made ≡ ok name
    → (q : Q) × (map_reply leaves (submit_result now prefer_done made p) ≡ replied (ok tt) q)
submit_result_taken now prefer_done (ok e) user name p leaves takes h =
    let (p', taken) = takes e in (leaves p', rw (submit_result, taken, map_reply) refl)
submit_result_taken now prefer_done (err status) user name p leaves takes h = ground arith

module _ {D S D' S' D'' S'' : Type 0} (unmarshal : List ℕ → Option Claims) (now : ℕ) (now_ms : ℤ)
    (prefer_done : Bool) where
  handle_taken :
      (call : Call) (s : TelemetryService D S D' S' D'' S'') (r : Request) (user : Text)
      → TakesAll now prefer_done s.user_behavior_proc
      → TakesAll now prefer_done s.gameplay_proc
      → TakesAll now prefer_done s.performance_proc
      → built_user unmarshal s.namespace now_ms call r ≡ ok user
      → (s' : TelemetryService D S D' S' D'' S'') × (handle unmarshal now now_ms prefer_done call s
            r
          ≡ replied (ok tt) s')
  unfolding handle create_user_behavior_telemetry create_gameplay_telemetry
      create_performance_telemetry
  handle_taken call s (user_behavior req) user ub gp perf h =
      submit_result_taken now prefer_done _ (λ e. e.user_id) user s.user_behavior_proc _ ub h
  handle_taken call s (gameplay req) user ub gp perf h =
      submit_result_taken now prefer_done _ (λ e. e.user_id) user s.gameplay_proc _ gp h
  handle_taken call s (performance req) user ub gp perf h =
      submit_result_taken now prefer_done _ (λ e. e.user_id) user s.performance_proc _ perf h

  module _ (find_options : Text → Text → Result AuthError MethodOptions)
      (validator : Option (Text → Option Permission → Text → Option Text))
      (environment : Text) where
    through_taken :
        (enabled : Text) (call : Call) (s s' : TelemetryService D S D' S' D'' S'') (r : Request)
        (requirement : AuthRequirement)
        → extract_auth_requirement find_options validator environment (full_method r)
          ≡ ok requirement
        → enforce find_options validator environment (authorization_of call) requirement ≡ ok tt
        → handle unmarshal now now_ms prefer_done call s r ≡ replied (ok tt) s'
        → through unmarshal now now_ms prefer_done find_options validator environment
            (interceptors enabled)
            call
            s
            r
          ≡ ok (replied (ok tt) s')
    unfolding through interceptors
    through_taken enabled call s s' r requirement read passed h =
        let inner =
          through unmarshal now now_ms prefer_done find_options validator environment [] call s in
        let lets =
          intercept_lets find_options validator environment (full_method r) (authorization_of call)
            inner r requirement read passed in
        elim (Bool-cases (auth_enabled enabled)) [
          | inl on ↦ rw (on, lets) (ap ok h)
          | inr off ↦ rw off (ap ok h)
        ]

-- The interceptors of the server are those that the environment asks for.
unary_interceptors_lem :
    {O V : Type 0} (sdk : ValidatorSdk O V) (atoi : Text → Option ℤ) (oauth : O)
    (enabled interval : Text)
    → (new_grpc_server sdk atoi oauth enabled interval).unary_interceptors ≡ interceptors enabled
unfolding new_grpc_server interceptors
unary_interceptors_lem sdk atoi oauth enabled interval = elim (Bool-cases (auth_enabled enabled)) [
  | inl on ↦ rw on refl
  | inr off ↦ rw off refl
]

module _ {C : Type 0} {R : Remotes} (commands : RedisClient C) (fingerprint : Text → Text)
    (connect : RedisConfig → C) {O Tr Cr Rr V Tx B : Type 0} (iam : IamSdk O Tr Cr Rr)
    (sdk : ValidatorSdk O V) (atoi : Text → Option ℤ) (unmarshal : List ℕ → Option Claims) (now : ℕ)
    (now_ms : ℤ) (prefer_done : Bool)
    (find_options : Text → Text → Result AuthError MethodOptions) where
  -- The configuration passes `ValidateConfig`, its batch size is not negative, the login and the
  -- tracer's setup succeed, and each backend that is named can be initialized. Then `New` returns a
  -- service, with no panic and no error, and its first call is answered with success, whichever of
  -- the three methods it calls and whatever the deduplicator says, as long as the interceptor
  -- enforces nothing that the call does not meet, and its request and token make an event.
  pub deploy_answers :
      (clients : AllClients R Tx B) (ctx : Context) (c : Settings.Config) (k : ℕ)
      (ab_namespace enabled interval user : Text) (services : IamServices O Tr Cr Rr) (call : Call)
      (r : Request) (requirement : AuthRequirement)
      → initialize_iam iam ≡ ok services
      → validate_config c ≡ ok tt
      → c.processor.default_batch_size ≡ pos k
      → All (CanOpen clients ctx c) (known_names (get_enabled_plugins c))
      → extract_auth_requirement find_options
          (validate_of sdk
            (new_grpc_server sdk atoi services.oauth_service enabled interval).validator)
          ab_namespace
          (full_method r)
        ≡ ok requirement
      → enforce find_options
          (validate_of sdk
            (new_grpc_server sdk atoi services.oauth_service enabled interval).validator)
          ab_namespace
          (authorization_of call)
          requirement
        ≡ ok tt
      → built_user unmarshal (namespace_of ab_namespace) now_ms call r ≡ ok user
      → (d : Deployment V C R) × (deploy commands fingerprint connect iam sdk atoi clients ctx
            (ok c)
            ab_namespace
            enabled
            interval
            none
          ≡ up d)
        × (s' : Service C R) × (through unmarshal now now_ms prefer_done find_options
              (validate_of sdk d.grpc_server.validator)
              ab_namespace
              d.grpc_server.unary_interceptors
              call
              d.telemetry_svc
              r
            ≡ ok (replied (ok tt) s'))
  unfolding deploy new_telemetry_service
  deploy_answers clients ctx c k ab_namespace enabled interval user services call r requirement
        logged_in valid size can read passed built =
      let (app, plugins, launched, loaded, same_config, namespace, ub, gp, perf) =
        new_starts commands fingerprint connect clients ctx c k ab_namespace valid size can in
      let server = new_grpc_server sdk atoi services.oauth_service enabled interval in
      let service : Service C R =
        new_telemetry_service app.namespace app.user_behavior.proc app.gameplay.proc
          app.performance.proc in
      let (s', handled) =
        handle_taken unmarshal now now_ms prefer_done call service r user
          (λ e. ready-submit now prefer_done e app.user_behavior ub)
          (λ e. ready-submit now prefer_done e app.gameplay gp)
          (λ e. ready-submit now prefer_done e app.performance perf)
          (ap (λ ns. built_user unmarshal ns now_ms call r) namespace ∙ built) in
      let answered =
        through_taken unmarshal now now_ms prefer_done find_options
          (validate_of sdk server.validator) ab_namespace enabled call service s' r requirement read
          passed handled in
      (
        record { app = app; grpc_server = server; telemetry_svc = service },
        ap
              (λ login. wired commands fingerprint connect iam sdk atoi enabled interval login (
                new commands fingerprint connect clients ctx (ok c) ab_namespace (failure_of login)
                  none))
              logged_in
            ∙ ap (wired commands fingerprint connect iam sdk atoi enabled interval (ok services))
                launched,
        s',
        ap
              (λ chain.
                through unmarshal now now_ms prefer_done find_options
                  (validate_of sdk server.validator) ab_namespace chain call service r)
              (unary_interceptors_lem sdk atoi services.oauth_service enabled interval)
            ∙ answered,
      )

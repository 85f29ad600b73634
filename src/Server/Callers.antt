-- ===== src/Server/Callers.antt =====
-- Whose events the server of internal/server/grpc.go takes: the interceptor of
-- pkg/common/authServerInterceptor.go and `extractUserID` of pkg/service/telemetry.go read one token.
use extend_game_telemetry_co.Prelude.{
  ℕ, ◌≡◌, ◌∙◌, refl, sym, ap, Bool, true, ◌||◌, Option, none, some, List, [], ◌∷◌, Text, codes,
  split, trim_prefix, arith, Option-cases, inl, inr,
}
use extend_game_telemetry_co.Prelude.Int.{ℤ}
use extend_game_telemetry_co.Prelude.Result.{Result, ok, err, ◌>>=◌, bind_ok, ok-injective}
use extend_game_telemetry_co.Auth
use extend_game_telemetry_co.Auth.{
  AuthError, AuthRequirement, MethodOptions, Permission, extract_auth_requirement, get_namespace,
  intercept,
}
use extend_game_telemetry_co.Auth.Guard.{intercept-IsValidated}
use extend_game_telemetry_co.Events.Gameplay.{GameplayEvent}
use extend_game_telemetry_co.Events.Performance.{PerformanceEvent}
use extend_game_telemetry_co.Events.UserBehavior.{UserBehaviorEvent}
use extend_game_telemetry_co.Processor.{Processor}
use extend_game_telemetry_co.Service.{
  CallContext, Claims, Status, TelemetryService, Reply, replied, pending, crashed, require,
  submit_result, extract_user_id, user_of_parts, gameplay_event, performance_event,
  user_behavior_event, create_gameplay_telemetry, create_performance_telemetry,
  create_user_behavior_telemetry,
}
use extend_game_telemetry_co.Server.{
  Call, Request, user_behavior, gameplay, performance, full_method, context_of, authorization_of,
  auth_enabled, interceptors, flatten, handle, through, map_reply,
}

abbrev pub map_ok : {E A B : Type 0} → (A → B) → Result E A → Result E B
map_ok f r = r >>= λ a. ok (f a)

pub flatten_ok :
    {E A : Type 0} (r : Result E (Result E A)) (a : A) → flatten r ≡ ok a → r ≡ ok (ok a)
flatten_ok (ok r) a h = ap ok h
flatten_ok (err e) a h = ground arith

-- A success comes of an event that was built.
submit_result_made :
    {D S T : Type 0} (now : ℕ) (prefer_done : Bool) (made : Result Status T)
    (p p' : Processor D S T)
    → submit_result now prefer_done made p ≡ replied (ok tt) p'
    → (e : T) × (made ≡ ok e)
submit_result_made now prefer_done (ok e) p p' h = (e, refl)
submit_result_made now prefer_done (err status) p p' h = ground arith

map_reply_replied :
    {P Q : Type 0} (f : P → Q) (reply : Reply P) (q : Q)
    → map_reply f reply ≡ replied (ok tt) q
    → (p : P) × (reply ≡ replied (ok tt) p)
map_reply_replied f (replied (ok u) p) q h = (p, refl)
map_reply_replied f (replied (err status) p) q h = ground arith
map_reply_replied f pending q h = ground arith
map_reply_replied f crashed q h = ground arith

module _ (unmarshal : List ℕ → Option Claims) where
  -- The user id of the event that a request's handler builds.
  abbrev pub built_user : Text → ℤ → Call → Request → Result Status Text
  built_user namespace now_ms call (user_behavior req) =
      map_ok (λ (e : UserBehaviorEvent). e.user_id)
        (user_behavior_event unmarshal namespace now_ms (context_of call) req)
  built_user namespace now_ms call (gameplay req) =
      map_ok (λ (e : GameplayEvent). e.user_id)
        (gameplay_event unmarshal namespace now_ms (context_of call) req)
  built_user namespace now_ms call (performance req) =
      map_ok (λ (e : PerformanceEvent). e.user_id)
        (performance_event unmarshal namespace now_ms (context_of call) req)

  -- The user of an event that is built is the one that `extract_user_id` found.
  built :
      {A T : Type 0} (event_id : Text) (part : Option A) (message : Text) (ctx : CallContext)
      (build : Text → T) (user : T → Text) (e : T)
      → ((u : Text) → user (build u) ≡ u)
      → (require event_id part message >>= λ _. extract_user_id unmarshal ctx >>= λ u. ok (build u))
        ≡ ok e
      → extract_user_id unmarshal ctx ≡ ok (user e)
  built event_id part message ctx build user e keeps h =
      let (_, passed, found) = bind_ok (require event_id part message) _ e h in
      let (u, there, made) = bind_ok (extract_user_id unmarshal ctx) _ e found in
      there ∙ ap ok (sym (keeps u) ∙ ap user (ok-injective made))

  -- `extract_user_id` reads the token that the interceptor reads.
  extract_of_call :
      (call : Call) (authorization : Text) (rest : List Text)
      → authorization_of call ≡ some (some (authorization ∷ rest))
      → extract_user_id unmarshal (context_of call)
        ≡ user_of_parts unmarshal (split b'.' (trim_prefix authorization (codes "Bearer ")))
  unfolding extract_user_id
  extract_of_call call authorization rest h = elim (Option-cases (call.metadata)) [
    | inl hm ↦ ground arith
    | inr (md, hm) ↦
        let values : md (codes "authorization") ≡ some (authorization ∷ rest) = ground arith in
        rw (hm, values) refl
  ]

  -- A success of a handler comes of an event with a user.
  handled :
      {A T D S Q : Type 0} (now : ℕ) (prefer_done : Bool) (event_id : Text) (part : Option A)
      (message : Text) (ctx : CallContext) (build : Text → T) (user : T → Text)
      (p : Processor D S T) (leaves : Processor D S T → Q) (q : Q)
      → ((u : Text) → user (build u) ≡ u)
      → map_reply leaves (
          submit_result now prefer_done
            (require event_id part message >>= λ _.
              extract_user_id unmarshal ctx >>= λ u. ok (build u))
            p)
        ≡ replied (ok tt) q
      → (u : Text) × (extract_user_id unmarshal ctx ≡ ok u)
        × (map_ok user (
              require event_id part message >>= λ _.
              extract_user_id unmarshal ctx >>= λ u. ok (build u))
            ≡ ok u)
  handled now prefer_done event_id part message ctx build user p leaves q keeps h =
      let made = require event_id part message >>= λ _.
      extract_user_id unmarshal ctx >>= λ u. ok (build u) in
      let (p', hp) = map_reply_replied leaves (submit_result now prefer_done made p) q h in
      let (e, he) = submit_result_made now prefer_done made p p' hp in
      (user e, built event_id part message ctx build user e keeps he, ap (map_ok user) he)

  module _ (find_options : Text → Text → Result AuthError MethodOptions)
      (validator : Option (Text → Option Permission → Text → Option Text))
      (environment : Text) where
    -- The token of a call's first authorization value was accepted by the validator, and its claims
    -- name the user.
    abbrev pub IsCaller : Call → Option Permission → Text → Type 0
    IsCaller call permission user =
        (validate : Text → Option Permission → Text → Option Text) × (authorization : Text)
        × (rest : List Text) × (authorization_of call ≡ some (some (authorization ∷ rest)))
        × (validator ≡ some validate)
        × (validate (trim_prefix authorization (codes "Bearer ")) permission
              (get_namespace find_options validator environment)
            ≡ none)
        × (user_of_parts unmarshal (split b'.' (trim_prefix authorization (codes "Bearer ")))
            ≡ ok user)

  module _ {D S D' S' D'' S'' : Type 0} (now : ℕ) (now_ms : ℤ) (prefer_done : Bool) where
    -- A success of a request's handler comes of an event with a user.
    handle_user :
        (call : Call) (s s' : TelemetryService D S D' S' D'' S'') (req : Request)
        → handle unmarshal now now_ms prefer_done call s req ≡ replied (ok tt) s'
        → (user : Text) × (extract_user_id unmarshal (context_of call) ≡ ok user)
          × (built_user s.namespace now_ms call req ≡ ok user)
    unfolding handle create_user_behavior_telemetry create_gameplay_telemetry
        create_performance_telemetry user_behavior_event gameplay_event performance_event
    handle_user call s s' (user_behavior req) h =
        handled now prefer_done req.event_id req.user (codes "user is required") (context_of call) _
          (λ x. x.user_id) s.user_behavior_proc _ s' (λ u. refl) h
    handle_user call s s' (gameplay req) h =
        handled now prefer_done req.event_id req.game_data (codes "data is required")
          (context_of call) _ (λ x. x.user_id) s.gameplay_proc _ s' (λ u. refl) h
    handle_user call s s' (performance req) h =
        handled now prefer_done req.event_id req.metrics (codes "metrics is required")
          (context_of call) _ (λ x. x.user_id) s.performance_proc _ s' (λ u. refl) h

    module _ (find_options : Text → Text → Result AuthError MethodOptions)
        (validator : Option (Text → Option Permission → Text → Option Text))
        (environment : Text) where
      -- With authorization enabled, a success of a call whose method requires a token or a
      -- permission means: the validator accepted the token of the call's first authorization value
      -- for that permission and the namespace, and the event that was built has the user whom the
      -- claims of that same token name.
      pub through-IsCaller :
          (enabled : Text) (call : Call) (s s' : TelemetryService D S D' S' D'' S'') (req : Request)
          (requirement : AuthRequirement)
          → auth_enabled enabled ≡ true
          → extract_auth_requirement find_options validator environment (full_method req)
            ≡ ok requirement
          → (requirement.require_token
              || Auth.is_some find_options validator environment requirement.permission)
            ≡ true
          → through unmarshal now now_ms prefer_done find_options validator environment
              (interceptors enabled)
              call
              s
              req
            ≡ ok (replied (ok tt) s')
          → (user : Text) × (built_user s.namespace now_ms call req ≡ ok user)
            × IsCaller find_options validator environment call requirement.permission user
      unfolding through interceptors
      through-IsCaller enabled call s s' req requirement on read needed h =
          let handler =
            through unmarshal now now_ms prefer_done find_options validator environment [] call s in
          let step : through unmarshal now now_ms prefer_done find_options validator environment
                (interceptors enabled) call s req
              ≡ flatten (
                  intercept find_options validator environment (full_method req)
                    (authorization_of call) handler req) =
            rw on refl in
          let ran = flatten_ok _ (replied (ok tt) s') (sym step ∙ h) in
          let (same, (validate, authorization, rest, there, value, valid)) =
            intercept-IsValidated find_options validator environment (full_method req)
              (authorization_of call) handler req (ok (replied (ok tt) s')) requirement ran read
              needed in
          let (user, found, made) = handle_user call s s' req (ok-injective (sym same)) in
          (
            user,
            made,
            (
              validate,
              authorization,
              rest,
              value,
              there,
              valid,
              sym (extract_of_call call authorization rest value) ∙ found,
            ),
          )

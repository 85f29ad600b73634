-- ===== src/Server/Transcoding/Refusals.antt =====
-- What a request that fails leaves behind: pkg/pb/service.pb.gw.go with the server of
-- internal/server/grpc.go and the handlers of pkg/service/telemetry.go.
use mathlib.Core.Path.{subst}
use extend_game_telemetry_co.Prelude.{
  ℕ, ◌≡◌, ◌∙◌, ◌⊎◌, refl, sym, ap, Option, none, some, List, [], ◌∷◌, Text, codes, arith, inl, inr,
  Bool,
}
use extend_game_telemetry_co.Prelude.Int.{ℤ}
use extend_game_telemetry_co.Prelude.Result.{Result, ok, err, Result-cases, ok-injective}
use extend_game_telemetry_co.Auth.{AuthError, MethodOptions, Permission}
use extend_game_telemetry_co.Auth.Guard.{intercept_reply}
use extend_game_telemetry_co.Processor.{
  Processor, Progress, moved, queued, returned, blocked, panicked, submit,
}
use extend_game_telemetry_co.Service.{
  Claims, Status, internal, TelemetryService, Reply, replied, pending, crashed, submit_result,
  reply_to_submit, create_gameplay_telemetry, create_performance_telemetry,
  create_user_behavior_telemetry,
}
use extend_game_telemetry_co.Server.{
  Call, Request, user_behavior, gameplay, performance, Interceptor, metrics, logging, auth,
  interceptors, full_method, authorization_of, handle, through, map_reply,
}
use extend_game_telemetry_co.Server.Callers.{flatten_ok}
use extend_game_telemetry_co.Server.Transcoding.Successes.{interrupted_returned}
use extend_game_telemetry_co.Server.Transcoding.{
  HttpRequest, Marshaler, CallError, unavailable, refused, GatewayError, bad_context, Called, Route,
  Answer, called, unrouted, page, call_with, call_error, map_error, handler_of, read_user_behavior,
  read_gameplay, read_performance, register_service_handler_client, route, respond, serve_http,
  called_of, client_of, Connected, request_create_user_behavior_telemetry,
  request_create_gameplay_telemetry, request_create_performance_telemetry,
}
use extend_game_telemetry_co.Server.Transcoding

-- The status of an event that was refused by its processor.
abbrev pub not_processed : Status
not_processed = record { code = internal; message = codes "failed to process telemetry event" }

pub returned_state :
    {E W : Type 0} {e e' : E} {w w' : W}
    → ◌≡◌ {A = Called E W} (Transcoding.returned (err e) w) (Transcoding.returned (err e') w')
    → w' ≡ w
returned_state h = cc

-- A reply that is an error leaves the state as it was, or comes of the processor.
abbrev Keeps : {P : Type 0} → P → Reply P → Type 0
Keeps p (replied (err status) p') = (p' ≡ p) ⊎ (status ≡ not_processed)
Keeps p (replied (ok u) p') = Unit
Keeps p pending = Unit
Keeps p crashed = Unit

reply_to_submit-Keeps :
    {D S T : Type 0} (p : Processor D S T) (o : Progress D S T) → Keeps p (reply_to_submit o)
unfolding reply_to_submit
reply_to_submit-Keeps p (moved _ _) = tt
reply_to_submit-Keeps p (queued _) = tt
reply_to_submit-Keeps p (returned none _) = tt
reply_to_submit-Keeps p (returned (some _) _) = inr refl
reply_to_submit-Keeps p blocked = tt
reply_to_submit-Keeps p panicked = tt

submit_result-Keeps :
    {D S T : Type 0} (now : ℕ) (prefer_done : Bool) (made : Result Status T) (p : Processor D S T)
    → Keeps p (submit_result now prefer_done made p)
submit_result-Keeps now prefer_done (err status) p = inl refl
submit_result-Keeps now prefer_done (ok e) p = reply_to_submit-Keeps p (submit now prefer_done e p)

map_reply-Keeps :
    {P Q : Type 0} (f : P → Q) (p : P) (reply : Reply P)
    → Keeps p reply
    → Keeps (f p) (map_reply f reply)
map_reply-Keeps f p (replied (err status) p') (inl same) = inl (ap f same)
map_reply-Keeps f p (replied (err status) p') (inr from) = inr from
map_reply-Keeps f p (replied (ok u) p') h = tt
map_reply-Keeps f p pending h = tt
map_reply-Keeps f p crashed h = tt

module _ {D S D' S' D'' S'' : Type 0} (unmarshal : List ℕ → Option Claims) (now : ℕ) (now_ms : ℤ)
    (prefer_done : Bool) where
  handle-Keeps :
      (call : Call) (s : TelemetryService D S D' S' D'' S'') (r : Request)
      → Keeps s (handle unmarshal now now_ms prefer_done call s r)
  unfolding handle create_user_behavior_telemetry create_gameplay_telemetry
      create_performance_telemetry
  handle-Keeps call s (user_behavior req) =
      map_reply-Keeps (λ p. record s { user_behavior_proc = p }) s.user_behavior_proc _
        (submit_result-Keeps now prefer_done _ s.user_behavior_proc)
  handle-Keeps call s (gameplay req) =
      map_reply-Keeps (λ p. record s { gameplay_proc = p }) s.gameplay_proc _
        (submit_result-Keeps now prefer_done _ s.gameplay_proc)
  handle-Keeps call s (performance req) =
      map_reply-Keeps (λ p. record s { performance_proc = p }) s.performance_proc _
        (submit_result-Keeps now prefer_done _ s.performance_proc)

  module _ (find_options : Text → Text → Result AuthError MethodOptions)
      (validator : Option (Text → Option Permission → Text → Option Text))
      (environment : Text) where
    -- A chain of interceptors that lets a call through replies what the handler replies.
    through-handle :
        (chain : List Interceptor) (call : Call) (s : TelemetryService D S D' S' D'' S'')
        (r : Request) (reply : Reply (TelemetryService D S D' S' D'' S''))
        → through unmarshal now now_ms prefer_done find_options validator environment chain call s r
          ≡ ok reply
        → handle unmarshal now now_ms prefer_done call s r ≡ reply
    unfolding through
    through-handle [] call s r reply h = ok-injective h
    through-handle (metrics ∷ chain) call s r reply h = through-handle chain call s r reply h
    through-handle (logging ∷ chain) call s r reply h = through-handle chain call s r reply h
    through-handle (auth ∷ chain) call s r reply h = through-handle chain call s r reply (
        intercept_reply find_options validator environment (full_method r) (authorization_of call)
          (through unmarshal now now_ms prefer_done find_options validator environment chain call s)
          r (ok reply) (flatten_ok _ reply h))

    module _ {Ctx : Type 0} (enabled : Text) (connect : Ctx → Result Text Connected) where
      called_of-Keeps :
          (s s' : TelemetryService D S D' S' D'' S'') (e : CallError)
          (answer : Result AuthError (Reply (TelemetryService D S D' S' D'' S'')))
          → ((reply : Reply (TelemetryService D S D' S' D'' S''))
              → answer ≡ ok reply
              → Keeps s reply)
          → called_of s answer ≡ Transcoding.returned (err e) s'
          → (s' ≡ s) ⊎ (e ≡ refused not_processed)
      called_of-Keeps s s' e (err refusal) keeps h = inl cc
      called_of-Keeps s s' e (ok (replied (ok u) t)) keeps h = ground arith
      called_of-Keeps s s' e (ok pending) keeps h = ground arith
      called_of-Keeps s s' e (ok crashed) keeps h = ground arith
      called_of-Keeps s s' e (ok (replied (err status) t)) keeps h = elim (keeps _ refl) [
        | inl same ↦ inl cc
        | inr from ↦ inr cc
      ]

      pub client_of-Keeps :
          (ctx : Ctx) (r : Request) (s s' : TelemetryService D S D' S' D'' S'') (e : CallError)
          → client_of unmarshal now now_ms prefer_done find_options validator environment enabled
              connect ctx r s
            ≡ Transcoding.returned (err e) s'
          → (s' ≡ s) ⊎ (e ≡ refused not_processed)
      unfolding client_of
      client_of-Keeps ctx r s s' e h = elim (Result-cases (connect ctx)) [
        | inl (message, hf) ↦
            inl (returned_state {e = unavailable message} (sym (rw (client_of, hf) refl) ∙ h))
        | inr (connected, hc) ↦
            let call = connected.call in
            called_of-Keeps s s' e
              (through unmarshal now now_ms prefer_done find_options validator environment
                (interceptors enabled) call s r)
              (λ reply there.
                subst (Keeps s) (through-handle (interceptors enabled) call s r reply there)
                  (handle-Keeps call s r))
              (interrupted_returned connected.gives_up _ (err e) s'
                (sym (rw (client_of, hc) refl) ∙ h))
      ]

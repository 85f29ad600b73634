-- ===== src/Service/Handlers.antt =====
-- The three handlers of pkg/service/telemetry.go: what a reply says of the processor.
use extend_game_telemetry_co.Prelude.{
  ℕ, ◌≡◌, ◌⊎◌, refl, sym, Bool, true, false, Option, none, some, List, Text, codes, is_empty,
  if◌then◌else◌, Option-cases, Bool-cases, inl, inr,
}
use mathlib.Core.Path.{subst}
use extend_game_telemetry_co.Prelude.Int.{ℤ}
use extend_game_telemetry_co.Prelude.Result.{Result, ok, err, ◌>>=◌, Result-cases}
use extend_game_telemetry_co.Runtime.{has_room}
use extend_game_telemetry_co.Events.Gameplay.{CreateGameplayTelemetryRequest}
use extend_game_telemetry_co.Events.Performance.{CreatePerformanceTelemetryRequest}
use extend_game_telemetry_co.Events.UserBehavior.{CreateUserBehaviorTelemetryRequest}
use extend_game_telemetry_co.Processor.{
  Processor, queued, returned, blocked, panicked, count_dropped, count_duplicated, enqueue,
}
use extend_game_telemetry_co.Processor.Submission.{submit_cases, seen_before, marked}
use extend_game_telemetry_co.Service.{
  invalid_argument, unauthenticated, internal, Status, CallContext, Claims, TelemetryService, Reply,
  replied, pending, crashed, extract_user_id, reply_to_submit, submit_result, require,
  gameplay_event, performance_event, user_behavior_event, create_gameplay_telemetry,
  create_performance_telemetry, create_user_behavior_telemetry,
}
use extend_game_telemetry_co.Service.Identity.{IsAnswer, extract_user_id-IsAnswer}

-- Whether a reply has a code other than Internal.
abbrev pub IsRejection : Status → Type 0
IsRejection status = (status.code ≡ invalid_argument) ⊎ (status.code ≡ unauthenticated)

-- An event that could not be built was rejected.
abbrev pub IsBuilt : {T : Type 0} → Result Status T → Type 0
IsBuilt (ok e) = Unit
IsBuilt (err status) = IsRejection status

module _ {D S T : Type 0} (now : ℕ) (prefer_done : Bool) where
  -- What a reply means for the processor it was submitted to: a success is a queued event or a
  -- counted duplicate; an Internal error is a dropped event with the context cancelled and the
  -- channel full; any other error leaves the processor as it was.
  abbrev pub IsHonest : Result Status T → Processor D S T → Reply (Processor D S T) → Type 0
  IsHonest made p (replied (ok _) p') =
      (e : T) × (made ≡ ok e)
      × ((p' ≡ enqueue e (marked now prefer_done e p)) ⊎ (p' ≡ count_duplicated p))
  IsHonest made p (replied (err status) p') =
      (IsRejection status × (made ≡ err status) × (p' ≡ p))
      ⊎ ((e : T) × (made ≡ ok e)
          × (status.code ≡ internal)
          × (p.ctx.cancelled ≡ true)
          × (has_room p.input_chan ≡ false)
          × (p' ≡ count_dropped (marked now prefer_done e p)))
  IsHonest made p pending = Unit
  IsHonest made p crashed = p.input_chan.closed ≡ true

  -- The cases of `Submit`, by whether the event was seen, the channel closed, there is room and the
  -- context is cancelled.
  sent-IsHonest :
      (e : T) (p : Processor D S T) (seen closed room over : Bool)
      → p.input_chan.closed ≡ closed
      → has_room p.input_chan ≡ room
      → p.ctx.cancelled ≡ over
      → IsHonest (ok e) p (
          reply_to_submit (
            if seen
            then returned none (count_duplicated p)
            else if closed
            then panicked
            else if room
            then queued (enqueue e (marked now prefer_done e p))
            else if over
            then returned
                (some (codes "processor is shutting down"))
                (count_dropped (marked now prefer_done e p))
            else blocked))
  unfolding reply_to_submit
  sent-IsHonest e p true closed room over hc hr hx = (e, refl, inr refl)
  sent-IsHonest e p false true room over hc hr hx = hc
  sent-IsHonest e p false false true over hc hr hx = (e, refl, inl refl)
  sent-IsHonest e p false false false true hc hr hx = inr (e, refl, refl, hx, hr, refl)
  sent-IsHonest e p false false false false hc hr hx = tt

  pub submit_result-IsHonest :
      (made : Result Status T) (p : Processor D S T)
      → IsBuilt made
      → IsHonest made p (submit_result now prefer_done made p)
  submit_result-IsHonest (err status) p h = inl (h, refl, refl)
  submit_result-IsHonest (ok e) p h =
      subst (λ r. IsHonest (ok e) p (reply_to_submit r)) (sym (submit_cases now prefer_done e p))
        (sent-IsHonest e p (seen_before now prefer_done e p) p.input_chan.closed
          (has_room p.input_chan) p.ctx.cancelled refl refl refl)

-- An event that is built, or the rejection: its guards and then its user id.
require-IsBuilt :
    {A B : Type 0} (event_id : Text) (part : Option A) (message : Text) (found : Result Status Text)
    (build : Text → B)
    → ((status : Status) → found ≡ err status → status.code ≡ unauthenticated)
    → IsBuilt (require event_id part message >>= λ _. found >>= λ user_id. ok (build user_id))
require-IsBuilt event_id part message found build h = elim (Bool-cases (is_empty event_id)) [
  | inl he ↦ rw he (inl refl)
  | inr he ↦ elim (Option-cases part) [
    | inl hp ↦ rw (he, hp) (inl refl)
    | inr (a, hp) ↦ elim (Result-cases found) [
      | inl (status, hf) ↦ rw (he, hp, hf) (inr (h status hf))
      | inr (user_id, hf) ↦ rw (he, hp, hf) tt
    ]
  ]
]

module _ (unmarshal : List ℕ → Option Claims) where
  unauthenticated_only :
      (ctx : CallContext) (status : Status)
      → extract_user_id unmarshal ctx ≡ err status
      → status.code ≡ unauthenticated
  unauthenticated_only ctx status h =
      subst (IsAnswer unmarshal) h (extract_user_id-IsAnswer unmarshal ctx)

  module _ {D S D' S' D'' S'' : Type 0} (now : ℕ) (now_ms : ℤ) (prefer_done : Bool)
      (ctx : CallContext) where
    -- The reply of each of the three handlers, called with nothing else running in between, says
    -- what became of the request: a success, that its event is queued or counted as a
    -- duplicate; InvalidArgument or Unauthenticated, that the processor is as it was; Internal,
    -- that its event is marked as seen and dropped, for a cancelled context and a full channel.
    -- A panic comes only of a closed channel.
    pub handlers-IsHonest :
        (s : TelemetryService D S D' S' D'' S'') (behavior : CreateUserBehaviorTelemetryRequest)
        (gameplay : CreateGameplayTelemetryRequest)
        (performance : CreatePerformanceTelemetryRequest)
        → IsHonest now prefer_done
            (user_behavior_event unmarshal s.namespace now_ms ctx behavior)
            s.user_behavior_proc
            (create_user_behavior_telemetry unmarshal now now_ms prefer_done ctx behavior s)
          × IsHonest now prefer_done
              (gameplay_event unmarshal s.namespace now_ms ctx gameplay)
              s.gameplay_proc
              (create_gameplay_telemetry unmarshal now now_ms prefer_done ctx gameplay s)
          × IsHonest now prefer_done
              (performance_event unmarshal s.namespace now_ms ctx performance)
              s.performance_proc
              (create_performance_telemetry unmarshal now now_ms prefer_done ctx performance s)
    unfolding create_user_behavior_telemetry create_gameplay_telemetry create_performance_telemetry
        user_behavior_event gameplay_event performance_event
    handlers-IsHonest s behavior gameplay performance =
        let found = extract_user_id unmarshal ctx in
        let only = unauthenticated_only ctx in
        (
          submit_result-IsHonest now prefer_done
              (user_behavior_event unmarshal s.namespace now_ms ctx behavior) s.user_behavior_proc
              (require-IsBuilt behavior.event_id behavior.user (codes "user is required") found _
                only),
          submit_result-IsHonest now prefer_done
              (gameplay_event unmarshal s.namespace now_ms ctx gameplay) s.gameplay_proc
              (require-IsBuilt gameplay.event_id gameplay.game_data (codes "data is required") found
                _ only),
          submit_result-IsHonest now prefer_done
              (performance_event unmarshal s.namespace now_ms ctx performance) s.performance_proc
              (require-IsBuilt performance.event_id performance.metrics
                (codes "metrics is required") found _ only),
        )

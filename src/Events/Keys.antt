-- ===== src/Events/Keys.antt =====
-- Which events share a deduplication key (pkg/events).
use extend_game_telemetry_co.Prelude.{
  ◌++◌, ◌≡◌, ◌≢◌, ◌↔◌, ap, some, [], ◌∷◌, Text, codes, All, arith,
}
use mathlib.Core.List.{append_assoc}
use extend_game_telemetry_co.Events.{key_text}
use extend_game_telemetry_co.Events.Gameplay
use extend_game_telemetry_co.Events.Gameplay.{GameplayEvent, CreateGameplayTelemetryRequest}
use extend_game_telemetry_co.Events.Performance
use extend_game_telemetry_co.Events.Performance.{
  PerformanceEvent, CreatePerformanceTelemetryRequest,
}
use extend_game_telemetry_co.Events.UserBehavior
use extend_game_telemetry_co.Events.UserBehavior.{
  UserBehaviorEvent, CreateUserBehaviorTelemetryRequest,
}

abbrev pub HasNoColon : Text → Type 0
HasNoColon = All (λ c. c ≢ b':')

-- Two texts that are cut at their first colons.
pub colon_cut :
    (a b x y : Text)
    → HasNoColon a
    → HasNoColon b
    → a ++ b':' ∷ x ≡ b ++ b':' ∷ y
    → (a ≡ b) × (x ≡ y)
colon_cut [] [] x y ha hb h = ground arith
colon_cut [] (d ∷ b) x y ha hb h = absurd (hb.0 (cc))
colon_cut (c ∷ a) [] x y ha hb h = absurd (ha.0 (cc))
colon_cut (c ∷ a) (d ∷ b) x y ha hb h =
    let rest : (a ≡ b) × (x ≡ y) = colon_cut a b x y ha.1 hb.1 (cc) in (cc (rest.0), rest.1)

-- A key determines its parts, if only the last may hold a colon.
pub key_text-injective :
    (kind a b c d a' b' c' d' : Text)
    → HasNoColon kind
    → HasNoColon a × HasNoColon b × HasNoColon c
    → HasNoColon a' × HasNoColon b' × HasNoColon c'
    → key_text kind a b c d ≡ key_text kind a' b' c' d'
    → (a ≡ a') × (b ≡ b') × (c ≡ c') × (d ≡ d')
key_text-injective kind a b c d a' b' c' d' hk h h' e =
    let e1 = colon_cut kind kind _ _ hk hk e in
    let e2 = colon_cut a a' _ _ h.0 h'.0 e1.1 in
    let e3 = colon_cut b b' _ _ h.1 h'.1 e2.1 in
    let e4 = colon_cut c c' _ _ h.2 h'.2 e3.1 in (e2.0, e3.0, e4.0, e4.1)

-- Two gameplay events with requests, whose namespaces, user ids and event ids hold no colon, share
-- a key exactly when these and the timestamps agree.
pub gameplay_key_iff :
    (e e' : GameplayEvent) (r r' : CreateGameplayTelemetryRequest)
    → e.payload ≡ some r
    → e'.payload ≡ some r'
    → HasNoColon e.namespace × HasNoColon e.user_id × HasNoColon r.event_id
    → HasNoColon e'.namespace × HasNoColon e'.user_id × HasNoColon r'.event_id
    → (Gameplay.deduplication_key e ≡ Gameplay.deduplication_key e') ↔ (
        (e.namespace ≡ e'.namespace)
        × (e.user_id ≡ e'.user_id)
        × (r.event_id ≡ r'.event_id)
        × (r.timestamp ≡ r'.timestamp))
unfolding Gameplay.deduplication_key
gameplay_key_iff e e' r r' p p' h h' =
    rw (p, p')
      (
        key_text-injective (codes "gameplay") e.namespace e.user_id r.event_id r.timestamp
            e'.namespace e'.user_id r'.event_id r'.timestamp (omega arith) h h',
        λ same. cc (same.0, same.1, same.2, same.3),
      )

-- Two performance events with requests, whose namespaces, user ids and event ids hold no colon, share
-- a key exactly when these and the timestamps agree.
pub performance_key_iff :
    (e e' : PerformanceEvent) (r r' : CreatePerformanceTelemetryRequest)
    → e.payload ≡ some r
    → e'.payload ≡ some r'
    → HasNoColon e.namespace × HasNoColon e.user_id × HasNoColon r.event_id
    → HasNoColon e'.namespace × HasNoColon e'.user_id × HasNoColon r'.event_id
    → (Performance.deduplication_key e ≡ Performance.deduplication_key e') ↔ (
        (e.namespace ≡ e'.namespace)
        × (e.user_id ≡ e'.user_id)
        × (r.event_id ≡ r'.event_id)
        × (r.timestamp ≡ r'.timestamp))
unfolding Performance.deduplication_key
performance_key_iff e e' r r' p p' h h' =
    rw (p, p')
      (
        key_text-injective (codes "performance") e.namespace e.user_id r.event_id r.timestamp
            e'.namespace e'.user_id r'.event_id r'.timestamp (omega arith) h h',
        λ same. cc (same.0, same.1, same.2, same.3),
      )

-- Two user behavior events with requests, whose namespaces, user ids and event ids hold no colon,
-- share a key exactly when these and the session ids agree: the timestamps play no part.
pub user_behavior_key_iff :
    (e e' : UserBehaviorEvent) (r r' : CreateUserBehaviorTelemetryRequest)
    → e.payload ≡ some r
    → e'.payload ≡ some r'
    → HasNoColon e.namespace × HasNoColon e.user_id × HasNoColon r.event_id
    → HasNoColon e'.namespace × HasNoColon e'.user_id × HasNoColon r'.event_id
    → (UserBehavior.deduplication_key e ≡ UserBehavior.deduplication_key e') ↔ (
        (e.namespace ≡ e'.namespace)
        × (e.user_id ≡ e'.user_id)
        × (r.event_id ≡ r'.event_id)
        × (UserBehavior.session_of r ≡ UserBehavior.session_of r'))
unfolding UserBehavior.deduplication_key
user_behavior_key_iff e e' r r' p p' h h' =
    rw (p, p')
      (
        key_text-injective (codes "user_behavior") e.namespace e.user_id r.event_id
            (UserBehavior.session_of r) e'.namespace e'.user_id r'.event_id
            (UserBehavior.session_of r') (omega arith) h h',
        λ same. cc (same.0, same.1, same.2, same.3),
      )

-- Events of different kinds never share a key, whatever they hold.
pub kinds_apart :
    (g : GameplayEvent) (p : PerformanceEvent) (u : UserBehaviorEvent)
    → (Gameplay.deduplication_key g ≢ Performance.deduplication_key p)
      × (Gameplay.deduplication_key g ≢ UserBehavior.deduplication_key u)
      × (Performance.deduplication_key p ≢ UserBehavior.deduplication_key u)
unfolding Gameplay.deduplication_key Performance.deduplication_key UserBehavior.deduplication_key
kinds_apart g p u = (λ h. ground arith, λ h. ground arith, λ h. ground arith)

-- A colon in an event id breaks uniqueness: for any texts `a`, `b`, `c`, the gameplay event with
-- event id "a:b" and timestamp "c" and the one with event id "a" and timestamp "b:c" share a key.
pub gameplay_key_collision :
    (e : GameplayEvent) (r : CreateGameplayTelemetryRequest) (a b c : Text)
    → Gameplay.deduplication_key
        (record e { payload = some (record r { event_id = a ++ b':' ∷ b; timestamp = c }) })
      ≡ Gameplay.deduplication_key
          (record e { payload = some (record r { event_id = a; timestamp = b ++ b':' ∷ c }) })
unfolding Gameplay.deduplication_key
gameplay_key_collision e r a b c =
    ap (λ t. codes "gameplay" ++ b':' ∷ (e.namespace ++ b':' ∷ (e.user_id ++ b':' ∷ t)))
      (append_assoc a (b':' ∷ b) (b':' ∷ c))

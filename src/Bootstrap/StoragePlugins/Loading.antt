-- ===== src/Bootstrap/StoragePlugins/Loading.antt =====
-- What InitializeStoragePlugins of internal/bootstrap/plugins.go returns.
use extend_game_telemetry_co.Prelude.{
  ◌≡◌, ◌∙◌, refl, sym, ap, true, Bool-cases, text_eq_iff, arith, Option, text_eq, keep, codes, ◌++◌,
  All, none, some, List, [], ◌∷◌, Text, is_empty, Option-cases, inl, inr,
}
use mathlib.Core.Path.{subst}
use mathlib.Core.List.{append-nil, append_assoc}
use extend_game_telemetry_co.Prelude.Result.{ok, ◌>>=◌, bind_ok, ok-injective}
use extend_game_telemetry_co.Runtime.{Context}
use extend_game_telemetry_co.Storage.{Plugin, Error}
use extend_game_telemetry_co.Plugins.{
  EventKind, gameplay_kind, performance_kind, user_behavior_kind,
}
use extend_game_telemetry_co.Events.Gameplay.{GameplayEvent}
use extend_game_telemetry_co.Events.Performance.{PerformanceEvent}
use extend_game_telemetry_co.Events.UserBehavior.{UserBehaviorEvent}
use extend_game_telemetry_co.Plugins.Noop.{noop_plugin}
use extend_game_telemetry_co.Settings
use extend_game_telemetry_co.Settings.{get_enabled_plugins}
use extend_game_telemetry_co.Bootstrap.Backends.{
  BackendName, postgres, s3, kafka, mongo_db, in_postgres, in_s3, in_kafka, in_mongo_db, in_noop,
  noop, Remotes, Backend, Clients, known, make_plugin, methods, configured, initialize,
}
use extend_game_telemetry_co.Bootstrap.StoragePlugins.{
  StoragePlugins, AllClients, initialized, initialize_plugin, add_backend, add_named, add_all,
  no_plugins, or_noop, initialize_storage_plugins,
}

-- The backends that the names stand for, in order; names that are not known are passed over.
abbrev pub known_names : List Text → List BackendName
known_names [] = []
known_names (name ∷ names) = elim (known name) [
  | none ↦ known_names names
  | some backend ↦ backend ∷ known_names names
]

-- How each backend is spelled in the list of enabled plugins.
abbrev pub spelled : BackendName → Text
spelled postgres = codes "postgres"
spelled s3 = codes "s3"
spelled kafka = codes "kafka"
spelled mongo_db = codes "mongodb"
spelled noop = codes "noop"

abbrev pub all_backends : List BackendName
all_backends = postgres ∷ s3 ∷ kafka ∷ mongo_db ∷ noop ∷ []

-- The backends that are spelled by a list of names, in its order.
abbrev pub backends_spelled : List Text → List BackendName
backends_spelled [] = []
backends_spelled (name ∷ names) =
    keep (λ b. text_eq name (spelled b)) all_backends ++ backends_spelled names

-- The plugin's state is one of the backend.
abbrev pub IsIn : {R : Remotes} → BackendName → Backend R → Type 0
IsIn postgres (in_postgres p) = Unit
IsIn s3 (in_s3 p) = Unit
IsIn kafka (in_kafka p) = Unit
IsIn mongo_db (in_mongo_db p) = Unit
IsIn noop in_noop = Unit
IsIn _ _ = ⊥

-- The no-op backend in place of no backend.
abbrev pub noop_if_none : List BackendName → List BackendName
noop_if_none [] = noop ∷ []
noop_if_none (b ∷ bs) = b ∷ bs

abbrev one_of : Option BackendName → List BackendName
one_of none = []
one_of (some b) = b ∷ []

abbrev IsSpelled : Text → Type 0
IsSpelled name = one_of (known name) ≡ keep (λ b. text_eq name (spelled b)) all_backends

spelled-IsSpelled : (b : BackendName) → IsSpelled (spelled b)
unfolding known
spelled-IsSpelled postgres = refl
spelled-IsSpelled s3 = refl
spelled-IsSpelled kafka = refl
spelled-IsSpelled mongo_db = refl
spelled-IsSpelled noop = refl

text_eq-IsSpelled :
    (name : Text) (b : BackendName) → text_eq name (spelled b) ≡ true → IsSpelled name
text_eq-IsSpelled name b h =
    subst IsSpelled (sym ((text_eq_iff name (spelled b)).0 h)) (spelled-IsSpelled b)

known-IsSpelled : (name : Text) → IsSpelled name
unfolding known
known-IsSpelled name = elim (Bool-cases (text_eq name (spelled postgres))) [
  | inl h ↦ text_eq-IsSpelled name postgres h
  | inr not_postgres ↦ elim (Bool-cases (text_eq name (spelled s3))) [
    | inl h ↦ text_eq-IsSpelled name s3 h
    | inr not_s3 ↦ elim (Bool-cases (text_eq name (spelled kafka))) [
      | inl h ↦ text_eq-IsSpelled name kafka h
      | inr not_kafka ↦ elim (Bool-cases (text_eq name (spelled mongo_db))) [
        | inl h ↦ text_eq-IsSpelled name mongo_db h
        | inr not_mongo_db ↦ elim (Bool-cases (text_eq name (spelled noop))) [
          | inl h ↦ text_eq-IsSpelled name noop h
          | inr not_noop ↦ rw (not_postgres, not_s3, not_kafka, not_mongo_db, not_noop) refl
        ]
      ]
    ]
  ]
]

known_names_spelled : (names : List Text) → known_names names ≡ backends_spelled names
known_names_spelled [] = refl
known_names_spelled (name ∷ names) = elim (Option-cases (known name)) [
  | inl h ↦
      let here : [] ≡ keep (λ b. text_eq name (spelled b)) all_backends =
        ap one_of (sym h) ∙ known-IsSpelled name in
      rw (known_names, h) (known_names_spelled names ∙ ap (λ bs. bs ++ backends_spelled names) here)
  | inr (b, h) ↦
      let here : b ∷ [] ≡ keep (λ b. text_eq name (spelled b)) all_backends =
        ap one_of (sym h) ∙ known-IsSpelled name in
      rw (known_names, h)
        (ap (λ bs. b ∷ bs) (known_names_spelled names)
          ∙ ap (λ bs. bs ++ backends_spelled names) here)
]

module _ {R : Remotes} {Tx B E P : Type 0} (kind : EventKind E P) (clients : Clients R Tx B P)
    (ctx : Context) (c : Settings.Config) where
  -- A plugin of the backend, in the state in which its `Initialize` left it, without an error, when
  -- called on the plugin that the backend's settings make.
  abbrev pub IsOpen : BackendName → Plugin (Backend R) E → Type 0
  IsOpen b p =
      (p.methods ≡ methods kind clients b)
      × IsIn b p.state
      × (initialize kind clients ctx (configured kind clients c b) ≡ (none, p.state))

  initialized_ok :
      (failure : Error) (st : Backend R) (p q : Plugin (Backend R) E)
      → initialized (failure, st) p ≡ ok q
      → (failure ≡ none) × (q ≡ record p { state = st })
  initialized_ok none st p q h = (refl, sym (ok-injective h))
  initialized_ok (some failure) st p q h = ground arith

  initialize-IsIn :
      (b : BackendName) → IsIn b (initialize kind clients ctx (configured kind clients c b)).1
  unfolding initialize configured
  initialize-IsIn postgres = tt
  initialize-IsIn s3 = tt
  initialize-IsIn kafka = tt
  initialize-IsIn mongo_db = tt
  initialize-IsIn noop = tt

  initialize_plugin-IsOpen :
      (b : BackendName) (p : Plugin (Backend R) E)
      → initialize_plugin ctx (make_plugin kind clients c b) ≡ ok p
      → IsOpen b p
  unfolding make_plugin methods
  initialize_plugin-IsOpen b p h =
      let run = initialize kind clients ctx (configured kind clients c b) in
      let (fine, same) = initialized_ok run.0 run.1 (make_plugin kind clients c b) p h in
      subst (IsOpen b) (sym same) (refl, initialize-IsIn b, ap (λ e. (e, run.1)) fine)

  -- The plugins are those of the backends, one for each and in order.
  abbrev pub IsOpened : List BackendName → List (Plugin (Backend R) E) → Type 0
  IsOpened [] [] = Unit
  IsOpened [] (p ∷ ps) = ⊥
  IsOpened (b ∷ bs) [] = ⊥
  IsOpened (b ∷ bs) (p ∷ ps) = IsOpen b p × IsOpened bs ps

  IsOpened-append :
      (bs cs : List BackendName) (ps qs : List (Plugin (Backend R) E))
      → IsOpened bs ps
      → IsOpened cs qs
      → IsOpened (bs ++ cs) (ps ++ qs)
  IsOpened-append [] cs [] qs h k = k
  IsOpened-append [] cs (p ∷ ps) qs h k = absurd h
  IsOpened-append (b ∷ bs) cs [] qs h k = absurd h
  IsOpened-append (b ∷ bs) cs (p ∷ ps) qs h k = (h.0, IsOpened-append bs cs ps qs h.1 k)

  is_empty-IsOpened :
      (bs : List BackendName) (ps : List (Plugin (Backend R) E))
      → IsOpened bs ps
      → is_empty ps ≡ is_empty bs
  is_empty-IsOpened [] [] h = refl
  is_empty-IsOpened [] (p ∷ ps) h = absurd h
  is_empty-IsOpened (b ∷ bs) [] h = absurd h
  is_empty-IsOpened (b ∷ bs) (p ∷ ps) h = refl

  noop-IsOpened : IsOpened (noop ∷ []) (make_plugin kind clients c noop ∷ [])
  unfolding make_plugin methods configured initialize noop_plugin
  noop-IsOpened = ((refl, tt, refl), tt)

module _ {R : Remotes} {Tx B : Type 0} (clients : AllClients R Tx B) (ctx : Context)
    (c : Settings.Config) where
  -- The plugins of all three kinds are those of the backends.
  abbrev pub IsLoaded : List BackendName → StoragePlugins R → Type 0
  IsLoaded bs plugins =
      IsOpened user_behavior_kind clients.for_user_behavior ctx c bs plugins.user_behavior
      × IsOpened gameplay_kind clients.for_gameplay ctx c bs plugins.gameplay
      × IsOpened performance_kind clients.for_performance ctx c bs plugins.performance

  add_backend-IsLoaded :
      (b : BackendName) (bs : List BackendName) (plugins plugins' : StoragePlugins R)
      → add_backend clients ctx c b plugins ≡ ok plugins'
      → IsLoaded bs plugins
      → IsLoaded (bs ++ b ∷ []) plugins'
  unfolding add_backend
  add_backend-IsLoaded b bs plugins plugins' h k =
      let (ub, eu, hu) =
        bind_ok
          (initialize_plugin ctx (make_plugin user_behavior_kind clients.for_user_behavior c b)) _
          plugins' h in
      let (gp, eg, hg) =
        bind_ok (initialize_plugin ctx (make_plugin gameplay_kind clients.for_gameplay c b)) _
          plugins' hu in
      let (perf, ep, hp) =
        bind_ok (initialize_plugin ctx (make_plugin performance_kind clients.for_performance c b)) _
          plugins' hg in
      subst (IsLoaded (bs ++ b ∷ [])) (ok-injective hp) (
        IsOpened-append user_behavior_kind clients.for_user_behavior ctx c bs (b ∷ [])
            plugins.user_behavior (ub ∷ []) k.0
            (
              initialize_plugin-IsOpen user_behavior_kind clients.for_user_behavior ctx c b ub eu,
              tt,
            ),
        IsOpened-append gameplay_kind clients.for_gameplay ctx c bs (b ∷ []) plugins.gameplay
            (gp ∷ []) k.1
            (initialize_plugin-IsOpen gameplay_kind clients.for_gameplay ctx c b gp eg, tt),
        IsOpened-append performance_kind clients.for_performance ctx c bs (b ∷ [])
            plugins.performance (perf ∷ []) k.2
            (initialize_plugin-IsOpen performance_kind clients.for_performance ctx c b perf ep, tt),
      )

  add_all-IsLoaded :
      (names : List Text) (bs : List BackendName) (plugins plugins' : StoragePlugins R)
      → add_all clients ctx c names plugins ≡ ok plugins'
      → IsLoaded bs plugins
      → IsLoaded (bs ++ known_names names) plugins'
  unfolding add_all
  add_all-IsLoaded [] bs plugins plugins' h k =
      subst (λ xs. IsLoaded xs plugins') (sym (append-nil bs))
        (subst (IsLoaded bs) (ok-injective h) k)
  add_all-IsLoaded (name ∷ names) bs plugins plugins' h k = elim (Option-cases (known name)) [
    | inl hk ↦
        let step : add_all clients ctx c (name ∷ names) plugins
            ≡ add_all clients ctx c names plugins =
          rw (add_all, add_named, hk) refl in
        rw (known_names, hk) (add_all-IsLoaded names bs plugins plugins' (sym step ∙ h) k)
    | inr (b, hk) ↦
        let step : add_all clients ctx c (name ∷ names) plugins
            ≡ (add_backend clients ctx c b plugins >>= λ p. add_all clients ctx c names p) =
          rw (add_all, add_named, hk) refl in
        let (next, e, rest) =
          bind_ok (add_backend clients ctx c b plugins) (λ p. add_all clients ctx c names p)
            plugins' (sym step ∙ h) in
        rw (known_names, hk)
          (subst (λ xs. IsLoaded xs plugins') (append_assoc bs (b ∷ []) (known_names names))
            (add_all-IsLoaded names (bs ++ b ∷ []) next plugins' rest
              (add_backend-IsLoaded b bs plugins next e k)))
  ]

  or_noop-IsLoaded :
      (bs : List BackendName) (plugins : StoragePlugins R)
      → IsLoaded bs plugins
      → IsLoaded (noop_if_none bs) (or_noop clients ctx c plugins)
  or_noop-IsLoaded [] plugins k =
      rw
        (is_empty-IsOpened user_behavior_kind clients.for_user_behavior ctx c []
          plugins.user_behavior k.0)
        (
          IsOpened-append user_behavior_kind clients.for_user_behavior ctx c [] (noop ∷ [])
              plugins.user_behavior _ k.0
              (noop-IsOpened user_behavior_kind clients.for_user_behavior ctx c),
          IsOpened-append gameplay_kind clients.for_gameplay ctx c [] (noop ∷ []) plugins.gameplay _
              k.1 (noop-IsOpened gameplay_kind clients.for_gameplay ctx c),
          IsOpened-append performance_kind clients.for_performance ctx c [] (noop ∷ [])
              plugins.performance _ k.2
              (noop-IsOpened performance_kind clients.for_performance ctx c),
        )
  or_noop-IsLoaded (b ∷ bs) plugins k =
      rw
        (is_empty-IsOpened user_behavior_kind clients.for_user_behavior ctx c (b ∷ bs)
          plugins.user_behavior k.0)
        k

  -- When InitializeStoragePlugins returns no error, each kind of event has one plugin for each of the
  -- names "postgres", "s3", "kafka", "mongodb" and "noop" in the list of enabled plugins, in that
  -- order, other names being passed over; or one no-op plugin alone, if the list has none of these
  -- names. Each plugin has the methods and a state of the backend of its name, and the state is what
  -- `Initialize` left, without an error, of the one that the backend's settings make.
  pub initialize_storage_plugins-IsLoaded :
      (plugins : StoragePlugins R)
      → initialize_storage_plugins clients ctx c ≡ ok plugins
      → IsLoaded (noop_if_none (backends_spelled (get_enabled_plugins c))) plugins
  unfolding initialize_storage_plugins
  initialize_storage_plugins-IsLoaded plugins h =
      let names = get_enabled_plugins c in
      let (loaded, e, rest) =
        bind_ok (add_all clients ctx c names (no_plugins clients ctx c)) _ plugins h in
      let spelling = known_names_spelled names in
      subst (λ bs. IsLoaded (noop_if_none bs) plugins) spelling
        (subst (IsLoaded (noop_if_none (known_names names))) (ok-injective rest) (
          or_noop-IsLoaded (known_names names) loaded
            (add_all-IsLoaded names [] (no_plugins clients ctx c) loaded e (tt, tt, tt))))

  -- The plugins of a backend can be initialized, for each kind of event.
  abbrev pub CanOpen : BackendName → Type 0
  CanOpen b =
      ((p : Plugin (Backend R) UserBehaviorEvent) × (initialize_plugin ctx
            (make_plugin user_behavior_kind clients.for_user_behavior c b)
          ≡ ok p))
      × ((p : Plugin (Backend R) GameplayEvent) × (initialize_plugin ctx
              (make_plugin gameplay_kind clients.for_gameplay c b)
            ≡ ok p))
      × ((p : Plugin (Backend R) PerformanceEvent) × (initialize_plugin ctx
              (make_plugin performance_kind clients.for_performance c b)
            ≡ ok p))

  add_all_succeeds :
      (names : List Text) (plugins : StoragePlugins R)
      → All CanOpen (known_names names)
      → (plugins' : StoragePlugins R) × (add_all clients ctx c names plugins ≡ ok plugins')
  unfolding add_all add_backend
  add_all_succeeds [] plugins h = (plugins, refl)
  add_all_succeeds (name ∷ names) plugins h = elim (Option-cases (known name)) [
    | inl hk ↦
        let named : known_names (name ∷ names) ≡ known_names names = rw (known_names, hk) refl in
        let can = subst (All CanOpen) named h in
        rw (add_all, add_named, hk) (add_all_succeeds names plugins can)
    | inr (b, hk) ↦
        let named : known_names (name ∷ names) ≡ b ∷ known_names names =
          rw (known_names, hk) refl in
        let can = subst (All CanOpen) named h in
        rw (add_all, add_named, hk, add_backend, can.0.0.1, can.0.1.1, can.0.2.1)
          (add_all_succeeds names _ can.1)
  ]

  -- The service gets its plugins whenever each backend that is named can be initialized for the
  -- three kinds of event, however many names are not known, none at all included.
  pub initialize_storage_plugins_succeeds :
      All CanOpen (known_names (get_enabled_plugins c))
      → (plugins : StoragePlugins R) × (initialize_storage_plugins clients ctx c ≡ ok plugins)
  unfolding initialize_storage_plugins
  initialize_storage_plugins_succeeds h =
      let (loaded, e) = add_all_succeeds (get_enabled_plugins c) (no_plugins clients ctx c) h in
      (or_noop clients ctx c loaded, rw e refl)

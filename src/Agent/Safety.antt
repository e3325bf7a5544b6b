-- ===== src/Agent/Safety.antt =====
-- services/agent.go: when the transport of the agent runs.
use tcg.Common.{
  ◌+◌, if◌then◌else◌, if-either, ◌≡◌, refl, sym, ap, subst, ◌∙◌, inl, inr, ◌⊎◌, Bool, true, false,
  not, ◌&&◌, none, List, [], ◌∷◌, ◌++◌, String, Outcome, returns, panics, ◌>>=◌, OnReturn,
  OnReturn-bind, arith, Bool-cases, Bytes,
}
use tcg.Batcher.{Batcher, Builder}
use tcg.Nats.{
  Config, Env, State, start_server, connect_publisher, stop_server, stop_dispatcher,
  is_started_dispatcher, is_started_server,
}
use tcg.Agent.{
  cleared, Agent, Exiting, Settings, is_connector_configured, start_nats, stop_nats,
  start_transport, stop_transport, reset_nats, stop_controller, exit, reset_batchers, restart,
  forget, config, Task, configures, exits, resets_nats, starts_controller, stops_controller,
  starts_nats, stops_nats, starts_transport, stops_transport, handle, handle_tasks,
}

-- The dispatcher runs only while the connector has a usable agent id and application type.
abbrev pub is_safe : Agent → Bool
is_safe a = not (is_started_dispatcher a.nats && not (is_connector_configured a.settings.connector))

abbrev pub IsSafe : Agent → Type 0
IsSafe a = is_safe a ≡ true

start_server_dispatcher :
    (env : Env) (c : Config) (s : State)
    → is_started_dispatcher (start_server env c s).0 ≡ is_started_dispatcher s
unfolding start_server connect_publisher
start_server_dispatcher env c s = ground arith

start_nats-IsSafe : (env : Env) (a : Agent) → IsSafe a → IsSafe (start_nats env a).0
unfolding start_nats
start_nats-IsSafe env a h = rw (start_server_dispatcher env a.settings.connector.nats a.nats) h

-- The dispatcher is off, and the settings are the given ones.
abbrev Off : Settings → Agent → Type 0
Off s a = (is_started_dispatcher a.nats ≡ false) × (a.settings ≡ s)

Off-IsSafe : (s : Settings) (a : Agent) → Off s a → IsSafe a
Off-IsSafe s a h = ground arith

stop_transport-Off : (a : Agent) → Off a.settings (stop_transport a)
unfolding stop_transport stop_dispatcher
stop_transport-Off a = elim (Bool-cases (is_started_dispatcher a.nats)) [
  | inl e ↦ rw e (refl, refl)
  | inr e ↦ ground arith
]

stop_server-off : (s : State) → OnReturn (λ t. is_started_dispatcher t ≡ false) (stop_server s)
unfolding stop_server
stop_server-off s = ground arith

configured-IsSafe :
    (s : Settings) (a : Agent)
    → a.settings ≡ s
    → is_connector_configured s.connector ≡ true
    → IsSafe a
configured-IsSafe s a e c =
    ground (arith, ap (λ (t : Settings). is_connector_configured t.connector) e)

settings-start_transport : (env : Env) (a : Agent) → (start_transport env a).0.settings ≡ a.settings
unfolding start_transport
settings-start_transport env a = ground arith

start_transport_unconfigured :
    (env : Env) (a : Agent)
    → is_connector_configured a.settings.connector ≡ false
    → (start_transport env a).0 ≡ a
unfolding start_transport
start_transport_unconfigured env a e = ground arith

start_transport-IsSafe : (env : Env) (a : Agent) → IsSafe a → IsSafe (start_transport env a).0
start_transport-IsSafe env a h = elim (Bool-cases (is_connector_configured a.settings.connector)) [
  | inl c ↦
      configured-IsSafe a.settings (start_transport env a).0 (settings-start_transport env a) c
  | inr c ↦ subst IsSafe (sym (start_transport_unconfigured env a c)) h
]

-- A property of the agent with its dispatcher off, and of the agent as it is.
with_state :
    (P : Agent → Type 0) (a : Agent) (o : Outcome State)
    → ((b : Agent) → Off a.settings b → P b)
    → OnReturn (λ s. is_started_dispatcher s ≡ false) o
    → OnReturn P (o >>= λ s. returns (record a { nats = s }))
with_state P a (returns s) k e = k (record a { nats = s }) (e, refl)
with_state P a panics k e = tt

stop_nats-cases :
    (P : Agent → Type 0) (a : Agent)
    → P a
    → ((b : Agent) → Off a.settings b → P b)
    → OnReturn P (stop_nats a)
unfolding stop_nats
stop_nats-cases P a h k =
    if-either (OnReturn P) (is_started_server a.nats) _ _
      (with_state P a (stop_server (stop_transport a).nats) k
        (stop_server-off (stop_transport a).nats))
      h

stop_nats-IsSafe : (a : Agent) → IsSafe a → OnReturn IsSafe (stop_nats a)
stop_nats-IsSafe a h = stop_nats-cases IsSafe a h (Off-IsSafe a.settings)

stop_nats-Off : (s : Settings) (a : Agent) → Off s a → OnReturn (Off s) (stop_nats a)
stop_nats-Off s a h = stop_nats-cases (Off s) a h (λ b k. (k.0, k.1 ∙ h.1))

started :
    (env : Env) (t : Bool) (a : Agent)
    → IsSafe a
    → IsSafe (if t then (start_transport env a).0 else a)
started env t a h = if-either IsSafe t _ _ (start_transport-IsSafe env a h) h

reset_nats-IsSafe : (env : Env) (a : Agent) → IsSafe a → OnReturn IsSafe (reset_nats env a)
unfolding reset_nats
reset_nats-IsSafe env a h =
    OnReturn-bind IsSafe IsSafe (stop_nats a) _ (stop_nats-IsSafe a h) λ b k.
      started env (is_started_dispatcher a.nats) _
        (if-either IsSafe (is_started_server a.nats) _ b (start_nats-IsSafe env b k) k)

stop_transport-IsSafe : (a : Agent) → IsSafe (stop_transport a)
stop_transport-IsSafe a = Off-IsSafe a.settings (stop_transport a) (stop_transport-Off a)

abbrev Safely : Agent × Bool → Type 0
Safely (a, back) = IsSafe a

exit-IsSafe : (x : Exiting) (a : Agent) → IsSafe a → OnReturn Safely (exit x a)
unfolding exit
exit-IsSafe x a h =
    let b = stop_controller (record a { exits = a.exits + 1 }) in
    if-either (OnReturn Safely) (not x.tickers_take) _ _ h (
      if-either (OnReturn Safely) (not x.handler_ends) _ _ h (
        OnReturn-bind IsSafe Safely (stop_nats (stop_transport b)) _
          (stop_nats-IsSafe (stop_transport b) (stop_transport-IsSafe b))
          (λ c k. if-either Safely x.quit_has_room _ _ k k)))

forget-IsSafe : (env : Env) (a : Agent) → IsSafe a → OnReturn IsSafe (forget env a)
unfolding forget
forget-IsSafe env a h =
    if-either (OnReturn IsSafe) (is_connector_configured a.settings.connector) _ _ h (
      OnReturn-bind IsSafe IsSafe (reset_nats env (cleared a))
        (λ b. returns (record b { last_errors = [] })) (reset_nats-IsSafe env (cleared a) h)
        (λ b k. k))

put_batchers :
    (s : Settings) (a : Agent) (o p : Outcome (Batcher × List Bytes))
    → Off s a
    → OnReturn (Off s) (
        o >>= λ e. p >>= λ m.
        returns
          (record a { events_batcher = e.0; metrics_batcher = m.0; sent = a.sent ++ (e.1 ++ m.1) }))
put_batchers s a (returns e) (returns m) h = h
put_batchers s a (returns e) panics h = tt
put_batchers s a panics p h = tt

reset_batchers-Off :
    (build_events build_metrics : Builder) (s : Settings) (a : Agent)
    → Off s a
    → OnReturn (Off s) (reset_batchers build_events build_metrics a)
unfolding reset_batchers
reset_batchers-Off build_events build_metrics s a h = put_batchers s a _ _ h

restart-IsSafe :
    (env : Env) (same ran : Bool) (a : Agent) → IsSafe a → OnReturn IsSafe (restart env same ran a)
unfolding restart
restart-IsSafe env same ran a h =
    if-either (OnReturn IsSafe) same _ _ (started env (a.settings.connector.enabled && ran) a h) (
      OnReturn-bind IsSafe IsSafe (stop_nats a)
        (λ b. returns (
          if a.settings.connector.enabled
          then (start_transport env (start_nats env b).0).0
          else (start_nats env b).0))
        (stop_nats-IsSafe a h)
        (λ b k.
          started env a.settings.connector.enabled (start_nats env b).0
            (start_nats-IsSafe env b k)))

module _ (build_events build_metrics : Builder) (same_nats : Config → Config → Bool) where
  config-IsSafe :
      (env again : Env) (loaded : String ⊎ Settings) (payload : Bytes) (a : Agent)
      → OnReturn
          (λ r. IsSafe r.0)
          (config build_events build_metrics same_nats env again loaded payload a)
  unfolding config
  config-IsSafe env again (inl e) payload a = stop_transport-IsSafe a
  config-IsSafe env again (inr s) payload a =
      let b : Agent = record (stop_transport a) { settings = s } in
      let same = same_nats a.settings.connector.nats s.connector.nats in
      let ran = is_started_dispatcher a.nats in
      OnReturn-bind (Off s) (λ r. IsSafe r.0) (reset_batchers build_events build_metrics b) _
        (reset_batchers-Off build_events build_metrics s b ((stop_transport-Off a).0, refl))
        λ c k.
          OnReturn-bind IsSafe (λ r. IsSafe r.0) (restart env same ran c) _
            (restart-IsSafe env same ran c (Off-IsSafe s c k))
            λ d l.
              OnReturn-bind IsSafe (λ r. IsSafe r.0) (forget again d)
                (λ e. returns (record e { handled = e.handled ++ payload ∷ [] }, none))
                (forget-IsSafe again d l) λ e m. m

  handle-IsSafe :
      (t : Task) (a : Agent)
      → IsSafe a
      → OnReturn Safely (handle build_events build_metrics same_nats t a)
  unfolding handle
  handle-IsSafe (configures env again loaded payload) a h =
      OnReturn-bind (λ r. IsSafe r.0) Safely
        (config build_events build_metrics same_nats env again loaded payload a)
        (λ r. returns (r.0, true)) (config-IsSafe env again loaded payload a) (λ r k. k)
  handle-IsSafe (exits x) a h = exit-IsSafe x a h
  handle-IsSafe (resets_nats env) a h =
      OnReturn-bind IsSafe Safely (reset_nats env a) (λ b. returns (b, true))
        (reset_nats-IsSafe env a h) (λ b k. k)
  handle-IsSafe (starts_controller listens) a h = ground arith
  handle-IsSafe stops_controller a h = ground arith
  handle-IsSafe (starts_nats env) a h = start_nats-IsSafe env a h
  handle-IsSafe stops_nats a h =
      OnReturn-bind IsSafe Safely (stop_nats a) (λ b. returns (b, true)) (stop_nats-IsSafe a h)
        (λ b k. k)
  handle-IsSafe (starts_transport env) a h = start_transport-IsSafe env a h
  handle-IsSafe stops_transport a h = stop_transport-IsSafe a

  either_way :
      (back : Bool) (o : Outcome Agent) (b : Agent)
      → OnReturn IsSafe o
      → IsSafe b
      → OnReturn IsSafe (if back then o else returns b)
  either_way true o b rest h = rest
  either_way false o b rest h = h

  handle_tasks-keeps :
      (ts : List Task) (a : Agent)
      → IsSafe a
      → OnReturn IsSafe (handle_tasks build_events build_metrics same_nats ts a)
  unfolding handle_tasks
  handle_tasks-keeps [] a h = h
  handle_tasks-keeps (t ∷ ts) a h =
      OnReturn-bind Safely IsSafe (handle build_events build_metrics same_nats t a) _
        (handle-IsSafe t a h) (λ (b, back) k. either_way back _ b (handle_tasks-keeps ts b k) k)

  -- Whatever tasks the agent handled, with whatever configurations and answers of the environment,
  -- also where an exit does not come back and ends them: if its dispatcher was off or its connector
  -- configured, and no handler panicked, then while its dispatcher runs its connector has a usable
  -- agent id and application type.
  pub handle_tasks-IsSafe :
      (ts : List Task) (a b : Agent)
      → IsSafe a
      → handle_tasks build_events build_metrics same_nats ts a ≡ returns b
      → is_started_dispatcher b.nats ≡ true
      → is_connector_configured b.settings.connector ≡ true
  handle_tasks-IsSafe ts a b h e on =
      let safe = subst (OnReturn IsSafe) e (handle_tasks-keeps ts a h) in ground arith

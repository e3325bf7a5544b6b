-- ===== src/Agent.antt =====
-- services/agent.go and the subscriptions of services/nats.go: the handlers of the agent's tasks.
-- The connector is shared with the configuration, so that loading one replaces the other. An answer
-- of the environment is an argument: what LoadConnectorDTO returns, the hash of the NATS settings,
-- and `Nats.Env`. Telemetry, the authorisation cache and the removal of the store are left out.
pub mod Safety
pub mod Shutdown
pub mod Put
pub mod Demand
mod Tests
use Prim.Native.String.{[] as empty, ◌∷◌ as after, ◌++◌ as join}
use Prim.Native.Char.{code}
use tcg.Common.{
  inl, inr, ◌⊎◌, ℕ, ◌+◌, Bool, true, false, not, ◌&&◌, ◌||◌, Option, none, some, List, [], ◌∷◌,
  ◌++◌, String, Outcome, returns, panics, ◌>>=◌, Bytes, ◌==◌, map, filter_by, str_eq, equal_fold,
  if◌then◌else◌,
}
use tcg.Batcher.{Batcher, Builder, reset, clear}
use tcg.Nats.{
  Config, Env, State, start_server, stop_server, start_dispatcher, stop_dispatcher,
  is_started_server, is_started_dispatcher, library,
}
use tcg.Nats

-- The settings that the handlers read.
pub record GwConnection : Type 0 where
  pub enabled : Bool
  pub host_name : String

pub record Connector : Type 0 where
  pub agent_id : String
  pub app_type : String
  pub enabled : Bool
  pub batch_events : ℕ
  pub batch_metrics : ℕ
  pub batch_max_bytes : ℕ
  pub nats : Config

-- What LoadConnectorDTO puts into the configuration.
pub record Settings : Type 0 where
  pub connector : Connector
  pub gw_connections : List GwConnection

-- `controller` tells whether the HTTP server is set, `sent` are the payloads that the batchers'
-- handlers got, `handled` the arguments of the configuration handler, and `exits` and `quits` count
-- the signals to the batchers and to the main loop.
pub record Agent : Type 0 where
  pub settings : Settings
  pub gw_clients : List GwConnection
  pub nats : State
  pub controller : Bool
  pub events_batcher : Batcher
  pub metrics_batcher : Batcher
  pub sent : List Bytes
  pub last_errors : List String
  pub handled : List Bytes
  pub exits : ℕ
  pub quits : ℕ

pub data Error : Type 0 where
  not_configured : String → String → Error
  load_failed : String → Error
  nats_error : Nats.Error → Error

unfoldable pub is_configured_agent_id : String → Bool
is_configured_agent_id id =
    (not (str_eq id "") && not (str_eq id "AGENT_ID")) && not (str_eq id "#traceOnDemandAgentID#")

unfoldable pub is_configured_app_type : String → Bool
is_configured_app_type t = not (str_eq t "") && not (str_eq t "#traceOnDemandAppType#")

unfoldable pub is_connector_configured : Connector → Bool
unfolding is_configured_agent_id is_configured_app_type
is_connector_configured c = is_configured_agent_id c.agent_id && is_configured_app_type c.app_type

-- The characters / . * and > are removed from a durable's name.
unfoldable pub durable_name : String → String
durable_name empty = empty
durable_name (after c s) =
    let rest = durable_name s in
    if (code c == 47 || code c == 46) || (code c == 42 || code c == 62) then rest else after c rest

-- makeSubscriptions
unfoldable pub make_subscriptions : List GwConnection → List String
unfolding durable_name
make_subscriptions cs = map (λ c. durable_name (join "#" (join c.host_name "#"))) cs

abbrev pub error_of : Option Nats.Error → Option Error
error_of none = none
error_of (some e) = some (nats_error e)

abbrev pub with_nats : Agent → State × Option Nats.Error → Agent × Option Error
with_nats a (s, e) = (record a { nats = s }, error_of e)

unfoldable pub start_nats : Env → Agent → Agent × Option Error
start_nats env a = with_nats a (start_server env a.settings.connector.nats a.nats)

-- stopTransport, whose error is always nil.
unfoldable pub stop_transport : Agent → Agent
stop_transport a =
    if is_started_dispatcher a.nats then record a { nats = stop_dispatcher a.nats } else a

unfoldable pub stop_nats : Agent → Outcome Agent
unfolding stop_transport
stop_nats a =
    if is_started_server a.nats
    then (do s ← stop_server (stop_transport a).nats; returns (record a { nats = s }))
    else returns a

unfoldable pub start_transport : Env → Agent → Agent × Option Error
unfolding make_subscriptions
start_transport env a =
    let c = a.settings.connector in
    let clients = filter_by (λ g. g.enabled) a.settings.gw_connections in
    let b = record a { gw_clients = clients } in
    if not (is_connector_configured c)
    then (
      a,
      if equal_fold c.app_type "NAGIOS" then none else some (not_configured c.app_type c.agent_id),
    )
    else elim clients [
      | [] ↦ (a, none)
      | g ∷ gs ↦ with_nats b (start_dispatcher env (make_subscriptions (g ∷ gs)) a.nats)
    ]

-- resetNats, which returns no error.
unfoldable pub reset_nats : Env → Agent → Outcome Agent
unfolding stop_nats start_nats start_transport
reset_nats env a = do
  b ← stop_nats a
  let c = if is_started_server a.nats then (start_nats env b).0 else b in
      returns (if is_started_dispatcher a.nats then (start_transport env c).0 else c)

-- The controller sets its server itself; `listens` tells whether it still has it in the end.
unfoldable pub start_controller : Bool → Agent → Agent
start_controller listens a = if a.controller then a else record a { controller = listens }

unfoldable pub stop_controller : Agent → Agent
stop_controller a = if a.controller then record a { controller = false } else a

-- What exit meets: whether the tickers take the signals of the batchers' Exit, whether the exit handler
-- comes back, without a panic, and whether the channel of the quit signal has room.
pub record Exiting : Type 0 where
  pub tickers_take : Bool
  pub handler_ends : Bool
  pub quit_has_room : Bool

-- exit, and whether it comes back; where it blocks, so does the worker of the tasks.
unfoldable pub exit : Exiting → Agent → Outcome (Agent × Bool)
unfolding stop_controller stop_transport stop_nats
exit x a =
    let b = record a { exits = a.exits + 1 } in
    if not x.tickers_take
    then returns (a, false)
    else if not x.handler_ends
    then returns (b, false)
    else (do
      c ← stop_nats (stop_transport (stop_controller b))
      returns (if x.quit_has_room then (record c { quits = c.quits + 1 }, true) else (c, false)))

-- NATS is restarted where its settings changed, and the transport started if the connector is
-- enabled; otherwise the transport is started again if it ran and the connector is enabled.
unfoldable pub restart : Env → Bool → Bool → Agent → Outcome Agent
unfolding stop_nats start_nats start_transport
restart env same was_running a =
    let enabled = a.settings.connector.enabled in
    if same
    then returns (if enabled && was_running then (start_transport env a).0 else a)
    else (stop_nats a >>= λ b.
        let c = (start_nats env b).0 in returns (if enabled then (start_transport env c).0 else c))

abbrev pub cleared : Agent → Agent
cleared a = record a {
  events_batcher = clear a.events_batcher;
  metrics_batcher = clear a.metrics_batcher;
}

-- An agent that is not configured forgets what it holds.
unfoldable pub forget : Env → Agent → Outcome Agent
unfolding reset_nats
forget env a =
    if is_connector_configured a.settings.connector
    then returns a
    else (reset_nats env (cleared a) >>= λ b. returns (record b { last_errors = [] }))

-- The handler of a task, with what the environment answers.
pub data Task : Type 0 where
  configures : Env → Env → (String ⊎ Settings) → Bytes → Task
  exits : Exiting → Task
  resets_nats : Env → Task
  starts_controller : Bool → Task
  stops_controller : Task
  starts_nats : Env → Task
  stops_nats : Task
  starts_transport : Env → Task
  stops_transport : Task

module _ (build_events build_metrics : Builder) where
  -- Both batchers get the new limits; what they held is sent.
  unfoldable pub reset_batchers : Agent → Outcome Agent
  reset_batchers a = do
    let c = a.settings.connector in
        reset build_events c.batch_events c.batch_max_bytes a.events_batcher >>= λ e.
        reset build_metrics c.batch_metrics c.batch_max_bytes a.metrics_batcher >>= λ m.
        returns
          (record a { events_batcher = e.0; metrics_batcher = m.0; sent = a.sent ++ (e.1 ++ m.1) })

module _ (build_events build_metrics : Builder) (same_nats : Config → Config → Bool) where
  -- config; the environment answers twice, since NATS can be started twice.
  unfoldable pub config :
      Env → Env → (String ⊎ Settings) → Bytes → Agent → Outcome (Agent × Option Error)
  unfolding stop_transport reset_batchers restart forget
  config env again (inl e) payload a = returns (stop_transport a, some (load_failed e))
  config env again (inr settings) payload a = do
    b ←
        reset_batchers build_events build_metrics
          (record (stop_transport a) { settings = settings })
    c ←
        restart env (same_nats a.settings.connector.nats settings.connector.nats)
          (is_started_dispatcher a.nats) b
    d ← forget again c
    returns (record d { handled = d.handled ++ payload ∷ [] }, none)

  -- hTask: the new state, and whether it comes back; the error goes to the task's channel.
  unfoldable pub handle : Task → Agent → Outcome (Agent × Bool)
  unfolding config exit reset_nats start_controller stop_controller start_nats stop_nats
      start_transport stop_transport
  handle (configures env again loaded payload) a = do
    r ← config env again loaded payload a
    returns (r.0, true)
  handle (exits x) a = exit x a
  handle (resets_nats env) a = do b ← reset_nats env a; returns (b, true)
  handle (starts_controller listens) a = returns (start_controller listens a, true)
  handle stops_controller a = returns (stop_controller a, true)
  handle (starts_nats env) a = returns ((start_nats env a).0, true)
  handle stops_nats a = do b ← stop_nats a; returns (b, true)
  handle (starts_transport env) a = returns ((start_transport env a).0, true)
  handle stops_transport a = returns (stop_transport a, true)

  -- The tasks of the queue, which one worker handles in their order, up to a handler that does not
  -- come back.
  unfoldable pub handle_tasks : List Task → Agent → Outcome Agent
  unfolding handle
  handle_tasks [] a = returns a
  handle_tasks (t ∷ ts) a =
      handle t a >>= λ (b, back). let rest = handle_tasks ts b in if back then rest else returns b

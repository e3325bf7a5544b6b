-- ===== src/Controller/Routes.antt =====
-- services/controller.go: the handlers of the HTTP API, and which of them checkAccess guards. gin calls
-- the handlers of a route until one aborts. A body is what the client is sent; the debug routes, the
-- documentation and the profiles are left out.
use tcg.Common.{
  ◌⊎◌, inl, inr, ℕ, Bool, true, false, not, ◌&&◌, Option, none, some, is_none, List, [], ◌∷◌,
  String, Bytes, Outcome, returns, ◌>>=◌, str_eq, if◌then◌else◌,
}
use tcg.Agent.{Agent}
use tcg.Nats
use tcg.Nats.{is_started_dispatcher}
use tcg.Taskqueue.{TaskQueue, Push, accepted, undefined_subject, exhausted, push_async}
use tcg.TransitService
use tcg.TransitService.{
  Result, clear_in_downtime, set_in_downtime, send_events, send_events_ack, send_events_unack,
  synchronize_inventory, send_resource_with_metrics,
}
use tcg.Controller.{Env, Request, Configured, Access, allowed, disallowed, check_access}

-- ConnectorStatusDTO is a status with the number of a job.
pub data Body : Type 0 where
  nothing : Body
  message : String → Body
  status_dto : String → ℕ → Body
  metrics_body : Bytes → Body
  identity_body : String → String → Body
  other_body : Body

pub record Response : Type 0 where
  pub code : ℕ
  pub body : Body

pub record Server : Type 0 where
  pub agent : Agent
  pub queue : TaskQueue

abbrev pub Served : Type 0
Served = Outcome (Response × Server)

-- A handler of RegisterEntrypoints is code of a connector.
pub data Route : Type 0 where
  config_route downtime_clear downtime_set events_route events_ack events_unack : Route
  inventory_route metrics_route list_metrics_route reset_nats_route start_route stop_route : Route
  identity_route stats_route status_route version_route : Route
  entrypoint : (Server → Served) → Route

-- `decode` is the DSConnection's host name in a connector's data, `metrics_list` what the list handler
-- returns, and `text` Error() of an error of NATS.
pub record Call : Type 0 where
  pub raw : String ⊎ Bytes
  pub decode : Bytes → Option String
  pub is_pmc : Bool
  pub parent : String
  pub metrics_list : String ⊎ Bytes
  pub text : Nats.Error → String

abbrev pub reply : ℕ → Body → Server → Response × Server
reply code body s = (record { code = code; body = body }, s)

abbrev pub op_reply : Call → Server → Result → Response × Server
op_reply call s (a, none) = reply 200 nothing (record s { agent = a })
op_reply call s (a, some e) = reply 500 (message (call.text e)) (record s { agent = a })

-- The body that the handlers of the transit service share.
unfoldable pub send_raw : Call → (Bytes → Agent → Outcome Result) → Server → Served
send_raw call send s = elim call.raw [
  | inl e ↦ returns (reply 400 (message e) s)
  | inr payload ↦ (send payload s.agent >>= λ r. returns (op_reply call s r))
]

abbrev pub task_reply : Server → TaskQueue × Push → Response × Server
task_reply s (q, accepted t) = reply 200 (status_dto "processing" t.idx) (record s { queue = q })
task_reply s (q, undefined_subject) = reply 500 (message "undefined") (record s { queue = q })
task_reply s (q, exhausted ts) = reply 500 (message "exhausted") (record s { queue = q })

unfoldable pub push_task : String → List Bytes → Server → Served
unfolding push_async
push_task subj args s = push_async subj args s.queue >>= λ r. returns (task_reply s r)

module _ (call : Call) where
  unfoldable pub config_of : Bytes → Option String → Server → Served
  unfolding push_task
  config_of payload none s = returns (reply 400 (message "could not unmarshal connector dto") s)
  config_of payload (some host) s =
      if call.is_pmc && not (str_eq host call.parent)
      then returns (reply 400 (message "wrong PMC connector config") s)
      else push_task "config" (payload ∷ []) s

  unfoldable pub config : Server → Served
  unfolding config_of
  config s = elim call.raw [
    | inl e ↦ returns (reply 400 (message e) s)
    | inr payload ↦ config_of payload (call.decode payload) s
  ]

  unfoldable pub list_metrics : Server → Served
  list_metrics s = elim call.metrics_list [
    | inl e ↦ returns (reply 500 (message e) s)
    | inr b ↦ returns (reply 200 (metrics_body b) s)
  ]

unfoldable pub reset_nats : Server → Served
unfolding push_task
reset_nats s = push_task "resetNats" [] s

-- `status.task` is the task that the worker has.
unfoldable pub start : Server → Served
unfolding push_task
start s =
    if is_started_dispatcher s.agent.nats && is_none s.queue.busy
    then returns (reply 200 (status_dto "running" 0) s)
    else push_task "startTransport" [] s

unfoldable pub stop : Server → Served
unfolding push_task
stop s =
    if not (is_started_dispatcher s.agent.nats) && is_none s.queue.busy
    then returns (reply 200 (status_dto "stopped" 0) s)
    else push_task "stopTransport" [] s

unfoldable pub status : Server → Served
status s = elim s.queue.busy [
  | some t ↦ returns (reply 200 (status_dto "processing" t.idx) s)
  | none ↦ returns (
      reply 200 (status_dto (if is_started_dispatcher s.agent.nats then "running" else "stopped") 0)
        s)
]

unfoldable pub agent_identity : Server → Served
agent_identity s =
    let c = s.agent.settings.connector in
    returns (reply 200 (identity_body c.agent_id c.app_type) s)

module _ (transit : TransitService.Env) (call : Call) where
  -- The handler of a route.
  unfoldable pub handler : Route → Server → Served
  unfolding config send_raw list_metrics reset_nats start stop status agent_identity
      clear_in_downtime set_in_downtime send_events send_events_ack send_events_unack
      synchronize_inventory send_resource_with_metrics
  handler config_route s = config call s
  handler downtime_clear s = send_raw call (λ p a. returns (clear_in_downtime transit p a)) s
  handler downtime_set s = send_raw call (λ p a. returns (set_in_downtime transit p a)) s
  handler events_route s = send_raw call (send_events transit) s
  handler events_ack s = send_raw call (λ p a. returns (send_events_ack transit p a)) s
  handler events_unack s = send_raw call (λ p a. returns (send_events_unack transit p a)) s
  handler inventory_route s = send_raw call (synchronize_inventory transit) s
  handler metrics_route s = send_raw call (send_resource_with_metrics transit) s
  handler list_metrics_route s = list_metrics call s
  handler reset_nats_route s = reset_nats s
  handler start_route s = start s
  handler stop_route s = stop s
  handler identity_route s = agent_identity s
  handler stats_route s = returns (reply 200 other_body s)
  handler status_route s = status s
  handler version_route s = returns (reply 200 other_body s)
  handler (entrypoint h) s = h s

-- registerAPI1: the routes of the group that uses checkAccess.
unfoldable pub is_private : Route → Bool
is_private identity_route = false
is_private stats_route = false
is_private status_route = false
is_private version_route = false
is_private _ = true

abbrev pub guarded : Access → (Server → Served) → Server → Served
guarded allowed h s = h s
guarded (disallowed e) h s = returns (reply 401 (message e) s)

unfoldable pub serve :
    Env → Configured → Request → TransitService.Env → Call → Route → Server → Served
unfolding handler is_private check_access
serve env conf req transit call route s =
    if is_private route
    then guarded (check_access env conf req) (handler transit call route) s
    else handler transit call route s

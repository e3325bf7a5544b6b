-- ===== src/Agent/Tests.antt =====
-- services/agent.go for a given agent.
use tcg.Common.{
  map, inr, ◌⊎◌, Bytes, String, pos, ◌≡◌, refl, Bool, true, false, none, some, List, [], ◌∷◌,
  returns, ℕ, ◌≤◌, ltb, length, arith, if◌then◌else◌,
}
use tcg.Batcher.{Batcher, Builder}
use tcg.Nats.Stream.{not_found}
use tcg.Nats.{
  publish, State, Config, Env, init, no_config, read_options, is_started_server,
  is_started_dispatcher, start_dispatcher, start_server,
}
use tcg.Agent.Demand.{Ended, Waits, found, ended_by, poll, poll_ends}
use tcg.Clients.{Answer, answers}
use tcg.Clients.Reload.{reload}
use tcg.Agent.{
  Agent, Exiting, Settings, GwConnection, is_connector_configured, Task, starts_nats, exits,
  stops_transport, starts_transport, handle_tasks, reset_nats, exit, durable_name,
  make_subscriptions,
}
use tcg.Agent.Put.{Span, put2nats}
use tcg.Agent.Put.Limit.{Result, put2nats_lem}
use tcg.Agent.Safety.{handle_tasks-IsSafe}
use tcg.Agent.Shutdown.{exit_stops, reset_nats_restores}

abbrev env : Env
env = record {
  open_file = λ f. true;
  process_file = λ f. none;
  new_server = λ c. none;
  connect_publisher = none;
  connect_dispatcher = none;
  stream = record { jetstream = none; lookup = not_found; call = λ c. none; disk_free = none };
  consumer = λ d. true;
}

abbrev host : GwConnection
host = record { enabled = true; host_name = "gw.local/api" }

abbrev spare : GwConnection
spare = record { enabled = false; host_name = "spare" }

abbrev settings : Settings
settings = record {
  connector = record {
    agent_id = "0fe7";
    app_type = "SNMP";
    enabled = true;
    batch_events = 5;
    batch_metrics = 5;
    batch_max_bytes = 1024;
    nats = no_config;
  };
  gw_connections = spare ∷ host ∷ [];
}

abbrev batcher : Batcher
batcher = record { buf = []; buf_size = 0; max_bytes = 1024; period = 5; running = true }

abbrev agent : Agent
agent = record {
  settings = settings;
  gw_clients = [];
  nats = init;
  controller = true;
  events_batcher = batcher;
  metrics_batcher = batcher;
  sent = [];
  last_errors = [];
  handled = [];
  exits = 0;
  quits = 0;
}

durable : durable_name "#gw.local/api#" ≡ "#gwlocalapi#"
unfolding durable_name
durable = refl

abbrev running : Agent
running = record agent {
  gw_clients = host ∷ [];
  nats = record init {
    server = true;
    nc_publisher = true;
    nc_dispatcher = true;
    cancel = true;
    pub_loop = true;
    dispatcher_cancel = true;
    fetching = "#gwlocalapi#" ∷ [];
  };
}

abbrev same_build : Builder
same_build n buf = returns buf

abbrev same : Config → Config → Bool
same c d = true

abbrev tasks : List Task
tasks = starts_nats env ∷ starts_transport env ∷ []

handle_tasks-IsSafe_example : is_connector_configured running.settings.connector ≡ true
unfolding handle_tasks start_dispatcher make_subscriptions is_connector_configured start_server
handle_tasks-IsSafe_example =
    handle_tasks-IsSafe same_build same_build same tasks agent running refl refl refl

abbrev full : Exiting
full = record { tickers_take = true; handler_ends = true; quit_has_room = false }

exit_stops_example :
    (b : Agent) × (exit full running ≡ returns (b, false))
    × (is_started_server b.nats ≡ false)
    × (is_started_dispatcher b.nats ≡ false)
    × (b.controller ≡ false)
exit_stops_example = exit_stops full running refl refl refl

abbrev stuck : Exiting
stuck = record { tickers_take = false; handler_ends = true; quit_has_room = true }

blocked :
    handle_tasks same_build same_build same (exits stuck ∷ stops_transport ∷ []) running
    ≡ returns running
unfolding handle_tasks
blocked = refl

reset_nats_restores_example :
    (b : Agent) × (reset_nats env running ≡ returns b)
    × (is_started_server b.nats ≡ true)
    × (is_started_dispatcher b.nats ≡ true)
unfolding read_options is_connector_configured
reset_nats_restores_example =
    reset_nats_restores env running host [] refl refl refl refl refl refl refl refl

-- A compression that keeps every other byte.
abbrev halve : Bytes → String ⊎ Bytes
halve bs = inr (every_other bs)
  where
    every_other : Bytes → Bytes
    every_other [] = []
    every_other (b ∷ []) = b ∷ []
    every_other (b ∷ c ∷ bs) = b ∷ every_other bs

abbrev span : Span
span = record { span_id = "01"; trace_id = "02"; trace_flags = "00" }

abbrev wide : State
wide = record init { config = record no_config { max_payload = pos 4 } }

put2nats_lem_example :
    Result halve
      (pos 3)
      (5 ∷ 6 ∷ 7 ∷ 8 ∷ 9 ∷ [])
      wide
      (put2nats halve (pos 3) span "tcg.metrics" [] (5 ∷ 6 ∷ 7 ∷ 8 ∷ 9 ∷ []) wide)
put2nats_lem_example =
    put2nats_lem halve (pos 3) span "tcg.metrics" [] (5 ∷ 6 ∷ 7 ∷ 8 ∷ 9 ∷ []) wide

compressed :
    map
      (λ m. m.payload)
      (put2nats halve (pos 3) span "tcg.metrics" [] (5 ∷ 6 ∷ 7 ∷ 8 ∷ 9 ∷ []) wide).0.pending
    ≡ (5 ∷ 7 ∷ 9 ∷ []) ∷ []
unfolding put2nats publish
compressed = refl

-- DalekServices is down twice, and then takes the request.
abbrev third_time : ℕ → Answer
third_time n = if ltb n 2 then answers 500 "" else answers 201 ""

poll_ends_example :
    (end : Ended) × (waits : List ℕ) × (poll "dalekservices" third_time 3 0 ≡ some (end, waits))
    × (length waits ≤ 2)
    × Waits waits
unfolding ended_by reload
poll_ends_example = poll_ends "dalekservices" third_time 2 3 found refl (omega arith)

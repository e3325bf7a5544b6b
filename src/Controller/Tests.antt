-- ===== src/Controller/Tests.antt =====
-- services/controller.go on given requests.
use tcg.Common.{
  ◌≡◌, refl, inl, inr, none, some, true, false, [], ◌∷◌, pos, str_eq, returns, OnReturn,
}
use tcg.Agent.{Agent}
use tcg.Batcher.{Batcher}
use tcg.Nats.{init, no_config}
use tcg.Taskqueue.{new_task_queue, prepare, commit, can_send, put_ring}
use tcg.Transit.Monitored.{no_context}
use tcg.TransitService
use tcg.Controller.Routes.{
  Server, Call, message, status_dto, reset_nats_route, stop_route, is_private, handler, reset_nats,
  stop, push_task, serve,
}
use tcg.Controller.Changes.{IsServed, Unchanged, serve-Unchanged}
use tcg.Controller.{Env, Request, Configured, allowed, check_access}
use tcg.Controller.Granted.{IsGranted, check_access-IsGranted}

abbrev conf : Configured
conf = record { ds_host = "ds"; gw_clients = 1; controller_pin = "" }

-- A hash that keeps the text, and a cache that has one key.
abbrev env : Env
env = record {
  hash = λ s. inr s;
  seen = λ key. str_eq key "adminsecret";
  seen_again = λ key. false;
  add = λ key. none;
  authenticate = λ a b. some "refused";
  validate = λ a b. some "refused";
}

abbrev other_cut : Request
other_cut = record { pin = ""; basic = some ("adminsec", "ret"); app_name = ""; api_token = "" }

-- The key of admin with secret is that of other credentials too.
other_cut_allowed : check_access env conf other_cut ≡ allowed
unfolding check_access
other_cut_allowed = refl

check_access-IsGranted_example : IsGranted env other_cut
check_access-IsGranted_example =
    check_access-IsGranted env conf other_cut refl refl other_cut_allowed

abbrev no_batcher : Batcher
no_batcher = record { buf = []; buf_size = 0; max_bytes = 1024; period = 5; running = true }

abbrev agent : Agent
agent = record {
  settings = record {
    connector = record {
      agent_id = "0fe7";
      app_type = "SNMP";
      enabled = true;
      batch_events = 0;
      batch_metrics = 0;
      batch_max_bytes = 1024;
      nats = no_config;
    };
    gw_connections = [];
  };
  gw_clients = [];
  nats = init;
  controller = true;
  events_batcher = no_batcher;
  metrics_batcher = no_batcher;
  sent = [];
  last_errors = [];
  handled = [];
  exits = 0;
  quits = 0;
}

abbrev transit : TransitService.Env
transit = record {
  gzip = λ p. inr p;
  max_payload = pos 1000;
  span = record { span_id = "01"; trace_id = "02"; trace_flags = "00" };
  suppress_downtimes = false;
  suppress_events = false;
  suppress_metrics = false;
  suppress_states = false;
  suppress_inventory = false;
  tracer_context = no_context;
  marshal_context = λ tc. none;
  build_events = λ n buf. returns buf;
  build_metrics = λ n buf. returns buf;
}

abbrev server : Server
server = record { agent = agent; queue = new_task_queue 8 ("resetNats" ∷ "stopTransport" ∷ []) }

abbrev call : Call
call = record {
  raw = inr (1 ∷ []);
  decode = λ b. none;
  is_pmc = false;
  parent = "";
  metrics_list = inl "unavailable";
  text = λ e. "error";
}

abbrev refused : Request
refused = record { pin = ""; basic = none; app_name = ""; api_token = "" }

serve-Unchanged_example :
    IsServed
      (Unchanged server (check_access env conf refused))
      (serve env conf refused transit call reset_nats_route server)
serve-Unchanged_example = serve-Unchanged env conf refused transit call reset_nats_route server

-- A request without credentials changes nothing, and one that is allowed queues its task.
refused_reset :
    serve env conf refused transit call reset_nats_route server
    ≡ returns (record { code = 401; body = message "misconfigured GWOS auth" }, server)
unfolding serve is_private check_access
refused_reset = refl

allowed_reset :
    OnReturn
      (λ r. r.0 ≡ record { code = 200; body = status_dto "processing" 1 })
      (serve env conf other_cut transit call reset_nats_route server)
unfolding serve is_private check_access handler reset_nats push_task new_task_queue prepare commit
    can_send put_ring
allowed_reset = refl

already_stopped :
    serve env conf other_cut transit call stop_route server
    ≡ returns (record { code = 200; body = status_dto "stopped" 0 }, server)
unfolding serve is_private check_access handler stop new_task_queue
already_stopped = refl

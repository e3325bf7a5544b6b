-- ===== src/TransitService/Tests.antt =====
-- services/transit.go on a given agent.
use tcg.Common.{
  lookup, ◌≡◌, refl, inr, true, false, Option, none, some, [], ◌∷◌, String, pos, List, returns,
  panics, Dict,
}
use tcg.Agent.{Agent, Connector}
use tcg.Agent.Put.{Span}
use tcg.Batcher.{Batcher}
use tcg.Dispatcher.{remove}
use tcg.Nats.{init, no_config}
use tcg.Transit.Value.{Timestamp, TypedValue, of_text}
use tcg.Transit.Status.{MonitorStatus, service_warning, other_status}
use tcg.Transit.Monitored.{
  BaseInfo, MonitoredInfo, InventoryService, InventoryResource, MonitoredResource, no_context,
  TracerContext,
}
use tcg.TransitService.{Env}
use tcg.TransitService.Context.{ascii, mix_tracer_context, fix_tracer_context}
use tcg.TransitService.Ext.{Downtime, filter_ext_info}
use tcg.TransitService.Ext.Split.{ResourcesSplit, filter_ext_info_lem}

abbrev span : Span
span = record { span_id = "01"; trace_id = "02"; trace_flags = "00" }

abbrev context : TracerContext
context = record no_context { agent_id = "0fe7"; app_type = "#traceOnDemandAppType#" }

abbrev env : Env
unfolding ascii
env = record {
  gzip = λ p. inr p;
  max_payload = pos 1000;
  span = span;
  suppress_downtimes = false;
  suppress_events = false;
  suppress_metrics = false;
  suppress_states = false;
  suppress_inventory = false;
  tracer_context = context;
  marshal_context = λ tc. some (ascii "{}");
  build_events = λ n buf. returns buf;
  build_metrics = λ n buf. returns buf;
}

abbrev connector : Connector
connector = record {
  agent_id = "0fe7";
  app_type = "SNMP";
  enabled = true;
  batch_events = 5;
  batch_metrics = 5;
  batch_max_bytes = 1024;
  nats = no_config;
}

abbrev waiting : Batcher
unfolding ascii
waiting = record {
  buf = ascii "{1}" ∷ [];
  buf_size = 3;
  max_bytes = 1024;
  period = 5;
  running = true;
}

abbrev agent : Agent
agent = record {
  settings = record { connector = connector; gw_connections = [] };
  gw_clients = [];
  nats = record init { config = record no_config { max_payload = pos 1000 } };
  controller = true;
  events_batcher = waiting;
  metrics_batcher = waiting;
  sent = [];
  last_errors = [];
  handled = [];
  exits = 0;
  quits = 0;
}

mixed :
    mix_tracer_context env.marshal_context context (ascii "{\"a\":1}")
    ≡ returns (ascii "{\"a\":1,\"context\":{}}", true)
unfolding mix_tracer_context ascii
mixed = refl

no_brace_panics : mix_tracer_context env.marshal_context context (ascii "[]") ≡ panics
unfolding mix_tracer_context ascii
no_brace_panics = refl

fixed : fix_tracer_context connector (ascii "<#traceOnDemandAppType#>") ≡ ascii "<SNMP>"
unfolding fix_tracer_context ascii
fixed = refl

abbrev info : String → Dict TypedValue → BaseInfo
info name props = record {
  name = name;
  type = "";
  owner = "";
  category = "";
  description = "";
  properties = props;
}

abbrev disk : InventoryService
disk = record {
  info = info "disk" (("Notes", of_text "big") ∷ ("MonitorStatus", of_text "SERVICE_WARNING") ∷ []);
}

abbrev box : InventoryResource
box = record {
  info = info "box" (("Alias", of_text "b") ∷ ("LastPluginOutput", of_text "fine") ∷ []);
  device = "10.0.0.1";
  services = disk ∷ [];
}

abbrev now : Timestamp
now = record { unix_nano = pos 9 }

abbrev plain_box : InventoryResource
plain_box = record box {
  info = info "box" (("Alias", of_text "b") ∷ []);
  services = record { info = info "disk" (("Notes", of_text "big") ∷ []) } ∷ [];
}

abbrev state : MonitorStatus → String → Option Timestamp → MonitoredInfo
state status output last = record {
  status = status;
  last_check_time = last;
  next_check_time = none;
  last_plugin_output = output;
}

abbrev box_state : MonitoredResource
box_state = record {
  info = info "box" (("Alias", of_text "b") ∷ []);
  device = "10.0.0.1";
  monitored = state (other_status "") "fine" (some now);
  services =
      record {
        info = info "disk" (("Notes", of_text "big") ∷ []);
        monitored = state service_warning "" (some now);
        metrics = [];
      }
      ∷ [];
}

filter_ext_info_lem_example :
    (r : List InventoryResource × List MonitoredResource × List Downtime) × (filter_ext_info now
        (box ∷ [])
      ≡ returns r)
    × ResourcesSplit now (box ∷ []) (r.0) (r.1)
unfolding lookup
filter_ext_info_lem_example =
    filter_ext_info_lem now (box ∷ [])
      (((tt, ("fine", refl), tt), ((("SERVICE_WARNING", refl), tt, tt), tt)), tt)

filtered : filter_ext_info now (box ∷ []) ≡ returns (plain_box ∷ [], box_state ∷ [], [])
unfolding filter_ext_info remove
filtered = refl

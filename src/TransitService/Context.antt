-- ===== src/TransitService/Context.antt =====
-- services/agent.go: MakeTracerContext, mixTracerContext and fixTracerContext. A payload is its bytes,
-- and a text of the code the codes of its characters, which are ASCII; JSON is an argument.
use Prim.Native.String.{[] as empty, ◌∷◌ as after}
use Prim.Native.Char.{code}
use tcg.Common.{
  ℕ, zero, suc, ◌-◌, Bool, false, ◌&&◌, ◌||◌, Option, none, some, [], ◌∷◌, ◌++◌, String, Bytes,
  Outcome, returns, deref, ◌>>=◌, length, ◌==◌, str_eq, if◌then◌else◌,
}
use tcg.Agent.{Connector, is_connector_configured}
use tcg.Envelope.{starts_with}
use tcg.Transit.Value.{Timestamp}
use tcg.Transit.Monitored.{TracerContext}

unfoldable pub ascii : String → Bytes
ascii empty = []
ascii (after c s) = code c ∷ ascii s

-- bytes.Contains, of bytes that are not empty.
unfoldable pub has_bytes : Bytes → Bytes → Bool
unfolding starts_with
has_bytes [] sub = false
has_bytes (b ∷ bs) sub = starts_with (b ∷ bs) sub || has_bytes bs sub

-- bytes.ReplaceAll, of bytes that are not empty; `skip` counts what an occurrence still covers.
unfoldable pub replace_bytes : Bytes → Bytes → ℕ → Bytes → Bytes
unfolding starts_with
replace_bytes old new skip [] = []
replace_bytes old new (suc skip) (b ∷ bs) = replace_bytes old new skip bs
replace_bytes old new zero (b ∷ bs) =
    let found = starts_with (b ∷ bs) old in
    let rest = replace_bytes old new (if found then length old - 1 else 0) bs in
    if found then new ++ rest else b ∷ rest

-- The bytes before the last `}`; none where there is none, and the slice with bound -1 panics.
unfoldable pub before_last_brace : Bytes → Option Bytes
before_last_brace [] = none
before_last_brace (b ∷ bs) = elim (before_last_brace bs) [
  | some front ↦ some (b ∷ front)
  | none ↦ if b == 125 then some [] else none
]

abbrev pub on_demand_agent_id : String
on_demand_agent_id = "#traceOnDemandAgentID#"

abbrev pub on_demand_app_type : String
on_demand_app_type = "#traceOnDemandAppType#"

-- MakeTracerContext, with the trace token and the time.
unfoldable pub make_tracer_context : Connector → String → Timestamp → TracerContext
make_tracer_context c token now = record {
  app_type = if str_eq c.app_type "" then on_demand_app_type else c.app_type;
  agent_id = if str_eq c.agent_id "" then on_demand_agent_id else c.agent_id;
  trace_token = token;
  time_stamp = some now;
  version = "1.0.0";
}

-- mixTracerContext: the payload with a context, and whether that has placeholders.
unfoldable pub mix_tracer_context :
    (TracerContext → Option Bytes) → TracerContext → Bytes → Outcome (Bytes × Bool)
unfolding has_bytes ascii before_last_brace
mix_tracer_context marshal tc payload =
    if has_bytes payload (ascii "\"context\":") && has_bytes payload (ascii "\"traceToken\":")
    then returns (
      payload,
      has_bytes payload (ascii on_demand_agent_id) || has_bytes payload (ascii on_demand_app_type),
    )
    else elim (marshal tc) [
      | none ↦ returns (payload, false)
      | some json ↦
          (deref (before_last_brace payload) >>= λ front. returns (
            front ++ (ascii ",\"context\":" ++ (json ++ ascii "}")),
            str_eq tc.agent_id on_demand_agent_id || str_eq tc.app_type on_demand_app_type,
          ))
    ]

-- fixTracerContext
unfoldable pub fix_tracer_context : Connector → Bytes → Bytes
unfolding replace_bytes ascii is_connector_configured
fix_tracer_context c payload =
    if is_connector_configured c
    then replace_bytes (ascii on_demand_agent_id) (ascii c.agent_id) 0
        (replace_bytes (ascii on_demand_app_type) (ascii c.app_type) 0 payload)
    else payload

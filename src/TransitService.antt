-- ===== src/TransitService.antt =====
-- services/transit.go: the transit service, on the state of the agent service. Exported files, spans and
-- statistics are left out; their failures are only logged.
pub mod Context
pub mod Ext
mod Tests
use tcg.Common.{
  ◌⊎◌, inl, inr, ℕ, Bool, true, false, not, ◌&&◌, Option, none, some, List, [], ◌∷◌, ◌++◌, String,
  ℤ, Bytes, Outcome, returns, panics, ◌>>=◌, ◌==◌, if◌then◌else◌,
}
use tcg.Agent.{Agent}
use tcg.Agent.Put.{Header, Span, put2nats, set_header}
use tcg.Batcher.{Builder, add, batch}
use tcg.Transit.Monitored.{TracerContext}
use tcg.Nats
use tcg.TransitService.Context.{mix_tracer_context}

-- What the operations read and do not change. `tracer_context` is what MakeTracerContext returns.
pub record Env : Type 0 where
  pub gzip : Bytes → String ⊎ Bytes
  pub max_payload : ℤ
  pub span : Span
  pub suppress_downtimes : Bool
  pub suppress_events : Bool
  pub suppress_metrics : Bool
  pub suppress_states : Bool
  pub suppress_inventory : Bool
  pub tracer_context : TracerContext
  pub marshal_context : TracerContext → Option Bytes
  pub build_events : Builder
  pub build_metrics : Builder

-- The header that an operation adds to the context.
unfoldable pub payload_header : String → Bool → Header
unfolding set_header
payload_header type todo =
    let h = set_header "Payload-Type" type [] in
    if todo then set_header "Todo-Tracer-Ctx" "-" h else h

abbrev pub Result : Type 0
Result = Agent × Option Nats.Error

module _ (env : Env) where
  unfoldable pub put : String → String → Bool → Bytes → Agent → Result
  unfolding payload_header put2nats
  put subj type todo payload a =
      let (s, e) =
        put2nats env.gzip env.max_payload env.span subj (payload_header type todo) payload a.nats in
      (record a { nats = s }, e)

  unfoldable pub clear_in_downtime : Bytes → Agent → Result
  unfolding put
  clear_in_downtime payload a =
      if env.suppress_downtimes
      then (a, none)
      else put "tcg.downtimes" "clearInDowntime" false payload a

  unfoldable pub set_in_downtime : Bytes → Agent → Result
  unfolding put
  set_in_downtime payload a =
      if env.suppress_downtimes
      then (a, none)
      else put "tcg.downtimes" "setInDowntime" false payload a

  unfoldable pub send_events_ack : Bytes → Agent → Result
  unfolding put
  send_events_ack payload a =
      if env.suppress_events then (a, none) else put "tcg.events" "eventsAck" false payload a

  unfoldable pub send_events_unack : Bytes → Agent → Result
  unfolding put
  send_events_unack payload a =
      if env.suppress_events then (a, none) else put "tcg.events" "eventsUnack" false payload a

  -- sendEvents, and its calls for the payloads of a batch, whose errors the batcher logs.
  unfoldable pub send_events_now : Bytes → Agent → Result
  unfolding put
  send_events_now payload a = put "tcg.events" "events" false payload a

  unfoldable pub send_events_batch : List Bytes → Agent → Agent
  unfolding send_events_now
  send_events_batch [] a = a
  send_events_batch (p ∷ ps) a = send_events_batch ps (send_events_now p a).0

  unfoldable pub send_events : Bytes → Agent → Outcome Result
  unfolding send_events_now send_events_batch
  send_events payload a =
      if env.suppress_events
      then returns (a, none)
      else if a.settings.connector.batch_events == 0
      then returns (send_events_now payload a)
      else (add env.build_events payload a.events_batcher >>= λ r.
          returns (send_events_batch r.1 (record a { events_batcher = r.0 }), none))

  -- A payload of metrics or of inventory, with its context.
  unfoldable pub put_with_context : String → Bytes → Agent → Outcome Result
  unfolding put mix_tracer_context
  put_with_context type payload a =
      mix_tracer_context env.marshal_context env.tracer_context payload >>= λ m.
      returns (put "tcg.metrics" type (m.1) (m.0) a)

  -- sendMetrics
  unfoldable pub send_metrics_now : Bytes → Agent → Outcome Result
  unfolding put_with_context
  send_metrics_now payload a = put_with_context "metrics" payload a

  unfoldable pub send_metrics_batch : List Bytes → Agent → Outcome Agent
  unfolding send_metrics_now
  send_metrics_batch [] a = returns a
  send_metrics_batch (p ∷ ps) a = send_metrics_now p a >>= λ r. send_metrics_batch ps r.0

  unfoldable pub send_resource_with_metrics : Bytes → Agent → Outcome Result
  unfolding send_metrics_now send_metrics_batch
  send_resource_with_metrics payload a =
      if env.suppress_metrics
      then returns (a, none)
      else if a.settings.connector.batch_metrics == 0
      then send_metrics_now payload a
      else (add env.build_metrics payload a.metrics_batcher >>= λ r.
          send_metrics_batch r.1 (record a { metrics_batcher = r.0 }) >>= λ b. returns (b, none))

  -- `metricsBatcher.Batch()`, where metrics are batched.
  unfoldable pub flush_metrics : Agent → Outcome Agent
  unfolding send_metrics_batch
  flush_metrics a =
      if a.settings.connector.batch_metrics == 0
      then returns a
      else (batch env.build_metrics a.metrics_batcher >>= λ r.
          send_metrics_batch r.1 (record a { metrics_batcher = r.0 }))

  -- SendStates, from the payload on.
  unfoldable pub send_states : Bytes → Agent → Outcome Result
  unfolding flush_metrics put_with_context
  send_states payload a =
      if env.suppress_states
      then returns (a, none)
      else (flush_metrics a >>= λ b. put_with_context "metrics" payload b)

  unfoldable pub synchronize_inventory : Bytes → Agent → Outcome Result
  unfolding flush_metrics put_with_context
  synchronize_inventory payload a =
      if env.suppress_inventory
      then returns (a, none)
      else (flush_metrics a >>= λ b. put_with_context "inventory" payload b)

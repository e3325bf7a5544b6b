-- ===== src/Clients/Delivery.antt =====
-- services/nats.go: adaptClient and the handler of makeDurable, from a message to the dispatcher's
-- verdict. Spans and statistics are left out. A
-- message is its header, none for a nil map, and its data.
use tcg.Common.{
  ◌⊎◌, inl, inr, ℕ, Bool, false, not, ◌&&◌, Option, none, some, [], ◌∷◌, String, Bytes, lookup,
  Outcome, returns, deref, ◌>>=◌, ◌==◌, str_eq, if◌then◌else◌,
}
use tcg.Agent.Put.{Header, set_header}
use tcg.Envelope.{NatsPayload, type_from_str, type_name, unmarshal}
use tcg.Dispatcher.{Verdict, delivered, permanent, transient}
use tcg.Clients.{GwClient, World, Tokens}
use tcg.Clients.Errors.{Error, Foreign, foreign, is_transient, is_unauthorized}
use tcg.Clients.Requests.{
  Call, Answers, send_request, synchronize_inventory, send_resources_with_metrics,
  clear_in_downtime, set_in_downtime, send_events, send_events_ack, send_events_unack,
}

-- The error of a handler: one of the client, or a type of payload that it does not know.
pub data Failure : Type 0 where
  client_error : Error → Failure
  unknown_name : String → Failure
  unknown_type : ℕ → Failure

-- `header.Get`
unfoldable pub get_header : String → Header → String
unfolding lookup
get_header k h = elim (lookup k h) [ none ↦ "" | some [] ↦ "" | some (v ∷ vs) ↦ v ]

module _ (world : World) (c : GwClient) where
  -- The operation of a type of payload.
  unfoldable pub call_of : ℕ → Bytes → Failure ⊎ (Foreign ⊎ Call)
  unfolding synchronize_inventory send_resources_with_metrics clear_in_downtime set_in_downtime
      send_events send_events_ack send_events_unack
  call_of t data' =
      if t == 1
      then inr (inr (send_events c data'))
      else if t == 2
      then inr (inr (send_events_ack c data'))
      else if t == 3
      then inr (inr (send_events_unack c data'))
      else if t == 6
      then inr (inr (clear_in_downtime c data'))
      else if t == 7
      then inr (inr (set_in_downtime c data'))
      else if t == 4
      then inr (synchronize_inventory world c data')
      else if t == 5
      then inr (send_resources_with_metrics world c data')
      else inl (unknown_type t)

  -- The data that is sent: the placeholders of its context are replaced on demand.
  unfoldable pub data_of : (Bytes → Bytes) → Header → Bytes → Bytes
  unfolding get_header
  data_of fix header data' =
      if not (str_eq (get_header "Todo-Tracer-Ctx" header) "")
        && str_eq (get_header "Compressed" header) ""
      then fix data'
      else data'

  abbrev failure_of : Error ⊎ String → Option Failure
  failure_of (inl e) = some (client_error e)
  failure_of (inr body) = none

  abbrev run_call : Failure ⊎ (Foreign ⊎ Call) → Answers → Tokens → Option Failure × Tokens
  run_call (inl f) a tokens = (some f, tokens)
  run_call (inr (inl e)) a tokens = (some (client_error (foreign e)), tokens)
  run_call (inr (inr call)) a tokens =
      let sent = send_request world c call a tokens in (failure_of sent.result, sent.tokens)

  -- adaptClient
  unfoldable pub adapt_client :
      (Bytes → Bytes) → Header → Bytes → Answers → Tokens → Option Failure × Tokens
  unfolding type_from_str get_header call_of data_of
  adapt_client fix header data' a tokens =
      let name = get_header "Payload-Type" header in
      elim (type_from_str name) [
        | none ↦ (some (unknown_name name), tokens)
        | some t ↦ run_call (call_of t (data_of fix header data')) a tokens
      ]

-- `errors.Is(err, ErrTransient)` of the dispatcher.
unfoldable pub verdict_of : Option Failure → Verdict
unfolding is_transient
verdict_of none = delivered
verdict_of (some (client_error e)) = if is_transient e then transient else permanent
verdict_of (some _) = permanent

-- Whether the handler of makeDurable stops the transport.
unfoldable pub stops_transport : Option Failure → Bool
unfolding is_transient is_unauthorized
stops_transport none = false
stops_transport (some (client_error e)) = not (is_transient e) && is_unauthorized e
stops_transport (some _) = false

abbrev header_or_empty : Option Header → Header
header_or_empty none = []
header_or_empty (some h) = h

-- A message in an envelope: its type goes to a header that names none; a nil header cannot be set.
unfoldable pub legacy_header : NatsPayload → Option Header → Outcome (Option Header)
unfolding type_name get_header set_header
legacy_header p header = type_name p.payload_type >>= λ name.
    if str_eq (get_header "Payload-Type" (header_or_empty header)) ""
    then (deref header >>= λ h. returns (some (set_header "Payload-Type" name h)))
    else returns header

abbrev opened_header : Option NatsPayload → Option Header → Outcome (Option Header)
opened_header none header = returns header
opened_header (some p) header = legacy_header p header

-- The handler that makeDurable makes of adaptClient. The message is handed on as it came: the
-- payload of an envelope is only counted.
unfoldable pub handle_msg :
    (Bytes → Option NatsPayload)
    → World
    → GwClient
    → (Bytes → Bytes)
    → Option Header
    → Bytes
    → Answers
    → Tokens
    → Outcome (Option Failure × Tokens)
unfolding unmarshal legacy_header adapt_client
handle_msg read_v2 world c fix header data' a tokens = unmarshal read_v2 data' >>= λ p.
    opened_header p header >>= λ h.
    returns (adapt_client world c fix (header_or_empty h) data' a tokens)

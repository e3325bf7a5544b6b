-- ===== src/Batcher/Events/Tests.antt =====
-- batcher/events/events.go at given payloads: a test's payload is a list of event numbers.
use mathlib.Core.List.{Perm}
use tcg.Common.{ℕ, ◌≡◌, Option, none, some, List, [], ◌∷◌, map, returns, arith, Bytes, decimal}
use tcg.Transit.Events.{GroundworkEvent, EventsRequest}
use tcg.Batcher.Events.{EventsCodec, request, requests}
use tcg.Batcher.Events.Split.{all_events}
use tcg.Batcher.Events.Conservation.{buffered_events, requests-perm, requests_in_order}

abbrev event : ℕ → GroundworkEvent
event n = record {
  app_type = "SYSLOG";
  device = "";
  host = "host";
  service = "";
  operation_status = "OPEN";
  monitor_status = "UP";
  severity = "";
  application_severity = "";
  component = "";
  sub_component = "";
  priority = "";
  type_rule = "";
  text_message = decimal n;
  last_insert_date = none;
  report_date = none;
  application_name = "";
  consolidation_name = "";
  error_type = "";
  logger_name = "";
  log_type = "";
  monitor_server = "";
}

abbrev read : Bytes → Option EventsRequest
read [] = none
read (b ∷ bs) = some (request (map event (b ∷ bs)))

abbrev codec : EventsCodec
codec = record { unmarshal = read; marshal = λ q. some (map (λ e. 0) q.events) }

abbrev five : List GroundworkEvent
five = map event (1 ∷ 2 ∷ 3 ∷ 4 ∷ 5 ∷ [])

-- An unreadable payload, a small one, an oversized one and a small one.
abbrev mixed : List Bytes
mixed = [] ∷ (1 ∷ []) ∷ (2 ∷ 3 ∷ 4 ∷ 5 ∷ []) ∷ (6 ∷ 7 ∷ []) ∷ []

requests-perm_example :
    (qq : List EventsRequest) × (requests codec 3 mixed ≡ returns qq)
    × Perm (all_events qq) (buffered_events codec mixed)
requests-perm_example = requests-perm codec 3 mixed (omega arith)

abbrev small : List Bytes
small = (1 ∷ []) ∷ (2 ∷ 3 ∷ []) ∷ (4 ∷ []) ∷ []

requests_in_order_example :
    (qq : List EventsRequest) × (requests codec 3 small ≡ returns qq)
    × (all_events qq ≡ map event (1 ∷ 2 ∷ 3 ∷ 4 ∷ []))
requests_in_order_example =
    requests_in_order codec 3 small (omega arith) (omega arith, (omega arith, (omega arith, tt)))

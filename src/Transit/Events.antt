-- ===== src/Transit/Events.antt =====
-- sdk/transit/events.go: events and the request that carries them.
use tcg.Common.{String, Option, List}
use tcg.Transit.Value.{Timestamp}

pub record GroundworkEvent : Type 0 where
  pub app_type : String
  pub device : String
  pub host : String
  pub service : String
  pub operation_status : String
  pub monitor_status : String
  pub severity : String
  pub application_severity : String
  pub component : String
  pub sub_component : String
  pub priority : String
  pub type_rule : String
  pub text_message : String
  pub last_insert_date : Option Timestamp
  pub report_date : Option Timestamp
  pub application_name : String
  pub consolidation_name : String
  pub error_type : String
  pub logger_name : String
  pub log_type : String
  pub monitor_server : String

-- GroundworkEventsRequest.
pub record EventsRequest : Type 0 where
  pub events : List GroundworkEvent

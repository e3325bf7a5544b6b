-- ===== src/Transit/Monitored.antt =====
-- sdk/transit/inventory.go, sdk/transit/monitored.go and the TracerContext of transit.go: resources,
-- services and groups, and the requests that carry them.
use tcg.Common.{
  String, Option, none, some, List, [], ◌∷◌, map, Dict, insert, Outcome, returns, ◌>>=◌, str_eq,
  if◌then◌else◌,
}
use tcg.Transit.Value.{FloatOps, Timestamp, TypedValue, TimeSeries, Any, new_typed_value}
use tcg.Transit.Status.{MonitorStatus}

pub record BaseInfo : Type 0 where
  pub name : String
  pub type : String
  pub owner : String
  pub category : String
  pub description : String
  pub properties : Dict TypedValue

abbrev property_of : BaseInfo → String → Option TypedValue → BaseInfo
property_of p k none = p
property_of p k (some t) = record p { properties = insert k t p.properties }

-- SetProperty: an unsupported value is logged and changes nothing.
unfoldable pub set_property : FloatOps → BaseInfo → String → Any → Outcome BaseInfo
set_property fp p k v = do t ← new_typed_value fp v; returns (property_of p k t)

-- CreateProperties, in the order in which the map yields its entries.
unfoldable pub create_properties : FloatOps → BaseInfo → Dict Any → Outcome BaseInfo
unfolding set_property
create_properties fp p [] = returns p
create_properties fp p ((k, v) ∷ kvs) = set_property fp p k v >>= λ q. create_properties fp q kvs

pub record ResourceRef : Type 0 where
  pub name : String
  pub type : String
  pub owner : String

pub record ResourceGroup : Type 0 where
  pub group_name : String
  pub type : String
  pub description : String
  pub resources : List ResourceRef

pub record MonitoredInfo : Type 0 where
  pub status : MonitorStatus
  pub last_check_time : Option Timestamp
  pub next_check_time : Option Timestamp
  pub last_plugin_output : String

pub record MonitoredService : Type 0 where
  pub info : BaseInfo
  pub monitored : MonitoredInfo
  pub metrics : List TimeSeries

pub record MonitoredResource : Type 0 where
  pub info : BaseInfo
  pub device : String
  pub monitored : MonitoredInfo
  pub services : List MonitoredService

pub record InventoryService : Type 0 where
  pub info : BaseInfo

pub record InventoryResource : Type 0 where
  pub info : BaseInfo
  pub device : String
  pub services : List InventoryService

unfoldable pub to_inventory_service : MonitoredService → InventoryService
to_inventory_service p = record { info = p.info }

unfoldable pub to_inventory_resource : MonitoredResource → InventoryResource
unfolding to_inventory_service
to_inventory_resource p = record {
  info = p.info;
  device = p.device;
  services = map to_inventory_service p.services;
}

unfoldable pub to_resource_ref : MonitoredResource → ResourceRef
to_resource_ref p = record { name = p.info.name; type = p.info.type; owner = p.info.owner }

pub record TracerContext : Type 0 where
  pub app_type : String
  pub agent_id : String
  pub trace_token : String
  pub time_stamp : Option Timestamp
  pub version : String

abbrev pub no_context : TracerContext
no_context = record {
  app_type = "";
  agent_id = "";
  trace_token = "";
  time_stamp = none;
  version = "";
}

abbrev override : String → String → String
override old new = if str_eq new "" then old else new

abbrev override_time : Option Timestamp → Option Timestamp → Option Timestamp
override_time old none = old
override_time old (some t) = some t

-- SetContext sets the values that are not empty.
unfoldable pub set_context : TracerContext → TracerContext → TracerContext
set_context p c = record {
  app_type = override p.app_type c.app_type;
  agent_id = override p.agent_id c.agent_id;
  trace_token = override p.trace_token c.trace_token;
  time_stamp = override_time p.time_stamp c.time_stamp;
  version = override p.version c.version;
}

-- ResourcesWithServicesRequest.
pub record MetricsRequest : Type 0 where
  pub context : TracerContext
  pub resources : List MonitoredResource
  pub groups : List ResourceGroup

abbrev pub no_metrics : MetricsRequest
no_metrics = record { context = no_context; resources = []; groups = [] }

-- ===== src/TransitService/Ext.antt =====
-- services/transit.go: SyncExt and filterExtInfo. An inventory whose properties carry a state is split
-- into an inventory, the states and the downtimes. A map's entries have no order here but their own.
pub mod State
pub mod Readable
pub mod Split
use tcg.Common.{
  ◌⊎◌, inl, inr, ℕ, Bool, true, false, Option, none, some, List, [], ◌∷◌, ◌++◌, String, ℤ, Bytes,
  Dict, lookup, insert, Outcome, returns, panics, deref, ◌>>=◌, str_eq, if◌then◌else◌,
}
use tcg.Dispatcher.{remove}
use tcg.Agent.{Agent}
use tcg.Transit.Value.{Timestamp, TypedValue}
use tcg.Transit.Status.{
  MonitorStatus, service_ok, service_warning, service_unscheduled_critical, service_pending,
  service_scheduled_critical, service_unknown, host_up, host_unscheduled_down, host_warning,
  host_pending, host_scheduled_down, host_unreachable, host_unchanged, other_status,
}
use tcg.Transit.Monitored.{
  BaseInfo, MonitoredInfo, InventoryService, InventoryResource, MonitoredService, MonitoredResource,
  MetricsRequest, TracerContext, ResourceGroup, set_context, no_context,
}
use tcg.Nats
use tcg.TransitService.{Env, Result, synchronize_inventory, send_states}

pub record InventoryRequest : Type 0 where
  pub context : TracerContext
  pub ownership_type : String
  pub resources : List InventoryResource
  pub groups : List ResourceGroup

pub record Downtime : Type 0 where
  pub entity_type : String
  pub entity_name : String
  pub host_name : String
  pub service_description : String
  pub scheduled_downtime_depth : ℤ

-- `MonitorStatus(s)`: the constants of the type, and any other text.
unfoldable pub named_status : List (String × MonitorStatus) → String → MonitorStatus
unfolding lookup
named_status names s = elim (lookup s names) [ none ↦ other_status s | some status ↦ status ]

abbrev pub status_names : List (String × MonitorStatus)
status_names =
    ("SERVICE_OK", service_ok)
    ∷ ("SERVICE_WARNING", service_warning)
    ∷ ("SERVICE_UNSCHEDULED_CRITICAL", service_unscheduled_critical)
    ∷ ("SERVICE_PENDING", service_pending)
    ∷ ("SERVICE_SCHEDULED_CRITICAL", service_scheduled_critical)
    ∷ ("SERVICE_UNKNOWN", service_unknown)
    ∷ ("HOST_UP", host_up)
    ∷ ("HOST_UNSCHEDULED_DOWN", host_unscheduled_down)
    ∷ ("HOST_WARNING", host_warning)
    ∷ ("HOST_PENDING", host_pending)
    ∷ ("HOST_SCHEDULED_DOWN", host_scheduled_down)
    ∷ ("HOST_UNREACHABLE", host_unreachable)
    ∷ ("HOST_UNCHANGED", host_unchanged)
    ∷ []

-- The properties that an inventory keeps.
unfoldable pub kept : List String → Dict TypedValue → Dict TypedValue
unfolding lookup insert
kept [] props = []
kept (k ∷ ks) props =
    let rest = kept ks props in elim (lookup k props) [ none ↦ rest | some v ↦ insert k v rest ]

abbrev pub without : String → BaseInfo → BaseInfo
without k b = record b { properties = remove k b.properties }

-- A property that is found leaves the map; a text that it does not have is a nil pointer.
unfoldable pub take_text : String → BaseInfo → Outcome (Option String × BaseInfo)
unfolding lookup
take_text k b = elim (lookup k b.properties) [
  | none ↦ returns (none, b)
  | some v ↦ (deref v.string_value >>= λ s. returns (some s, without k b))
]

unfoldable pub take_depth : String → BaseInfo → Outcome (Option ℤ × BaseInfo)
unfolding lookup
take_depth k b = elim (lookup k b.properties) [
  | none ↦ returns (none, b)
  | some v ↦ (deref v.integer_value >>= λ i. returns (some i, without k b))
]

-- The time of a property, or else the given one.
unfoldable pub take_time : String → Option Timestamp → BaseInfo → Option Timestamp × BaseInfo
unfolding lookup
take_time k otherwise b = elim (lookup k b.properties) [
  | none ↦ (otherwise, b)
  | some v ↦ (v.time_value, without k b)
]

abbrev pub status_or_empty : Option String → MonitorStatus
status_or_empty none = other_status ""
status_or_empty (some s) = named_status status_names s

abbrev pub text_or_empty : Option String → String
text_or_empty none = ""
text_or_empty (some s) = s

pub record ExtState : Type 0 where
  pub info : BaseInfo
  pub monitored : MonitoredInfo
  pub depth : Option ℤ

-- The state that the properties of a host or of a service carry, at the time `now`.
unfoldable pub take_state : Timestamp → BaseInfo → Outcome ExtState
unfolding take_text take_time take_depth named_status
take_state now b = take_text "MonitorStatus" b >>= λ s. take_text "LastPluginOutput" s.1 >>= λ o.
    let last = take_time "LastCheckTime" (some now) o.1 in
    let next = take_time "NextCheckTime" none last.1 in
    take_depth "ScheduledDowntimeDepth" next.1 >>= λ d. returns (record {
      info = d.1;
      monitored = record {
        status = status_or_empty s.0;
        last_check_time = last.0;
        next_check_time = next.0;
        last_plugin_output = text_or_empty o.0;
      };
      depth = d.0;
    })

abbrev downtime_of : Option ℤ → String → String → String → List Downtime
downtime_of none type host description = []
downtime_of (some n) type host description =
    record {
      entity_type = type;
      entity_name = host;
      host_name = host;
      service_description = description;
      scheduled_downtime_depth = n;
    }
    ∷ []

-- What is made of one service and of one resource: the inventory, the state and the downtimes.
unfoldable pub filter_service :
    Timestamp
    → String
    → InventoryService
    → Outcome (InventoryService × MonitoredService × List Downtime)
unfolding kept take_state
filter_service now host svc = take_state now svc.info >>= λ t. returns (
  record { info = record (svc.info) { properties = kept ("Notes" ∷ []) svc.info.properties } },
  record { info = t.info; monitored = t.monitored; metrics = [] },
  downtime_of t.depth "HOST" host t.info.description,
)

unfoldable pub filter_services :
    Timestamp
    → String
    → List InventoryService
    → Outcome (List InventoryService × List MonitoredService × List Downtime)
unfolding filter_service
filter_services now host [] = returns ([], [], [])
filter_services now host (svc ∷ svcs) = filter_service now host svc >>= λ r.
    filter_services now host svcs >>= λ rest. returns (r.0 ∷ rest.0, r.1 ∷ rest.1, r.2 ++ rest.2)

unfoldable pub filter_resource :
    Timestamp → InventoryResource → Outcome (InventoryResource × MonitoredResource × List Downtime)
unfolding kept take_state filter_services
filter_resource now res = take_state now res.info >>= λ t.
    filter_services now t.info.name res.services >>= λ r. returns (
      record res {
        info = record (res.info) { properties = kept ("Alias" ∷ "Notes" ∷ []) res.info.properties };
        services = r.0;
      },
      record { info = t.info; device = res.device; monitored = t.monitored; services = r.1 },
      downtime_of t.depth "HOST" t.info.name "" ++ r.2,
    )

-- filterExtInfo, of the resources of the request.
unfoldable pub filter_ext_info :
    Timestamp
    → List InventoryResource
    → Outcome (List InventoryResource × List MonitoredResource × List Downtime)
unfolding filter_resource
filter_ext_info now [] = returns ([], [], [])
filter_ext_info now (res ∷ ress) = filter_resource now res >>= λ r.
    filter_ext_info now ress >>= λ rest. returns (r.0 ∷ rest.0, r.1 ∷ rest.1, r.2 ++ rest.2)

-- json.Marshal of the two requests; an error is its text.
pub record Json : Type 0 where
  pub inventory : InventoryRequest → String ⊎ Bytes
  pub states : MetricsRequest → String ⊎ Bytes

abbrev bad_json : Agent → String → Outcome Result
bad_json a e = returns (a, some (Nats.library e))

module _ (env : Env) (json : Json) where
  -- SendStates.
  unfoldable pub send_states_request : MetricsRequest → Agent → Outcome Result
  unfolding send_states
  send_states_request p a = elim (json.states p) [
    | inl e ↦ bad_json a e
    | inr payload ↦ send_states env payload a
  ]

  -- The states, where there are any and the inventory went out.
  unfoldable pub send_ext_states : List MonitoredResource → Result → Outcome Result
  unfolding send_states_request set_context
  send_ext_states mon (a, some e) = returns (a, some e)
  send_ext_states [] (a, none) = returns (a, none)
  send_ext_states (m ∷ ms) (a, none) =
      send_states_request
        (record {
          context = set_context no_context env.tracer_context;
          resources = m ∷ ms;
          groups = [];
        })
        a

  -- SyncExt; `extended` is false where TCG_INVENTORY_EXT says so. The downtimes are only logged, and
  -- the error of their JSON is left out.
  unfoldable pub sync_ext : Bool → Timestamp → InventoryRequest → Agent → Outcome Result
  unfolding filter_ext_info synchronize_inventory send_ext_states
  sync_ext extended now p a =
      if extended
      then (filter_ext_info now p.resources >>= λ r.
          elim (json.inventory (record p { resources = r.0 })) [
            | inl e ↦ bad_json a e
            | inr payload ↦ (synchronize_inventory env payload a >>= λ s. send_ext_states r.1 s)
          ])
      else elim (json.inventory p) [
        | inl e ↦ bad_json a e
        | inr payload ↦ synchronize_inventory env payload a
      ]

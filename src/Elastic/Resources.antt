-- ===== src/Elastic/Resources.antt =====
-- connectors/elastic/model.go: toTransitResources, of a host and of the state.
use tcg.Common.{
  ℕ, ◌+◌, ◌-◌, Option, none, some, List, [], ◌∷◌, String, ℤ, pos, negsuc, Dict, Outcome, returns,
  deref, ◌>>=◌, lookup, contains, replace_all, str_eq, leb, not, ◌&&◌, if◌then◌else◌,
}
use tcg.Transit.Value.{Timestamp, TimeInterval, Any}
use tcg.Transit.Status.{
  MonitorStatus, service_ok, service_warning, service_unscheduled_critical, service_pending,
  service_scheduled_critical, service_unknown,
}
use tcg.Transit.Monitored.{MonitoredService, InventoryService, MonitoredResource, InventoryResource}
use tcg.Connectors.Metric.{MetricBuilder, unit_type, name_of}
use tcg.Connectors.Service.{services_arg, create_resource}
use tcg.Connectors.Build.{
  build_service_for_metric_with_status_text, create_inventory_service, create_inventory_resource,
}
use tcg.Connectors.Text.{Format, format_time}
use tcg.Elastic.{MetricDefinition, MonitoringService, MonitoringHost, MonitoringState}

-- initStatusMessages; a status that the map lacks has the empty text.
unfoldable pub init_status_message : MonitorStatus → String
init_status_message service_ok = "Query matched {value} messages in the last {interval}."
init_status_message service_warning = "Query matched {value} messages in the last {interval}."
init_status_message service_unscheduled_critical =
    "Query matched {value} messages in the last {interval}."
init_status_message service_scheduled_critical =
    "Query matched {value} messages in the last {interval}."
init_status_message service_pending = "Service Pending."
init_status_message service_unknown = "Service Unknown."
init_status_message _ = ""

-- The difference of two times, for times whose difference fits 64 bits.
unfoldable pub minus : ℤ → ℤ → ℤ
minus (pos m) (pos n) = if leb n m then pos (m - n) else negsuc (n - m - 1)
minus (pos m) (negsuc n) = pos (m + n + 1)
minus (negsuc m) (pos n) = negsuc (m + n)
minus (negsuc m) (negsuc n) = if leb m n then pos (n - m) else negsuc (m - n - 1)

-- The text of a service's own interval, empty where it has none; a nil end is read.
unfoldable pub interval_text : Option TimeInterval → Outcome String
unfolding minus format_time
interval_text none = returns ""
interval_text (some i) = deref i.end_time >>= λ e.
    deref i.start_time >>= λ s. returns (format_time (minus e.unix_nano s.unix_nano) 60000000000)

unfoldable pub status_message : String → MonitorStatus → String
unfolding init_status_message contains replace_all
status_message replacement status =
    let message = init_status_message status in
    if contains message "{interval}" && not (str_eq replacement "")
    then replace_all message "{interval}" replacement
    else message

abbrev starts : Option TimeInterval → Option Timestamp
starts none = none
starts (some i) = i.start_time

abbrev ends : Option TimeInterval → Option Timestamp
ends none = none
ends (some i) = i.end_time

-- UnitCounter is the text 1.
abbrev builder_of : String → MetricDefinition → MonitoringService → MetricBuilder
builder_of service_name m s = record {
  name = service_name;
  custom_name = m.custom_name;
  compute_type = m.compute_type;
  expression = m.expression;
  value = Any.int s.hits;
  unit_type = some (unit_type "1");
  warning = some (Any.int m.warning_threshold);
  critical = some (Any.int m.critical_threshold);
  start_timestamp = starts s.time_interval;
  end_timestamp = ends s.time_interval;
  tags = [];
}

abbrev with_some {ℓ} : {A : Type ℓ} → Option A → List A → List A
with_some none rest = rest
with_some (some a) rest = a ∷ rest

module _ (fmt : Format) (now : Timestamp) (interval : ℕ) where
  unfoldable pub host_services :
      String
      → Dict MetricDefinition
      → Dict MonitoringService
      → Outcome (List MonitoredService × List InventoryService)
  unfolding lookup name_of interval_text status_message create_inventory_service
      build_service_for_metric_with_status_text
  host_services host_name metrics [] = returns ([], [])
  host_services host_name metrics ((service_name, s) ∷ services) =
      let rest = host_services host_name metrics services in
      elim (lookup service_name metrics) [
        | none ↦ rest
        | some m ↦
            (interval_text s.time_interval >>= λ text.
            build_service_for_metric_with_status_text fmt now interval host_name
              (builder_of service_name m s) (status_message text)
            >>= λ svc. rest >>= λ (monitored, inventory). returns (
              with_some svc monitored,
              create_inventory_service (name_of service_name m.custom_name) host_name ∷ inventory,
            ))
      ]

  unfoldable pub host_resources :
      Dict MetricDefinition
      → Dict MonitoringHost
      → Outcome (List MonitoredResource × List InventoryResource)
  unfolding host_services create_resource create_inventory_resource
  host_resources metrics [] = returns ([], [])
  host_resources metrics ((k, h) ∷ hosts) =
      host_services h.name metrics h.services >>= λ (monitored, inventory).
      host_resources metrics hosts >>= λ (mrs, irs). returns (
        with_some (create_resource now interval h.name (services_arg monitored ∷ [])) mrs,
        create_inventory_resource h.name inventory ∷ irs,
      )

  unfoldable pub to_transit_resources :
      MonitoringState → Outcome (List MonitoredResource × List InventoryResource)
  unfolding host_resources
  to_transit_resources st = host_resources st.metrics st.hosts

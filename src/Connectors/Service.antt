-- ===== src/Connectors/Service.antt =====
-- connectors/connectors.go: services and resources.
use tcg.Common.{
  ℕ, suc, ◌+◌, ◌-◌, Option, none, some, List, [], ◌∷◌, String, pos, negsuc, Dict, leb, Outcome,
  returns, deref, ◌>>=◌, if◌then◌else◌,
}
use tcg.Transit.Value.{FloatOps, Timestamp, TimeSeries, Any}
use tcg.Transit.Status.{MonitorStatus, service_ok, host_up, calculate_service_status}
use tcg.Transit.Monitored.{
  BaseInfo, MonitoredInfo, MonitoredService, MonitoredResource, create_properties,
}
use tcg.Connectors.Metric.{MetricBuilder, build_metric, name_of}

-- `Timestamp.Add` of a duration that is not negative.
unfoldable pub add_time : Timestamp → ℕ → Timestamp
add_time t d = elim t.unix_nano [
  | pos n ↦ record { unix_nano = pos (n + d) }
  | negsuc n ↦ record { unix_nano = if leb d n then negsuc (n - d) else pos (d - suc n) }
]

-- An optional argument of CreateService.
pub data ServiceArg : Type 0 where
  metrics_arg : List TimeSeries → ServiceArg
  properties_arg : Dict Any → ServiceArg
  other_arg : ServiceArg

-- `*metrics[len(metrics)-1].Interval.EndTime`, of metrics that begin with the given one.
unfoldable pub last_end : TimeSeries → List TimeSeries → Outcome Timestamp
last_end m [] = deref m.interval >>= λ i. deref i.end_time
last_end m (n ∷ ns) = last_end n ns

abbrev pub checked : ℕ → Timestamp → MonitoredInfo → MonitoredInfo
unfolding add_time
checked interval t i = record i {
  last_check_time = some t;
  next_check_time = some (add_time t interval);
}

abbrev pub base_info : String → String → String → BaseInfo
base_info name type owner = record {
  name = name;
  type = type;
  owner = owner;
  category = "";
  description = "";
  properties = [];
}

abbrev pub no_info : MonitorStatus → MonitoredInfo
no_info s = record {
  status = s;
  last_check_time = none;
  next_check_time = none;
  last_plugin_output = "";
}

abbrev pub with_status : MonitorStatus → MonitoredService → MonitoredService
with_status s svc = record svc { monitored = record (svc.monitored) { status = s } }

-- `interval` is CheckInterval.
module _ (fp : FloatOps) (now : Timestamp) (interval : ℕ) where
  unfoldable pub take_service_args :
      List ServiceArg → MonitoredService → Outcome (Option MonitoredService)
  unfolding last_end create_properties
  take_service_args [] svc = returns (some svc)
  take_service_args (metrics_arg [] ∷ rest) svc =
      take_service_args rest (record svc { metrics = [] })
  take_service_args (metrics_arg (m ∷ ms) ∷ rest) svc = last_end m ms >>= λ t.
      take_service_args rest
        (record svc { metrics = m ∷ ms; monitored = checked interval t svc.monitored })
  take_service_args (properties_arg d ∷ rest) svc = create_properties fp svc.info d >>= λ info.
      take_service_args rest (record svc { info = info })
  take_service_args (other_arg ∷ rest) svc = returns none

  -- The status: no metrics, set or not, are unknown, and an error is dropped.
  abbrev finish_service : Option MonitoredService → Outcome (Option MonitoredService)
  finish_service none = returns none
  finish_service (some svc) =
      calculate_service_status fp (some svc.metrics) >>= λ s. returns (some (with_status (s.0) svc))

  unfoldable pub create_service :
      String → String → List ServiceArg → Outcome (Option MonitoredService)
  unfolding take_service_args calculate_service_status
  create_service name owner args =
      take_service_args args (record {
        info = base_info name "service" owner;
        monitored = checked interval now (no_info service_ok);
        metrics = [];
      })
      >>= finish_service

  unfoldable pub build_service_for_metric :
      String → MetricBuilder → Outcome (Option MonitoredService)
  unfolding build_metric name_of create_service
  build_service_for_metric host_name mb = build_metric fp now mb >>= λ r. elim r [
    | none ↦ returns none
    | some m ↦
        create_service (name_of mb.name mb.custom_name) host_name
          (metrics_arg (m ∷ []) ∷ properties_arg [] ∷ [])
  ]

  -- The metrics of several builders; one that fails fails them all.
  unfoldable pub build_metrics : List MetricBuilder → Outcome (Option (List TimeSeries))
  unfolding build_metric
  build_metrics [] = returns (some [])
  build_metrics (mb ∷ mbs) = build_metric fp now mb >>= λ r. elim r [
    | none ↦ returns none
    | some m ↦
        (build_metrics mbs >>= λ rest. elim rest [
          | none ↦ returns none
          | some ms ↦ returns (some (m ∷ ms))
        ])
  ]

  unfoldable pub build_service_for_multi_metric :
      String → String → String → List MetricBuilder → Outcome (Option MonitoredService)
  unfolding build_metrics name_of create_service
  build_service_for_multi_metric host_name service_name custom_name mbs = build_metrics mbs >>= λ r.
      elim r [
        | none ↦ returns none
        | some ms ↦
            create_service (name_of service_name custom_name) host_name (metrics_arg ms ∷ [])
      ]

-- An optional argument of CreateResource.
pub data ResourceArg : Type 0 where
  services_arg : List MonitoredService → ResourceArg
  device_arg : String → ResourceArg
  other_resource_arg : ResourceArg

abbrev times_of : MonitoredService → MonitoredInfo → MonitoredInfo
times_of svc i = record i {
  last_check_time = svc.monitored.last_check_time;
  next_check_time = svc.monitored.next_check_time;
}

unfoldable pub take_resource_args : List ResourceArg → MonitoredResource → Option MonitoredResource
take_resource_args [] res = some res
take_resource_args (services_arg [] ∷ rest) res =
    take_resource_args rest (record res { services = [] })
take_resource_args (services_arg (svc ∷ svcs) ∷ rest) res =
    take_resource_args rest
      (record res { services = svc ∷ svcs; monitored = times_of svc res.monitored })
take_resource_args (device_arg d ∷ rest) res = take_resource_args rest (record res { device = d })
take_resource_args (other_resource_arg ∷ rest) res = none

-- CreateResource; CalculateResourceStatus is HOST_UP whatever the services.
unfoldable pub create_resource :
    Timestamp → ℕ → String → List ResourceArg → Option MonitoredResource
unfolding take_resource_args
create_resource now interval name args = take_resource_args args (record {
  info = base_info name "host" "";
  device = "";
  monitored = checked interval now (no_info host_up);
  services = [];
})

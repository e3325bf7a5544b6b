-- ===== src/Connectors/Made.antt =====
-- connectors/connectors.go: the service that BuildServiceForMetric makes.
use Prim.Native.String.{◌++◌ as join}
use tcg.Common.{
  ◌≡◌, refl, ap, ℕ, false, Option, none, some, List, [], ◌∷◌, ◌++◌, String, returns, arith, str_eq,
  Dict, if◌then◌else◌,
}
use tcg.Transit.Value.{
  FloatOps, Timestamp, TypedValue, Any, SampleType, ThresholdValue, TimeInterval, TimeSeries,
  ComputeType, new_typed_value,
}
use tcg.Transit.Status.{
  MonitorStatus, service_ok, weight, heavier, pick_thresholds, calculate_status,
  service_status_loop, calculate_service_status, status_of, integer_status, double_status,
}
use tcg.Transit.Monitored.{MonitoredService, create_properties}
use tcg.Connectors.Metric.{
  MetricBuilder, MetricArg, name_of, args_of, take_args, create_metric, create_threshold,
  build_threshold, build_metric, unit_type, time_interval, tag_map, unit_args, interval_args,
  tag_args, finished, metric_of,
}
use tcg.Connectors.Service.{
  metrics_arg, properties_arg, base_info, checked, no_info, add_time, create_service,
  take_service_args, last_end, build_service_for_metric,
}

-- The thresholds of the given values, as BuildMetric makes them.
abbrev threshold : SampleType → String → TypedValue → ThresholdValue
threshold kind label t = record { sample_type = kind; label = label; value = some t }

module _ (fp : FloatOps) (now : Timestamp) (interval : ℕ) where
  heavier-calculate_status :
      (v w c : Option TypedValue) (s : MonitorStatus)
      → calculate_status fp v w c ≡ returns s
      → heavier service_ok s ≡ s
  unfolding calculate_status status_of integer_status double_status weight
  heavier-calculate_status v w c s h = ground arith

-- A builder gives a unit by its name, if it gives one.
abbrev pub HasUnitName : Option MetricArg → Type 0
HasUnitName none = Unit
HasUnitName (some (unit_type u)) = Unit
HasUnitName (some _) = ⊥

abbrev unit_of : Option MetricArg → String
unit_of (some (unit_type u)) = if str_eq u "" then "1" else u
unit_of _ = "1"

abbrev interval_of : Option Timestamp → Option Timestamp → Timestamp → TimeInterval
interval_of (some s) (some e) now = record { end_time = some e; start_time = some s }
interval_of _ _ now = record { end_time = some now; start_time = some now }

-- The metric that the fields of a builder make, before its thresholds.
abbrev plain :
    String
    → TypedValue
    → Option MetricArg
    → Option Timestamp
    → Option Timestamp
    → Dict String
    → Timestamp
    → TimeSeries
plain name t unit start end tags now = record {
  metric_name = name;
  sample_type = SampleType.value;
  interval = some (interval_of start end now);
  value = some t;
  tags = tags;
  unit = unit_of unit;
  thresholds = none;
  metric_compute_type = ComputeType.other_compute "";
  metric_expression = "";
}

finished-take_args :
    (name : String) (t : TypedValue) (unit : Option MetricArg) (start end : Option Timestamp)
    → (tags : Dict String) → (now : Timestamp) → HasUnitName unit
    → finished now (
        take_args (unit_args unit ++ (interval_args start end ++ tag_args tags)) (metric_of name t))
      ≡ some (plain name t unit start end tags now)
unfolding take_args
finished-take_args name t none none end [] now h = refl
finished-take_args name t none none end (x ∷ xs) now h = refl
finished-take_args name t none (some s) none [] now h = refl
finished-take_args name t none (some s) none (x ∷ xs) now h = refl
finished-take_args name t none (some s) (some e) [] now h = refl
finished-take_args name t none (some s) (some e) (x ∷ xs) now h = refl
finished-take_args name t (some (unit_type u)) none end [] now h = ground arith
finished-take_args name t (some (unit_type u)) none end (x ∷ xs) now h = ground arith
finished-take_args name t (some (unit_type u)) (some s) none [] now h = ground arith
finished-take_args name t (some (unit_type u)) (some s) none (x ∷ xs) now h = ground arith
finished-take_args name t (some (unit_type u)) (some s) (some e) [] now h = ground arith
finished-take_args name t (some (unit_type u)) (some s) (some e) (x ∷ xs) now h = ground arith
finished-take_args name t (some (time_interval i)) start end tags now h = elim h [ ]
finished-take_args name t (some (tag_map d)) start end tags now h = elim h [ ]
finished-take_args name t (some MetricArg.other_arg) start end tags now h = elim h [ ]

-- The time of the last metric's end.
abbrev pub end_of : Option Timestamp → Option Timestamp → Timestamp → Timestamp
end_of (some s) (some e) now = e
end_of _ _ now = now

end_time-interval_of :
    (start end : Option Timestamp) (now : Timestamp)
    → (interval_of start end now).end_time ≡ some (end_of start end now)
end_time-interval_of none end now = refl
end_time-interval_of (some s) none now = refl
end_time-interval_of (some s) (some e) now = refl

abbrev limits : String → TypedValue → TypedValue → List ThresholdValue
limits name w c =
    threshold SampleType.warning (join name "_wn") w
    ∷ threshold SampleType.critical (join name "_cr") c
    ∷ []

-- The metric of a builder.
abbrev pub made : MetricBuilder → Timestamp → TypedValue → TypedValue → TypedValue → TimeSeries
made mb now v w c =
    let name = name_of mb.name mb.custom_name in
    record (plain name v mb.unit_type mb.start_timestamp mb.end_timestamp mb.tags now) {
      thresholds = some (limits name w c);
      metric_compute_type = mb.compute_type;
      metric_expression = mb.expression;
    }

module _ (fp : FloatOps) (now : Timestamp) where
  build_threshold-made :
      (kind : SampleType) (label : String) (a : Any) (t : TypedValue)
      → new_typed_value fp a ≡ returns (some t)
      → build_threshold fp kind label (some a) ≡ returns (threshold kind label t ∷ [])
  unfolding build_threshold create_threshold
  build_threshold-made kind label a t h = rw h refl

  create_metric-plain :
      (name : String) (mb : MetricBuilder) (v : TypedValue)
      → HasUnitName mb.unit_type
      → new_typed_value fp mb.value ≡ returns (some v)
      → create_metric fp now name mb.value (args_of mb)
        ≡ returns (some (plain name v mb.unit_type mb.start_timestamp mb.end_timestamp mb.tags now))
  unfolding create_metric args_of
  create_metric-plain name mb v u h = rw h (
      ap returns
        (finished-take_args name v mb.unit_type mb.start_timestamp mb.end_timestamp mb.tags now u))

  build_metric-made :
      (mb : MetricBuilder) (v w c : TypedValue) (wa ca : Any)
      → HasUnitName mb.unit_type
      → mb.warning ≡ some wa
      → mb.critical ≡ some ca
      → new_typed_value fp mb.value ≡ returns (some v)
      → new_typed_value fp wa ≡ returns (some w)
      → new_typed_value fp ca ≡ returns (some c)
      → build_metric fp now mb ≡ returns (some (made mb now v w c))
  unfolding build_metric
  build_metric-made mb v w c wa ca u ew ec hv hw hc =
      rw
        (
          create_metric-plain (name_of mb.name mb.custom_name) mb v u hv,
          ew,
          ec,
          build_threshold-made SampleType.warning (join (name_of mb.name mb.custom_name) "_wn") wa w
              hw,
          build_threshold-made SampleType.critical (join (name_of mb.name mb.custom_name) "_cr") ca
              c hc,
        )
        refl

  calculate-made :
      (m : TimeSeries) (name : String) (v w c : TypedValue) (s : MonitorStatus)
      → m.value ≡ some v
      → m.thresholds ≡ some (limits name w c)
      → calculate_status fp (some v) (some w) (some c) ≡ returns s
      → calculate_service_status fp (some (m ∷ [])) ≡ returns (s, false)
  unfolding calculate_service_status service_status_loop pick_thresholds
  calculate-made m name v w c s ev et h =
      rw (et, ev, h)
        (ap (λ t. returns (t, false))
          (heavier-calculate_status fp now 0 (some v) (some w) (some c) s h))

  module _ (interval : ℕ) where
    -- The service of one metric that ends at a given time.
    abbrev service_made :
        String → String → TimeSeries → Timestamp → MonitorStatus → MonitoredService
    unfolding add_time
    service_made name owner m t s = record {
      info = base_info name "service" owner;
      monitored = checked interval t (no_info s);
      metrics = m ∷ [];
    }

    create_service-made :
        (name owner : String) (m : TimeSeries) (i : TimeInterval) (t : Timestamp)
        (s : MonitorStatus)
        → m.interval ≡ some i
        → i.end_time ≡ some t
        → calculate_service_status fp (some (m ∷ [])) ≡ returns (s, false)
        → (svc : MonitoredService) × (create_service fp now interval name owner
              (metrics_arg (m ∷ []) ∷ properties_arg [] ∷ [])
            ≡ returns (some svc))
          × (svc.info.name ≡ name)
          × (svc.info.owner ≡ owner)
          × (svc.metrics ≡ m ∷ [])
          × (svc.monitored.status ≡ s)
          × (svc.monitored.last_check_time ≡ some t)
    unfolding create_service take_service_args last_end create_properties service_made
    create_service-made name owner m i t s ei et h =
        (service_made name owner m t s, rw (ei, et, h) refl, refl, refl, refl, refl, refl)

    -- Where the value of a builder and both of its thresholds are of supported types, and the unit
    -- is given by name, BuildServiceForMetric returns a service of the builder's name on the host.
    -- Its one metric has the value and the two thresholds, its status is CalculateStatus's on
    -- these, and its last check is at the end of the builder's interval, or now without one.
    pub build_service_for_metric_lem :
        (host_name : String) (mb : MetricBuilder) (v w c : TypedValue) (wa ca : Any)
        → (s : MonitorStatus) → HasUnitName mb.unit_type
        → mb.warning ≡ some wa
        → mb.critical ≡ some ca
        → new_typed_value fp mb.value ≡ returns (some v)
        → new_typed_value fp wa ≡ returns (some w)
        → new_typed_value fp ca ≡ returns (some c)
        → calculate_status fp (some v) (some w) (some c) ≡ returns s
        → (svc : MonitoredService) × (build_service_for_metric fp now interval host_name mb
            ≡ returns (some svc))
          × (svc.info.name ≡ name_of mb.name mb.custom_name)
          × (svc.info.owner ≡ host_name)
          × (svc.metrics ≡ made mb now v w c ∷ [])
          × (svc.monitored.status ≡ s)
          × (svc.monitored.last_check_time ≡ some (end_of mb.start_timestamp mb.end_timestamp now))
    unfolding build_service_for_metric
    build_service_for_metric_lem host_name mb v w c wa ca s u ew ec hv hw hc h =
        rw (build_metric-made mb v w c wa ca u ew ec hv hw hc) (
          create_service-made (name_of mb.name mb.custom_name) host_name (made mb now v w c)
            (interval_of mb.start_timestamp mb.end_timestamp now)
            (end_of mb.start_timestamp mb.end_timestamp now) s refl
            (end_time-interval_of mb.start_timestamp mb.end_timestamp now)
            (calculate-made (made mb now v w c) (name_of mb.name mb.custom_name) v w c s refl refl
              h))

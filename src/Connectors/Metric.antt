-- ===== src/Connectors/Metric.antt =====
-- connectors/connectors.go: metrics and thresholds. What is logged is left out, and an error is none.
use Prim.Native.String.{◌++◌ as join}
use tcg.Common.{
  Option, none, some, List, [], ◌∷◌, ◌++◌, String, Dict, Outcome, returns, deref, ◌>>=◌, str_eq,
  if◌then◌else◌,
}
use tcg.Transit.Value.{
  FloatOps, Timestamp, TypedValue, Any, SampleType, ThresholdValue, TimeInterval, ComputeType,
  TimeSeries, new_typed_value,
}

-- An optional argument of CreateMetric: a text is a unit, and a pointer can be nil.
pub data MetricArg : Type 0 where
  unit_type : String → MetricArg
  time_interval : Option TimeInterval → MetricArg
  tag_map : Dict String → MetricArg
  other_arg : MetricArg

-- An `any` field is none for nil; `graphed` is not read.
pub record MetricBuilder : Type 0 where
  pub name : String
  pub custom_name : String
  pub compute_type : ComputeType
  pub expression : String
  pub value : Any
  pub unit_type : Option MetricArg
  pub warning : Option Any
  pub critical : Option Any
  pub start_timestamp : Option Timestamp
  pub end_timestamp : Option Timestamp
  pub tags : Dict String

-- Name
unfoldable pub name_of : String → String → String
name_of default_name custom_name = if str_eq custom_name "" then default_name else custom_name

unfoldable pub take_args : List MetricArg → TimeSeries → Option TimeSeries
take_args [] m = some m
take_args (unit_type u ∷ rest) m = take_args rest (record m { unit = u })
take_args (time_interval i ∷ rest) m = take_args rest (record m { interval = i })
take_args (tag_map t ∷ rest) m = take_args rest (record m { tags = t })
take_args (other_arg ∷ rest) m = none

abbrev pub with_interval : Timestamp → TimeSeries → TimeSeries
with_interval now m = elim m.interval [
  | none ↦ record m { interval = some (record { end_time = some now; start_time = some now }) }
  | some i ↦ m
]

abbrev pub with_unit : TimeSeries → TimeSeries
with_unit m = if str_eq m.unit "" then record m { unit = "1" } else m

abbrev pub finished : Timestamp → Option TimeSeries → Option TimeSeries
finished now none = none
finished now (some m) = some (with_unit (with_interval now m))

abbrev pub metric_of : String → TypedValue → TimeSeries
metric_of name t = record {
  metric_name = name;
  sample_type = SampleType.value;
  interval = none;
  value = some t;
  tags = [];
  unit = "";
  thresholds = none;
  metric_compute_type = ComputeType.other_compute "";
  metric_expression = "";
}

-- The optional arguments of BuildMetric: an interval that lacks one end is logged and dropped.
abbrev pub interval_args : Option Timestamp → Option Timestamp → List MetricArg
interval_args (some s) (some e) =
    time_interval (some (record { end_time = some e; start_time = some s })) ∷ []
interval_args _ _ = []

abbrev pub tag_args : Dict String → List MetricArg
tag_args [] = []
tag_args (t ∷ ts) = tag_map (t ∷ ts) ∷ []

abbrev pub unit_args : Option MetricArg → List MetricArg
unit_args none = []
unit_args (some u) = u ∷ []

unfoldable pub args_of : MetricBuilder → List MetricArg
args_of mb =
    unit_args mb.unit_type
    ++ (interval_args mb.start_timestamp mb.end_timestamp ++ tag_args mb.tags)

abbrev threshold_of : SampleType → String → Option TypedValue → Option ThresholdValue
threshold_of kind label none = none
threshold_of kind label (some t) =
    some (record { sample_type = kind; label = label; value = some t })

-- Where there are thresholds, they become the metric's.
abbrev pub with_thresholds : List ThresholdValue → TimeSeries → TimeSeries
with_thresholds [] m = m
with_thresholds (t ∷ ts) m = record m { thresholds = some (t ∷ ts) }

module _ (fp : FloatOps) where
  unfoldable pub create_metric :
      Timestamp → String → Any → List MetricArg → Outcome (Option TimeSeries)
  unfolding new_typed_value take_args
  create_metric now name value args = new_typed_value fp value >>= λ v. elim v [
    | none ↦ returns none
    | some t ↦ returns (finished now (take_args args (metric_of name t)))
  ]

  unfoldable pub create_threshold : SampleType → String → Any → Outcome (Option ThresholdValue)
  unfolding new_typed_value
  create_threshold kind label value =
      new_typed_value fp value >>= λ v. returns (threshold_of kind label v)

  -- A threshold that BuildMetric is given: the error is logged, and the nil pointer read.
  unfoldable pub build_threshold : SampleType → String → Option Any → Outcome (List ThresholdValue)
  unfolding create_threshold
  build_threshold kind label none = returns []
  build_threshold kind label (some value) =
      create_threshold kind label value >>= λ t. deref t >>= λ threshold. returns (threshold ∷ [])

  unfoldable pub build_metric : Timestamp → MetricBuilder → Outcome (Option TimeSeries)
  unfolding name_of args_of create_metric build_threshold
  build_metric now mb =
      let metric_name = name_of mb.name mb.custom_name in
      create_metric now metric_name mb.value (args_of mb) >>= λ r. elim r [
        | none ↦ returns none
        | some m ↦
            (build_threshold SampleType.warning (join metric_name "_wn") mb.warning >>= λ w.
            build_threshold SampleType.critical (join metric_name "_cr") mb.critical >>= λ c.
            returns (
              some (
                with_thresholds (w ++ c) (record m {
                  metric_compute_type = mb.compute_type;
                  metric_expression = mb.expression;
                }))))
      ]

-- ===== src/Connectors/Tests.antt =====
-- connectors/connectors.go and connectors/groundworkFunctions.go on given metrics.
use tcg.Common.{
  ◌≡◌, refl, ℕ, ◌+◌, ◌-◌, ◌*◌, ◌/◌, none, some, [], ◌∷◌, ◌++◌, ℤ, pos, negsuc, Dict, returns,
  panics, replace_all, ltb, leb, ◌==◌, lookup,
}
use tcg.Mapping.{split_comma, trim_space}
use tcg.Transit.Value.{
  Float64, FloatOps, Timestamp, Any, SampleType, TimeSeries, query, synthetic, of_double,
  new_typed_value,
}
use tcg.Transit.Status.{
  service_ok, service_warning, calculate_status, threshold_number, status_of, double_status,
}
use tcg.Transit.Monitored.{MonitoredService}
use tcg.Connectors.Metric.{
  MetricBuilder, unit_type, name_of, build_metric, build_threshold, create_threshold, create_metric,
}
use tcg.Connectors.Service.{build_service_for_metric}
use tcg.Connectors.Text.{Format, limits_text, critical_text, format_time}
use tcg.Connectors.Functions.{FloatArith}
use tcg.Connectors.Expression.{
  Variable, Gval, Evaluated, out_of_fuel, breaks, evaluate, is_call, inner_call,
}
use tcg.Connectors.Expression
use tcg.Connectors.Expression.Endless.{evaluate_endless}
use tcg.Connectors.Synthetic.{panicked, evaluate_expressions, variables_of}
use tcg.Connectors.Build.{sanitize_string}
use tcg.Connectors.Made.{build_service_for_metric_lem, made, end_of}
use tcg.Connectors.Pointers.{double_variable_panics, NamesPointer}

abbrev float_of : ℤ → Float64
float_of (pos n) = record { bits = 1000 + n }
float_of (negsuc n) = record { bits = 999 - n }

abbrev ops : FloatOps
ops = record {
  of_int = float_of;
  lt = λ a b. ltb a.bits b.bits;
  le = λ a b. leb a.bits b.bits;
  eq = λ a b. a.bits == b.bits;
  of_float32 = λ n. record { bits = n };
}

abbrev arith_ops : FloatArith
arith_ops = record {
  ops = ops;
  sub = λ a b. float_of (pos (a.bits - b.bits));
  add = λ a b. float_of (pos (a.bits - 1000 + (b.bits - 1000)));
  mul = λ a b. float_of (pos ((a.bits - 1000) * (b.bits - 1000)));
  div = λ a b. float_of (pos ((a.bits - 1000) / (b.bits - 1000)));
  to_int = λ a. pos (a.bits - 1000);
}

abbrev num : ℕ → Float64
num n = float_of (pos n)

abbrev gval : Gval
gval text vars = none

abbrev at : ℕ → Timestamp
at n = record { unix_nano = pos n }

abbrev load : MetricBuilder
load = record {
  name = "load";
  custom_name = "";
  compute_type = query;
  expression = "";
  value = Any.float64 (num 85);
  unit_type = some (unit_type "MB");
  warning = some (Any.float64 (num 80));
  critical = some (Any.float64 (num 90));
  start_timestamp = some (at 3);
  end_timestamp = some (at 7);
  tags = [];
}

build_service_for_metric_lem_example :
    (svc : MonitoredService) × (build_service_for_metric ops (at 9) 5 "box" load
      ≡ returns (some svc))
    × (svc.info.name ≡ name_of load.name load.custom_name)
    × (svc.info.owner ≡ "box")
    × (svc.metrics
        ≡ made load (at 9) (of_double (num 85)) (of_double (num 80)) (of_double (num 90)) ∷ [])
    × (svc.monitored.status ≡ service_warning)
    × (svc.monitored.last_check_time ≡ some (end_of load.start_timestamp load.end_timestamp (at 9)))
unfolding new_typed_value calculate_status threshold_number status_of double_status
build_service_for_metric_lem_example =
    build_service_for_metric_lem ops (at 9) 5 "box" load (of_double (num 85)) (of_double (num 80))
      (of_double (num 90)) (Any.float64 (num 80)) (Any.float64 (num 90)) service_warning tt refl
      refl refl refl refl refl

-- A threshold of an unsupported type is logged, and then read through the nil pointer.
unsupported_threshold_panics :
    build_metric ops (at 9) (record load { warning = some Any.unsupported }) ≡ panics
unfolding build_metric create_metric build_threshold create_threshold new_typed_value
unsupported_threshold_panics = refl

evaluate_endless_example :
    evaluate arith_ops gval 1000 "GW:toPercentage((a+b)/c)" [] 0 ≡ out_of_fuel
unfolding is_call inner_call trim_space
evaluate_endless_example =
    evaluate_endless arith_ops gval 1000 "GW:toPercentage((a+b)/c)" "GW:toPercentage((a+b)" [] 0
      refl refl refl refl refl

abbrev abc : Dict Variable
abc =
    ("a", Expression.number (num 4))
    ∷ ("b", Expression.number (num 2))
    ∷ ("c", Expression.number (num 3))
    ∷ []

-- Calls in calls are evaluated from the inside.
nested_calls :
    evaluate arith_ops gval 5 "GW:maxInt(GW:minInt(a, b), c)" abc 0
    ≡ Expression.value
        (num 3)
        (num 3 ∷ [])
        (abc ++ (("res_0", Expression.number (num 2)) ∷ ("res_1", Expression.number (num 3)) ∷ []))
unfolding evaluate
nested_calls = refl

abbrev used : TimeSeries
used = record {
  metric_name = "disk.used";
  sample_type = SampleType.value;
  interval = some (record { end_time = some (at 7); start_time = some (at 3) });
  value = some (of_double (num 4));
  tags = [];
  unit = "";
  thresholds = none;
  metric_compute_type = query;
  metric_expression = "";
}

abbrev percent : TimeSeries
percent = record used {
  metric_name = "percent";
  metric_compute_type = synthetic;
  metric_expression = "disk.used";
}

abbrev disk : MonitoredService
disk = record {
  info = record {
    name = "disk";
    type = "service";
    owner = "box";
    category = "";
    description = "";
    properties = [];
  };
  monitored = record {
    status = service_ok;
    last_check_time = none;
    next_check_time = none;
    last_plugin_output = "";
  };
  metrics = percent ∷ used ∷ [];
}

abbrev variables : Dict Variable
variables = ("disk_used", Variable.pointer (some (num 4))) ∷ []

abbrev names : NamesPointer variables "disk.used"
unfolding is_call inner_call trim_space split_comma Expression.has_operator lookup replace_all
names = record {
  pointer = some (num 4);
  no_call = refl;
  no_inner_call = refl;
  no_comma = refl;
  no_operator = refl;
  variable = refl;
}

double_variable_panics_example :
    evaluate_expressions ops (λ text v. evaluate arith_ops gval 1 text v 0) 5 (disk ∷ []) ≡ panicked
unfolding variables_of
double_variable_panics_example =
    double_variable_panics arith_ops gval ops 5 0 disk [] percent (used ∷ []) variables refl refl
      refl names

abbrev format : Format
format = record {
  fp = ops;
  float_text = λ x. "";
  parse_float = λ s. some (num 95);
  find_patterns = λ s. [];
}

-- The text for a critical threshold alone gives the value of no warning threshold.
critical_alone :
    limits_text format "load" "95" (record { wt = "-1"; crt = "90" })
    ≡ " | [load] [VAL=95] [Crit=-1]"
unfolding limits_text critical_text
critical_alone = refl

two_minutes : format_time (pos 120000000000) 60000000000 ≡ "2 minute(s)"
unfolding format_time
two_minutes = refl

sanitized : sanitize_string "C:/ (disk)" ≡ returns "C:_disk"
unfolding sanitize_string
sanitized = refl

empty_text_panics : sanitize_string "" ≡ panics
unfolding sanitize_string
empty_text_panics = refl

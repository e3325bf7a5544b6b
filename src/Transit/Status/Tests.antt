-- ===== src/Transit/Status/Tests.antt =====
-- CalculateStatus of sdk/transit/transit.go at given values; a test's floats are its own numbers.
use tcg.Common.{
  ℕ, ◌+◌, ◌-◌, ◌≤◌, ◌≡◌, refl, ◌⊎◌, true, Option, none, some, [], ◌∷◌, ℤ, pos, negsuc, arith, ltb,
  leb, ◌==◌, Exists, here, there,
}
use tcg.Transit.Value.{
  Float64, FloatOps, TypedValue, ThresholdValue, TimeSeries, SampleType, ComputeType, of_double,
}
use tcg.Transit.Status.{
  service_ok, service_warning, service_unscheduled_critical, weight, threshold_number,
  calculate_status, calculate_service_status, double_status, status_of, pick_thresholds,
  service_status_loop,
}
use tcg.Transit.Status.Severity.{calculate_service_status-worst, Reports, reports}

abbrev float_of : ℤ → Float64
float_of (pos n) = record { bits = 1000 + n }
float_of (negsuc n) = record { bits = 999 - n }

abbrev ops : FloatOps
ops = record {
  of_int = float_of;
  lt = λ a b. ltb a.bits b.bits;
  le = λ a b. leb a.bits b.bits;
  eq = λ a b. a.bits == b.bits;
  of_float32 = λ n. record { bits = n };
}

leb_trans :
    (a b c : Float64)
    → leb a.bits b.bits ≡ true
    → leb b.bits c.bits ≡ true
    → leb a.bits c.bits ≡ true
leb_trans a b c h k = ground arith

abbrev num : ℕ → Float64
num n = float_of (pos n)

abbrev double : ℕ → Option TypedValue
double n = some (of_double (num n))

abbrev limit : SampleType → ℕ → ThresholdValue
limit k n = record { sample_type = k; label = ""; value = double n }

abbrev metric : ℕ → TimeSeries
metric n = record {
  metric_name = "cpu";
  sample_type = SampleType.value;
  interval = none;
  value = double n;
  tags = [];
  unit = "1";
  thresholds = some (limit SampleType.warning 80 ∷ limit SampleType.critical 90 ∷ []);
  metric_compute_type = ComputeType.query;
  metric_expression = "";
}

calculate_service_status-worst_example :
    (weight service_warning ≤ weight service_unscheduled_critical)
    × ((service_unscheduled_critical ≡ service_ok)
        ⊎ Exists (λ m. Reports ops m service_unscheduled_critical) (metric 95 ∷ metric 85 ∷ []))
unfolding calculate_service_status service_status_loop pick_thresholds calculate_status
    threshold_number status_of double_status weight
calculate_service_status-worst_example =
    calculate_service_status-worst ops (metric 95) (metric 85 ∷ []) service_unscheduled_critical
      service_warning refl
      (there (
        here (
          reports (limit SampleType.warning 80 ∷ limit SampleType.critical 90 ∷ []) (double 80)
            (double 90) refl refl refl)))

-- ===== src/Connectors/Synthetic.antt =====
-- connectors/connectors.go: EvaluateExpressions, and the resources that SendMetrics sends. `evaluate` is
-- EvaluateGroundworkExpression, which can fail, panic and not end.
use Prim.Native.String.{◌++◌ as join}
use tcg.Common.{
  ℕ, Bool, true, false, none, some, List, [], ◌∷◌, String, Dict, insert, Outcome, returns, panics,
  deref, ◌>>=◌, replace_all, if◌then◌else◌,
}
use tcg.Transit.Value.{
  Float64, FloatOps, TimeInterval, TimeSeries, SampleType, ComputeType, synthetic, integer_type,
  double_type, of_double,
}
use tcg.Transit.Status.{calculate_service_status}
use tcg.Transit.Monitored.{MonitoredService, MonitoredResource}
use tcg.Connectors.Expression.{
  Variable, number, pointer, Evaluated, value, fails, breaks, out_of_fuel,
}
use tcg.Connectors.Service.{add_time, checked}
use tcg.Connectors.Text.{build_host_status_text}

abbrev pub is_synthetic : ComputeType → Bool
is_synthetic synthetic = true
is_synthetic _ = false

-- A run that returns, panics or does not end: the code's loops stop where an evaluation does.
pub data Run {ℓ} (A : Type ℓ) : Type ℓ where
  ran : A → Run A
  panicked : Run A
  endless : Run A

abbrev pub then_run {ℓ κ} : {A : Type ℓ} {B : Type κ} → Run A → (A → Run B) → Run B
then_run (ran a) f = f a
then_run panicked f = panicked
then_run endless f = endless

abbrev pub run_of {ℓ} : {A : Type ℓ} → Outcome A → Run A
run_of (returns a) = ran a
run_of panics = panicked

abbrev pub Evaluator : Type 0
Evaluator = String → Dict Variable → Evaluated

module _ (fp : FloatOps) where
  -- The variable of one metric: an integer as a number, a double as its pointer.
  unfoldable pub add_variable : TimeSeries → Dict Variable → Outcome (Dict Variable)
  unfolding insert replace_all
  add_variable m vars =
      let name = replace_all m.metric_name "." "_" in
      if is_synthetic m.metric_compute_type
      then returns vars
      else (deref m.value >>= λ v. elim v.value_type [
        | integer_type ↦
            (deref v.integer_value >>= λ i. returns (insert name (number (fp.of_int i)) vars))
        | double_type ↦ returns (insert name (pointer v.double_value) vars)
        | _ ↦ returns vars
      ])

  unfoldable pub add_variables : List TimeSeries → Dict Variable → Outcome (Dict Variable)
  unfolding add_variable
  add_variables [] vars = returns vars
  add_variables (m ∷ ms) vars = add_variable m vars >>= λ more. add_variables ms more

  unfoldable pub variables_of : List MonitoredService → Dict Variable → Outcome (Dict Variable)
  unfolding add_variables
  variables_of [] vars = returns vars
  variables_of (s ∷ ss) vars = add_variables s.metrics vars >>= λ more. variables_of ss more

  abbrev synthetic_metric : TimeSeries → TimeInterval → Float64 → TimeSeries
  synthetic_metric m i x = record {
    metric_name = m.metric_name;
    sample_type = SampleType.value;
    interval = some (record { end_time = i.end_time; start_time = i.start_time });
    value = some (of_double x);
    tags = [];
    unit = "";
    thresholds = m.thresholds;
    metric_compute_type = ComputeType.other_compute "";
    metric_expression = "";
  }

  -- The service that a synthetic metric of the given value makes of its service. `interval` is
  -- CheckInterval; an error of the status is only logged.
  unfoldable pub synthetic_service :
      ℕ → MonitoredService → TimeSeries → Float64 → Outcome MonitoredService
  unfolding add_time calculate_service_status
  synthetic_service interval svc m x = deref m.interval >>= λ i. deref i.end_time >>= λ t.
      let metrics = synthetic_metric m i x ∷ [] in
      calculate_service_status fp (some metrics) >>= λ s. returns (record {
        info = record {
          name = svc.info.name;
          type = "service";
          owner = svc.info.owner;
          category = "";
          description = "";
          properties = [];
        };
        monitored = checked interval t (record {
          status = s.0;
          last_check_time = none;
          next_check_time = none;
          last_plugin_output = join " Expression: " m.metric_expression;
        });
        metrics = metrics;
      })

  module _ (evaluate : Evaluator) (interval : ℕ) where
    -- The loop over the metrics that a service had at first; a failed evaluation is logged.
    unfoldable pub evaluate_metrics :
        List TimeSeries → MonitoredService → Dict Variable → Run (MonitoredService × Dict Variable)
    unfolding synthetic_service
    evaluate_metrics [] svc vars = ran (svc, vars)
    evaluate_metrics (m ∷ ms) svc vars = elim (is_synthetic m.metric_compute_type) [
      | false ↦ evaluate_metrics ms svc vars
      | true ↦ elim (evaluate m.metric_expression vars) [
        | fails vars' ↦ evaluate_metrics ms svc vars'
        | value x xs vars' ↦
            then_run (run_of (synthetic_service interval svc m x))
              (λ s. evaluate_metrics ms s vars')
        | breaks ↦ panicked
        | out_of_fuel ↦ endless
      ]
    ]

    unfoldable pub evaluate_services :
        List MonitoredService → Dict Variable → Run (List MonitoredService)
    unfolding evaluate_metrics
    evaluate_services [] vars = ran []
    evaluate_services (s ∷ ss) vars =
        then_run (evaluate_metrics s.metrics s vars)
          (λ r. then_run (evaluate_services ss r.1) (λ rest. ran (r.0 ∷ rest)))

    unfoldable pub evaluate_expressions : List MonitoredService → Run (List MonitoredService)
    unfolding variables_of evaluate_services
    evaluate_expressions ss =
        then_run (run_of (variables_of ss [])) (λ vars. evaluate_services ss vars)

    -- The resources of SendMetrics, before they are marshalled.
    unfoldable pub evaluate_resources : List MonitoredResource → Run (List MonitoredResource)
    unfolding evaluate_expressions build_host_status_text
    evaluate_resources [] = ran []
    evaluate_resources (r ∷ rs) = then_run (evaluate_expressions r.services) (λ svcs.
        then_run (evaluate_resources rs) (λ rest. ran (
          record r {
            services = svcs;
            monitored = record (r.monitored) { last_plugin_output = build_host_status_text svcs };
          }
          ∷ rest)))

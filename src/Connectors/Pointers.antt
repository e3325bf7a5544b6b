-- ===== src/Connectors/Pointers.antt =====
-- connectors/connectors.go and connectors/groundworkFunctions.go: an expression over a double metric.
use tcg.Common.{
  ◌≡◌, subst, sym, refl, ◌∙◌, ap, ℕ, suc, true, false, Option, none, some, List, [], ◌∷◌, String,
  Dict, returns, lookup, replace_all,
}
use tcg.Mapping.{split_comma, trim_space}
use tcg.Transit.Value.{Float64, FloatOps, TimeSeries}
use tcg.Transit.Monitored.{MonitoredService}
use tcg.Connectors.Functions.{FloatArith}
use tcg.Connectors.Expression.{
  Variable, pointer, Gval, Evaluated, breaks, is_call, inner_call, has_operator, argument_values,
  reduce, evaluate,
}
use tcg.Connectors.Synthetic.{
  panicked, is_synthetic, variables_of, evaluate_metrics, evaluate_services, evaluate_expressions,
}

-- A text that names a pointer among the variables and is read as a name: without a call, a comma or an
-- operator, and the variable that is stored under it last is the pointer.
pub record NamesPointer (vars : Dict Variable) (text : String) : Type 0 where
  pub pointer : Option Float64
  pub no_call : is_call (trim_space text) ≡ false
  pub no_inner_call : inner_call (trim_space text) ≡ none
  pub no_comma : split_comma (trim_space text) ≡ text ∷ []
  pub no_operator : has_operator (trim_space text) ≡ false
  pub variable :
      lookup (replace_all (trim_space text) "." "_") vars ≡ some (Variable.pointer pointer)

module _ (ar : FloatArith) (gval : Gval) where
  argument_values-pointer :
      (name : String) (vars : Dict Variable) (p : Option Float64)
      → has_operator (trim_space name) ≡ false
      → lookup (replace_all (trim_space name) "." "_") vars ≡ some (pointer p)
      → argument_values ar gval (name ∷ []) [] vars ≡ breaks
  unfolding argument_values
  argument_values-pointer name vars p h l = rw (h, l, argument_values) refl

  reduce-none :
      (f : String → Dict Variable → ℕ → Evaluated) (fuel : ℕ) (text : String) (vars : Dict Variable)
      → inner_call text ≡ none
      → reduce ar gval f (suc fuel) text vars 0 ≡ argument_values ar gval (split_comma text) [] vars
  unfolding reduce
  reduce-none f fuel text vars e = rw (e, reduce) refl

  evaluate-pointer :
      (fuel : ℕ) (text : String) (vars : Dict Variable)
      → NamesPointer vars text
      → evaluate ar gval (suc fuel) text vars 0 ≡ breaks
  unfolding evaluate
  evaluate-pointer fuel text vars n =
      rw (n.no_call, evaluate)
        (reduce-none (evaluate ar gval fuel) fuel (trim_space text) vars n.no_inner_call
          ∙ (ap (λ ts. argument_values ar gval ts [] vars) n.no_comma
              ∙ argument_values-pointer text vars n.pointer n.no_operator n.variable))

  evaluate_metrics-breaks :
      (fp : FloatOps) (interval fuel : ℕ) (s : MonitoredService) (m : TimeSeries)
      → (ms : List TimeSeries) → (vars : Dict Variable) → is_synthetic m.metric_compute_type ≡ true
      → evaluate ar gval (suc fuel) m.metric_expression vars 0 ≡ breaks
      → evaluate_metrics fp
          (λ text v. evaluate ar gval (suc fuel) text v 0)
          interval
          (m ∷ ms)
          s
          vars
        ≡ panicked
  unfolding evaluate_metrics
  evaluate_metrics-breaks fp interval fuel s m ms vars sy b = rw (sy, b, evaluate_metrics) refl

  -- Where the first metric of the first service is synthetic, and its expression is a text without a
  -- function's call, a comma, an operator or spaces around it under which the last variable stored is
  -- the pointer of a double metric, EvaluateExpressions panics.
  pub double_variable_panics :
      (fp : FloatOps) (interval fuel : ℕ) (s : MonitoredService) (ss : List MonitoredService)
      → (m : TimeSeries) → (ms : List TimeSeries) → (vars : Dict Variable) → s.metrics ≡ m ∷ ms
      → is_synthetic m.metric_compute_type ≡ true
      → variables_of fp (s ∷ ss) [] ≡ returns vars
      → NamesPointer vars m.metric_expression
      → evaluate_expressions fp (λ text v. evaluate ar gval (suc fuel) text v 0) interval (s ∷ ss)
        ≡ panicked
  unfolding evaluate_expressions evaluate_services
  double_variable_panics fp interval fuel s ss m ms vars em sy v n =
      let breaks_first =
        evaluate_metrics-breaks fp interval fuel s m ms vars sy
          (evaluate-pointer fuel m.metric_expression vars n) in
      rw
        (
          v,
          subst
              (λ x.
                evaluate_metrics fp (λ text w. evaluate ar gval (suc fuel) text w 0) interval x s
                  vars
                ≡ panicked)
              (sym em) breaks_first,
        )
        refl

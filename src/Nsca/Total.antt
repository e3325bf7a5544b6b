-- ===== src/Nsca/Total.antt =====
-- connectors/nsca/parser/parser.go, Parse: what it returns on any text.
use Prim.Native.String.{◌++◌ as join}
use tcg.Common.{
  ◌≡◌, ◌⊎◌, inl, inr, refl, sym, subst, Bool, true, false, Option, none, some, List, [], ◌∷◌,
  String, Outcome, returns, panics, ◌>>=◌, Bool-cases, str_eq, arith,
}
use tcg.Mapping.{trim_space}
use tcg.Transit.Value.{
  Float64, Timestamp, TimeSeries, SampleType, query, of_double, new_typed_value,
}
use tcg.Connectors.Metric.{
  MetricBuilder, metric_of, build_metric, name_of, args_of, create_metric, create_threshold,
  build_threshold, take_args,
}
use tcg.Nsca.{
  DataFormat, other_format, bronx, nsca, nsca_alt, ParseError, invalid_metric_format, bad_integer,
  bad_float, bad_metric, Fields, Env, MetricsMap, ServicesMap, ◌>>?◌, ◌>>!◌, or_error, append_at,
  split_on, lines_of, metric_key, get_status, get_time, bronx_time, nsca_time, number, builder,
  perf_builder, perf_metric, perf_metrics, get_metrics, line_service, add_services, get_services,
  get_nsca_metrics, get_bronx_metrics, get_nsca_services, get_bronx_services, parse_with, parse,
}

unfoldable pub is_bad_metric : ParseError → Bool
is_bad_metric bad_metric = true
is_bad_metric _ = false

-- A result is not the error of BuildMetric, and a call with such a result does not panic.
abbrev pub Ok : {A : Type 0} → (A → Type 0) → ParseError ⊎ A → Type 0
Ok P (inl e) = is_bad_metric e ≡ false
Ok P (inr a) = P a

abbrev pub Fine : {A : Type 0} → (A → Type 0) → Outcome (ParseError ⊎ A) → Type 0
Fine P panics = ⊥
Fine P (returns r) = Ok P r

abbrev pub Anything : {A : Type 0} → A → Type 0
Anything a = Unit

Ok-bind :
    {A B : Type 0} (P : A → Type 0) (Q : B → Type 0) (r : ParseError ⊎ A)
    → (f : A → ParseError ⊎ B) → Ok P r
    → ((a : A) → P a → Ok Q (f a))
    → Ok Q (r >>? f)
Ok-bind P Q (inl e) f h k = h
Ok-bind P Q (inr a) f h k = k a h

Fine-bind :
    {A B : Type 0} (P : A → Type 0) (Q : B → Type 0) (o : Outcome (ParseError ⊎ A))
    → (f : A → Outcome (ParseError ⊎ B)) → Fine P o
    → ((a : A) → P a → Fine Q (f a))
    → Fine Q (o >>! f)
Fine-bind P Q panics f h k = absurd h
Fine-bind P Q (returns (inl e)) f h k = h
Fine-bind P Q (returns (inr a)) f h k = k a h

Ok-or_error :
    {A : Type 0} (e : ParseError) (o : Option A)
    → is_bad_metric e ≡ false
    → Ok Anything (or_error e o)
Ok-or_error e none h = h
Ok-or_error e (some a) h = tt

Ok-get_status : (s : String) → Ok Anything (get_status s)
unfolding get_status is_bad_metric
Ok-get_status s = ground arith

Ok-or_now :
    (now : Timestamp) (r : ParseError ⊎ Timestamp)
    → Ok Anything (elim r as (λ x. ParseError ⊎ Timestamp) [ inl e ↦ inr now | inr t ↦ inr t ])
Ok-or_now now (inl e) = tt
Ok-or_now now (inr t) = tt

-- The metric of a part of the performance data: its two thresholds are always given.
abbrev metric : Timestamp → String → Float64 → Float64 → Float64 → TimeSeries
metric t label value warning critical = record (metric_of label (of_double value)) {
  unit = "MB";
  interval = some (record { end_time = some t; start_time = some t });
  thresholds = some (
      (record {
        sample_type = SampleType.warning;
        label = join label "_wn";
        value = some (of_double warning);
      })
      ∷ (record {
        sample_type = SampleType.critical;
        label = join label "_cr";
        value = some (of_double critical);
      })
      ∷ []);
  metric_compute_type = query;
}

module _ (env : Env) where
  build_metric-builder :
      (t : Timestamp) (label : String) (value warning critical : Float64)
      → build_metric env.fp env.now (builder env t label value warning critical)
        ≡ returns (some (metric t label value warning critical))
  unfolding build_metric name_of args_of create_metric create_threshold build_threshold take_args
      new_typed_value
  build_metric-builder t label value warning critical = refl

  abbrev IsBuilder : MetricBuilder → Type 0
  IsBuilder mb =
      (t : Timestamp) × (label : String) × (value : Float64) × (warning : Float64)
      × (critical : Float64) × (mb ≡ builder env t label value warning critical)

  Ok-number : (s : String) → Ok Anything (number env s)
  unfolding number is_bad_metric
  Ok-number s = elim (Bool-cases (str_eq s "")) [
    | inl e ↦ rw e tt
    | inr e ↦ rw e (Ok-or_error bad_float (env.parse_float s) refl)
  ]

  Ok-get_time : (s : String) → Ok Anything (get_time env s)
  unfolding get_time is_bad_metric
  Ok-get_time s =
      Ok-bind Anything Anything (or_error bad_integer (env.parse_int s)) _
        (Ok-or_error bad_integer (env.parse_int s) refl) (λ i h. tt)

  Ok-nsca_time : (s : String) → Ok Anything (nsca_time env s)
  unfolding nsca_time
  Ok-nsca_time s = elim (Bool-cases (str_eq s "")) [
    | inl e ↦ rw e tt
    | inr e ↦ rw e (Ok-or_now env.now (get_time env s))
  ]

  Ok-perf_builder : (t : Timestamp) (text : String) → Ok IsBuilder (perf_builder env t text)
  unfolding perf_builder is_bad_metric
  Ok-perf_builder t text =
      Ok-bind Anything IsBuilder
        (or_error (invalid_metric_format "perf data") (env.perf_match text)) _
        (Ok-or_error (invalid_metric_format "perf data") (env.perf_match text) refl)
        (λ p h. Ok-bind Anything IsBuilder (number env p.val) _ (Ok-number p.val) (λ value h.
          Ok-bind Anything IsBuilder (number env p.warn) _ (Ok-number p.warn) (λ warning h.
            Ok-bind Anything IsBuilder (number env p.crit) _ (Ok-number p.crit)
              (λ critical h. (t, p.label, value, warning, critical, refl)))))

  Fine-metric :
      (mb : MetricBuilder)
      → IsBuilder mb
      → Fine Anything (build_metric env.fp env.now mb >>= λ m. returns (or_error bad_metric m))
  Fine-metric mb (t, label, value, warning, critical, e) =
      subst
        (λ b.
          Fine Anything (build_metric env.fp env.now b >>= λ m. returns (or_error bad_metric m)))
        (sym e) (rw (build_metric-builder t label value warning critical) tt)

  Fine-perf_metric : (t : Timestamp) (text : String) → Fine Anything (perf_metric env t text)
  unfolding perf_metric
  Fine-perf_metric t text =
      Fine-bind IsBuilder Anything (returns (perf_builder env t text)) _ (Ok-perf_builder t text)
        Fine-metric

  Fine-perf_metrics :
      (t : Timestamp) (key : String) (texts : List String) (m : MetricsMap)
      → Fine Anything (perf_metrics env t key texts m)
  unfolding perf_metrics
  Fine-perf_metrics t key [] m = tt
  Fine-perf_metrics t key (text ∷ texts) m =
      Fine-bind Anything Anything (perf_metric env t text) _ (Fine-perf_metric t text)
        (λ series h. Fine-perf_metrics t key texts (append_at key series m))

  module _ (find : String → Option Fields) (time : String → ParseError ⊎ Timestamp)
      (timed : (s : String) → Ok Anything (time s)) where
    Fine-get_metrics :
        (lines : List String) (m : MetricsMap) → Fine Anything (get_metrics env find time lines m)
    unfolding get_metrics is_bad_metric
    Fine-get_metrics [] m = tt
    Fine-get_metrics (line ∷ lines) m =
        Fine-bind Anything Anything
          (returns (or_error (invalid_metric_format "resource") (find line))) _
          (Ok-or_error (invalid_metric_format "resource") (find line) refl)
          (λ f h. Fine-bind Anything Anything (returns (time f.ts)) _ (timed f.ts) (λ t h.
            Fine-bind Anything Anything
              (perf_metrics env t (metric_key f) (split_on 32 (trim_space f.perf)) m) _
              (Fine-perf_metrics t (metric_key f) (split_on 32 (trim_space f.perf)) m)
              (λ n h. Fine-get_metrics lines n)))

    Ok-line_service :
        (metrics : MetricsMap) (line : String)
        → Ok Anything (line_service env find time metrics line)
    unfolding line_service is_bad_metric
    Ok-line_service metrics line =
        Ok-bind Anything Anything (or_error (invalid_metric_format "service") (find line)) _
          (Ok-or_error (invalid_metric_format "service") (find line) refl)
          (λ f h. Ok-bind Anything Anything (time f.ts) _ (timed f.ts) (λ t h.
            Ok-bind Anything Anything (get_status f.status) _ (Ok-get_status f.status)
              (λ status h. tt)))

    Ok-add_services :
        (metrics : MetricsMap) (lines : List String) (m : ServicesMap)
        → Ok Anything (add_services env find time metrics lines m)
    unfolding add_services
    Ok-add_services metrics [] m = tt
    Ok-add_services metrics (line ∷ lines) m =
        Ok-bind Anything Anything (line_service env find time metrics line) _
          (Ok-line_service metrics line)
          (λ s h. Ok-add_services metrics lines (append_at s.info.owner s m))

    Ok-get_services :
        (metrics : MetricsMap) (lines : List String)
        → Ok Anything (get_services env find time metrics lines)
    unfolding get_services
    Ok-get_services metrics lines =
        Ok-bind Anything Anything (add_services env find time metrics lines []) _
          (Ok-add_services metrics lines []) (λ m h. tt)

  Fine-parse_with :
      (order : ServicesMap → ServicesMap) (metrics : Outcome (ParseError ⊎ MetricsMap))
      → (services : MetricsMap → ParseError ⊎ ServicesMap) → Fine Anything metrics
      → ((m : MetricsMap) → Ok Anything (services m))
      → Fine Anything (parse_with env order metrics services)
  unfolding parse_with
  Fine-parse_with order metrics services h k =
      Fine-bind Anything Anything metrics _ h
        (λ m x. Ok-bind Anything Anything (services m) _ (k m) (λ n y. tt))

  Fine-parse_nsca :
      (order : ServicesMap → ServicesMap) (lines : List String)
      → Fine Anything
          (parse_with env order (get_nsca_metrics env lines) (λ m. get_nsca_services env m lines))
  unfolding get_nsca_metrics get_nsca_services
  Fine-parse_nsca order lines =
      Fine-parse_with order _ _
        (Fine-get_metrics env.nsca_match (nsca_time env) Ok-nsca_time lines [])
        (λ m. Ok-get_services env.nsca_match (nsca_time env) Ok-nsca_time m lines)

  Fine-parse_bronx :
      (order : ServicesMap → ServicesMap) (lines : List String)
      → Fine Anything
          (parse_with env order (get_bronx_metrics env lines) (λ m. get_bronx_services env m lines))
  unfolding get_bronx_metrics get_bronx_services bronx_time
  Fine-parse_bronx order lines =
      Fine-parse_with order _ _
        (Fine-get_metrics env.bronx_match (bronx_time env) Ok-get_time lines [])
        (λ m. Ok-get_services env.bronx_match (bronx_time env) Ok-get_time m lines)

  -- Parse returns on every text and in every format, whatever the expressions match: it does not
  -- panic, and BuildMetric never fails.
  pub parse_total :
      (order : ServicesMap → ServicesMap) (payload : String) (format : DataFormat)
      → Fine Anything (parse env order payload format)
  unfolding parse is_bad_metric
  parse_total order payload bronx = Fine-parse_bronx order (lines_of payload)
  parse_total order payload nsca = Fine-parse_nsca order (lines_of payload)
  parse_total order payload nsca_alt = Fine-parse_nsca order (lines_of payload)
  parse_total order payload (other_format f) = refl

-- ===== src/Nsca.antt =====
-- connectors/nsca/parser/parser.go: resources from the lines of NSCA. The regular expressions and
-- strconv answer as arguments, the clock stands still during a call, and an entry of the map of
-- resources comes in the order that `order` gives.
pub mod Distinct
pub mod Hosts
pub mod Grouped
pub mod Total
mod Tests
use Prim.Native.Char.{code}
use Prim.Native.String.{[] as empty, ◌∷◌ as after, ◌++◌ as join}
use tcg.Common.{
  ◌⊎◌, inl, inr, ℕ, suc, ◌-◌, ◌*◌, Bool, true, false, ◌&&◌, ◌||◌, Option, none, some, List, [], ◌∷◌,
  ◌++◌, String, ℤ, pos, negsuc, Dict, lookup, insert, map, Outcome, returns, ◌>>=◌, str_eq, ◌==◌,
  if◌then◌else◌,
}
use tcg.Mapping.{trim_space}
use tcg.Transit.Value.{Float64, FloatOps, Timestamp, TimeSeries, Any, query}
use tcg.Transit.Status.{
  MonitorStatus, service_ok, service_warning, service_unscheduled_critical, service_unknown,
  host_up, other_status,
}
use tcg.Transit.Monitored.{MonitoredInfo, MonitoredService, MonitoredResource}
use tcg.Connectors.Metric.{MetricBuilder, unit_type, build_metric}
use tcg.Connectors.Service.{base_info, no_info}

pub data DataFormat : Type 0 where
  bronx nsca nsca_alt : DataFormat
  other_format : String → DataFormat

-- ErrInvalidMetricFormat with its detail, ErrUnknownMetricFormat, and the errors of getStatus,
-- strconv and BuildMetric.
pub data ParseError : Type 0 where
  invalid_metric_format : String → ParseError
  unknown_metric_format unknown_status bad_integer bad_float bad_metric : ParseError

-- The groups of bronxRegexp and nscaRegexp that are read; one that does not take part is empty.
pub record Fields : Type 0 where
  pub ts : String
  pub res_name : String
  pub svc_name : String
  pub status : String
  pub msg : String
  pub perf : String

-- Those of perfDataRegexp.
pub record PerfFields : Type 0 where
  pub label : String
  pub val : String
  pub warn : String
  pub crit : String

pub record Env : Type 0 where
  pub fp : FloatOps
  pub now : Timestamp
  pub bronx_match : String → Option Fields
  pub nsca_match : String → Option Fields
  pub perf_match : String → Option PerfFields
  pub parse_int : String → Option ℤ
  pub parse_float : String → Option Float64

abbrev pub MetricsMap : Type 0
MetricsMap = Dict (List TimeSeries)

abbrev pub ServicesMap : Type 0
ServicesMap = Dict (List MonitoredService)

-- `m[k]` of a map of slices, and `m[k] = append(m[k], v)`.
unfoldable pub slice_at {ℓ} : {V : Type ℓ} → String → Dict (List V) → List V
unfolding lookup
slice_at k m = elim (lookup k m) [ none ↦ [] | some vs ↦ vs ]

unfoldable pub append_at {ℓ} : {V : Type ℓ} → String → V → Dict (List V) → Dict (List V)
unfolding slice_at insert
append_at k v m = insert k (slice_at k m ++ v ∷ []) m

-- strings.Split of one character, given by its code.
abbrev prefix_first : String → List String → List String
prefix_first c [] = c ∷ []
prefix_first c (s ∷ ss) = join c s ∷ ss

unfoldable pub split_on : ℕ → String → List String
split_on k empty = "" ∷ []
split_on k (after c s) =
    let rest = split_on k s in if code c == k then "" ∷ rest else prefix_first (after c empty) rest

-- bytes.Trim of the cutset " \n\r".
abbrev in_cutset : ℕ → Bool
in_cutset k = k == 32 || k == 10 || k == 13

unfoldable pub trim_left_cutset : String → String
trim_left_cutset empty = empty
trim_left_cutset (after c s) =
    let rest = trim_left_cutset s in if in_cutset (code c) then rest else after c s

unfoldable pub trim_right_cutset : String → String
trim_right_cutset empty = empty
trim_right_cutset (after c s) =
    let rest = trim_right_cutset s in
    if str_eq rest "" && in_cutset (code c) then "" else after c rest

unfoldable pub lines_of : String → List String
unfolding split_on trim_left_cutset trim_right_cutset
lines_of payload = split_on 10 (trim_right_cutset (trim_left_cutset payload))

unfoldable pub metric_key : Fields → String
metric_key f = join f.res_name (join ":" f.svc_name)

unfoldable pub get_status : String → ParseError ⊎ MonitorStatus
get_status s =
    if str_eq s "0"
    then inr service_ok
    else if str_eq s "1"
    then inr service_warning
    else if str_eq s "2"
    then inr service_unscheduled_critical
    else if str_eq s "3"
    then inr service_unknown
    else inl unknown_status

-- `time.Unix(i, 0)`.
abbrev seconds : ℤ → Timestamp
seconds (pos n) = record { unix_nano = pos (n * 1000000000) }
seconds (negsuc n) = record { unix_nano = negsuc (suc n * 1000000000 - 1) }

infixl 5 ◌>>?◌
abbrev pub ◌>>?◌ : {A B : Type 0} → ParseError ⊎ A → (A → ParseError ⊎ B) → ParseError ⊎ B
inl e >>? f = inl e
inr a >>? f = f a

-- The same after a call that may panic.
infixl 5 ◌>>!◌
abbrev pub ◌>>!◌ :
    {A B : Type 0}
    → Outcome (ParseError ⊎ A)
    → (A → Outcome (ParseError ⊎ B))
    → Outcome (ParseError ⊎ B)
m >>! f = m >>= λ r. elim r [ inl e ↦ returns (inl e) | inr a ↦ f a ]

abbrev or_error : {A : Type 0} → ParseError → Option A → ParseError ⊎ A
or_error e none = inl e
or_error e (some a) = inr a

-- The first of the services with each name: `keys` has the names that were seen.
unfoldable pub first_of_names : Dict Bool → List MonitoredService → List MonitoredService
unfolding lookup insert
first_of_names keys [] = []
first_of_names keys (s ∷ ss) = elim (lookup s.info.name keys) [
  | some b ↦ first_of_names keys ss
  | none ↦ s ∷ first_of_names (insert s.info.name true keys) ss
]

unfoldable pub remove_duplicate_services : ServicesMap → ServicesMap
unfolding first_of_names
remove_duplicate_services [] = []
remove_duplicate_services ((k, v) ∷ m) = (k, first_of_names [] v) ∷ remove_duplicate_services m

-- The loop of Parse over the services of one resource; the flag tells a result of the host itself.
unfoldable pub apply_host_checks :
    Bool → MonitoredResource → List MonitoredService → Bool × MonitoredResource
apply_host_checks flag res [] = (flag, res)
apply_host_checks flag res (s ∷ ss) = elim (str_eq s.info.name "") [
  | true ↦ apply_host_checks true (record res { monitored = s.monitored }) ss
  | false ↦ apply_host_checks flag (record res { services = res.services ++ s ∷ [] }) ss
]

-- CalculateResourceStatus.
abbrev pub calculate_resource_status : List MonitoredService → MonitorStatus
calculate_resource_status services = host_up

abbrev pub new_resource : String → MonitoredResource
new_resource name = record {
  info = base_info name "host" "";
  device = "";
  monitored = no_info (other_status "");
  services = [];
}

abbrev pub finish_resource : Timestamp → Bool × MonitoredResource → MonitoredResource
finish_resource now (true, res) = res
finish_resource now (false, res) = record res {
  monitored = record (res.monitored) {
    last_check_time = some now;
    status = calculate_resource_status res.services;
  };
}

unfoldable pub make_resource : Timestamp → String × List MonitoredService → MonitoredResource
unfolding apply_host_checks
make_resource now (name, services) =
    finish_resource now (apply_host_checks false (new_resource name) services)

module _ (env : Env) where
  unfoldable pub get_time : String → ParseError ⊎ Timestamp
  get_time s = or_error bad_integer (env.parse_int s) >>? λ i. inr (seconds i)

  -- The time of a line: of Bronx it must be a number, and of NSCA another text is now.
  unfoldable pub bronx_time : String → ParseError ⊎ Timestamp
  unfolding get_time
  bronx_time s = get_time s

  unfoldable pub nsca_time : String → ParseError ⊎ Timestamp
  unfolding get_time
  nsca_time s =
      if str_eq s "" then inr env.now else elim (get_time s) [ inl e ↦ inr env.now | inr t ↦ inr t ]

  -- A number of the performance data; an empty text leaves the variable's zero.
  unfoldable pub number : String → ParseError ⊎ Float64
  number s =
      if str_eq s "" then inr (env.fp.of_int (pos 0)) else or_error bad_float (env.parse_float s)

  abbrev pub builder : Timestamp → String → Float64 → Float64 → Float64 → MetricBuilder
  builder t label value warning critical = record {
    name = label;
    custom_name = "";
    compute_type = query;
    expression = "";
    value = Any.float64 value;
    unit_type = some (unit_type "MB");
    warning = some (Any.float64 warning);
    critical = some (Any.float64 critical);
    start_timestamp = some t;
    end_timestamp = some t;
    tags = [];
  }

  unfoldable pub perf_builder : Timestamp → String → ParseError ⊎ MetricBuilder
  unfolding number
  perf_builder t text = or_error (invalid_metric_format "perf data") (env.perf_match text) >>? λ p.
      number p.val >>? λ value. number p.warn >>? λ warning.
      number p.crit >>? λ critical. inr (builder t p.label value warning critical)

  unfoldable pub perf_metric : Timestamp → String → Outcome (ParseError ⊎ TimeSeries)
  unfolding perf_builder build_metric
  perf_metric t text = returns (perf_builder t text) >>! λ mb.
      build_metric env.fp env.now mb >>= λ m. returns (or_error bad_metric m)

  unfoldable pub perf_metrics :
      Timestamp → String → List String → MetricsMap → Outcome (ParseError ⊎ MetricsMap)
  unfolding perf_metric append_at
  perf_metrics t key [] m = returns (inr m)
  perf_metrics t key (text ∷ texts) m =
      perf_metric t text >>! λ series. perf_metrics t key texts (append_at key series m)

  -- getBronxMetrics and getNscaMetrics differ in the expression and the time of a line; so do
  -- getBronxServices and getNscaServices.
  module _ (find : String → Option Fields) (time : String → ParseError ⊎ Timestamp) where
    unfoldable pub get_metrics : List String → MetricsMap → Outcome (ParseError ⊎ MetricsMap)
    unfolding perf_metrics metric_key split_on trim_space
    get_metrics [] m = returns (inr m)
    get_metrics (line ∷ lines) m =
        returns (or_error (invalid_metric_format "resource") (find line)) >>! λ f.
        returns (time f.ts) >>! λ t.
        perf_metrics t (metric_key f) (split_on 32 (trim_space f.perf)) m >>! λ n.
        get_metrics lines n

    unfoldable pub line_service : MetricsMap → String → ParseError ⊎ MonitoredService
    unfolding get_status slice_at metric_key
    line_service metrics line = or_error (invalid_metric_format "service") (find line) >>? λ f.
        time f.ts >>? λ t. get_status f.status >>? λ status. inr (record {
          info = base_info f.svc_name "service" f.res_name;
          monitored = record {
            status = status;
            last_check_time = some t;
            next_check_time = none;
            last_plugin_output = f.msg;
          };
          metrics = slice_at (metric_key f) metrics;
        })

    unfoldable pub add_services : MetricsMap → List String → ServicesMap → ParseError ⊎ ServicesMap
    unfolding line_service append_at
    add_services metrics [] m = inr m
    add_services metrics (line ∷ lines) m =
        line_service metrics line >>? λ s. add_services metrics lines (append_at s.info.owner s m)

    unfoldable pub get_services : MetricsMap → List String → ParseError ⊎ ServicesMap
    unfolding add_services remove_duplicate_services
    get_services metrics lines =
        add_services metrics lines [] >>? λ m. inr (remove_duplicate_services m)

  unfoldable pub get_nsca_metrics : List String → Outcome (ParseError ⊎ MetricsMap)
  unfolding get_metrics nsca_time
  get_nsca_metrics lines = get_metrics env.nsca_match nsca_time lines []

  unfoldable pub get_bronx_metrics : List String → Outcome (ParseError ⊎ MetricsMap)
  unfolding get_metrics bronx_time
  get_bronx_metrics lines = get_metrics env.bronx_match bronx_time lines []

  unfoldable pub get_nsca_services : MetricsMap → List String → ParseError ⊎ ServicesMap
  unfolding get_services nsca_time
  get_nsca_services metrics lines = get_services env.nsca_match nsca_time metrics lines

  unfoldable pub get_bronx_services : MetricsMap → List String → ParseError ⊎ ServicesMap
  unfolding get_services bronx_time
  get_bronx_services metrics lines = get_services env.bronx_match bronx_time metrics lines

  -- Parse, of a format that it knows, from what gives the metrics and the services.
  unfoldable pub parse_with :
      (ServicesMap → ServicesMap)
      → Outcome (ParseError ⊎ MetricsMap)
      → (MetricsMap → ParseError ⊎ ServicesMap)
      → Outcome (ParseError ⊎ List MonitoredResource)
  unfolding make_resource
  parse_with order metrics services =
      metrics >>! λ m. returns (services m >>? λ n. inr (map (make_resource env.now) (order n)))

  unfoldable pub parse :
      (ServicesMap → ServicesMap)
      → String
      → DataFormat
      → Outcome (ParseError ⊎ List MonitoredResource)
  unfolding parse_with lines_of get_nsca_metrics get_bronx_metrics get_nsca_services
      get_bronx_services
  parse order payload format =
      let lines = lines_of payload in
      let of_nsca = parse_with order (get_nsca_metrics lines) (λ m. get_nsca_services m lines) in
      elim format [
        | bronx ↦ parse_with order (get_bronx_metrics lines) (λ m. get_bronx_services m lines)
        | nsca ↦ of_nsca
        | nsca_alt ↦ of_nsca
        | other_format f ↦ returns (inl unknown_metric_format)
      ]

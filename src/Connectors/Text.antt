-- ===== src/Connectors/Text.antt =====
-- connectors/connectors.go: the text of a status. Durations are divided exactly where the code divides
-- floats, which differ by less than a microsecond. A text that cannot be made is none.
use Prim.Native.String.{◌++◌ as join}
use tcg.Common.{
  ℕ, ◌+◌, ◌*◌, ◌/◌, ◌%◌, not, ◌&&◌, ◌||◌, Option, none, some, List, [], ◌∷◌, String, ℤ, pos, negsuc,
  ltb, ltb_ℤ, ◌==◌, Outcome, returns, deref, ◌>>=◌, str_eq, decimal, replace_all, trim_prefix,
  if◌then◌else◌,
}
use tcg.Transit.Value.{
  Float64, FloatOps, TypedValue, ThresholdValue, TimeSeries, SampleType, integer_type, double_type,
  string_type, boolean_type, time_type,
}
use tcg.Transit.Status.{
  MonitorStatus, service_ok, service_warning, service_scheduled_critical,
  service_unscheduled_critical,
}
use tcg.Transit.Monitored.{MonitoredService}

-- What the libraries do: `%f` and ParseFloat, and the matches of `\{(.*?)\}` in a text.
pub record Format : Type 0 where
  pub fp : FloatOps
  pub float_text : Float64 → String
  pub parse_float : String → Option Float64
  pub find_patterns : String → List String

-- `%.0f` of n / d: to the nearest number, and of two to the even one.
unfoldable pub round_half_even : ℕ → ℕ → ℕ
round_half_even n d =
    let q = n / d in
    let r = n % d in
    if ltb (r * 2) d then q else if ltb d (r * 2) then q + 1 else if q % 2 == 0 then q else q + 1

abbrev second : ℕ
second = 1000000000

abbrev minute : ℕ
minute = 60 * second

abbrev hour : ℕ
hour = 60 * minute

-- The whole units of a duration in nanoseconds, and the whole days of its whole hours.
unfoldable pub units_text : ℤ → ℕ → String
unfolding round_half_even decimal
units_text (pos n) unit = decimal (round_half_even n unit)
units_text (negsuc n) unit = join "-" (decimal (round_half_even (n + 1) unit))

unfoldable pub days_text : ℤ → String
unfolding round_half_even decimal
days_text (pos n) = decimal (round_half_even (round_half_even n hour) 24)
days_text (negsuc n) = join "-" (decimal (round_half_even (round_half_even (n + 1) hour) 24))

-- FormatTimeForStatusMessage, of durations in nanoseconds.
unfoldable pub format_time : ℤ → ℕ → String
unfolding units_text days_text
format_time value min_round =
    if ltb_ℤ (pos (3 * hour)) value || ltb minute min_round
    then (if ltb_ℤ value (pos (73 * hour))
        then join (units_text value hour) " hour(s)"
        else join (days_text value) " day(s)")
    else if ltb_ℤ (pos (3 * minute)) value || ltb second min_round
    then join (units_text value minute) " minute(s)"
    else join (units_text value second) " second(s)"

abbrev decimal_ℤ : ℤ → String
decimal_ℤ (pos n) = decimal n
decimal_ℤ (negsuc n) = join "-" (decimal (n + 1))

abbrev none_threshold_text : String
none_threshold_text = "-1"

abbrev set_text : Option String → String → String
set_text none old = old
set_text (some new) old = new

-- The texts of the thresholds, the warning's and the critical one's.
pub record Limits : Type 0 where
  pub wt : String
  pub crt : String

module _ (fmt : Format) where
  unfoldable pub get_value_text : Option TypedValue → Outcome (Option String)
  unfolding decimal format_time
  get_value_text none = returns none
  get_value_text (some v) = elim v.value_type [
    | integer_type ↦ (deref v.integer_value >>= λ i. returns (some (decimal_ℤ i)))
    | double_type ↦ (deref v.double_value >>= λ x. returns (some (fmt.float_text x)))
    | string_type ↦ (deref v.string_value >>= λ s. returns (some s))
    | boolean_type ↦ (deref v.bool_value >>= λ b. returns (some (if b then "true" else "false")))
    | time_type ↦ (deref v.time_value >>= λ t. returns (some (format_time t.unix_nano second)))
    | _ ↦ returns none
  ]

  -- The loop over the thresholds of a metric; another kind is passed over.
  unfoldable pub limits_of : List ThresholdValue → Limits → Outcome Limits
  unfolding get_value_text
  limits_of [] l = returns l
  limits_of (t ∷ ts) l = elim t.sample_type [
    | SampleType.warning ↦
        (get_value_text t.value >>= λ s. limits_of ts (record l { wt = set_text s l.wt }))
    | SampleType.critical ↦
        (get_value_text t.value >>= λ s. limits_of ts (record l { crt = set_text s l.crt }))
    | _ ↦ limits_of ts l
  ]

  abbrev labelled : String → String → String → String
  labelled name value rest =
      join " | [" (join name (join "] [VAL=" (join value (join "] [" (join rest "]")))))

  -- The text for both thresholds, for the warning one and for the critical one.
  unfoldable pub both_text : String → String → Limits → Float64 → Float64 → Float64 → String
  both_text name text l x w c =
      if fmt.fp.le w x && fmt.fp.le c x
      then labelled name text (join "W/C=" (join l.wt (join "/" l.crt)))
      else if fmt.fp.le c x
      then labelled name text (join "Crit=" l.crt)
      else if fmt.fp.le w x
      then labelled name text (join "Warn=" l.wt)
      else ""

  unfoldable pub warning_text : String → String → Limits → Float64 → Float64 → String
  warning_text name text l x w =
      if fmt.fp.le w x then labelled name text (join "Warn=" l.wt) else ""

  unfoldable pub critical_text : String → String → Limits → Float64 → Float64 → String
  critical_text name text l x c =
      if fmt.fp.le c x then labelled name text (join "Crit=" l.wt) else ""

  -- What a metric adds for its limits; nothing where a text is no number.
  unfoldable pub limits_text : String → String → Limits → String
  unfolding both_text warning_text critical_text
  limits_text name text l = elim (fmt.parse_float text) [
    | none ↦ ""
    | some x ↦
        if not (str_eq none_threshold_text l.wt) && not (str_eq none_threshold_text l.crt)
        then elim (fmt.parse_float l.wt) [
          | none ↦ ""
          | some w ↦ elim (fmt.parse_float l.crt) [
            | none ↦ ""
            | some c ↦ both_text name text l x w c
          ]
        ]
        else if not (str_eq none_threshold_text l.wt)
        then elim (fmt.parse_float l.wt) [ none ↦ "" | some w ↦ warning_text name text l x w ]
        else if not (str_eq none_threshold_text l.crt)
        then elim (fmt.parse_float l.crt) [ none ↦ "" | some c ↦ critical_text name text l x c ]
        else ""
  ]

  abbrev no_limits : Limits
  no_limits = record { wt = none_threshold_text; crt = none_threshold_text }

  unfoldable pub metric_text : TimeSeries → Outcome String
  unfolding get_value_text limits_of limits_text
  metric_text m = get_value_text m.value >>= λ v. elim v [
    | none ↦ returns ""
    | some text ↦ elim m.thresholds [
      | none ↦ returns ""
      | some ts ↦ (limits_of ts no_limits >>= λ l. returns (limits_text m.metric_name text l))
    ]
  ]

  unfoldable pub metrics_text : String → List TimeSeries → Outcome String
  unfolding metric_text
  metrics_text text [] = returns text
  metrics_text text (m ∷ ms) = metric_text m >>= λ t. metrics_text (join text t) ms

  -- addThresholdsToStatusText
  unfoldable pub add_thresholds : String → MonitoredService → Outcome String
  unfolding metrics_text trim_prefix
  add_thresholds text svc = metrics_text text svc.metrics >>= λ t. returns (trim_prefix t " | ")

  -- The value of a pattern; none where it has no getter or the getter fails. `interval` is
  -- CheckInterval.
  unfoldable pub pattern_value : ℕ → MonitoredService → String → Outcome (Option String)
  unfolding get_value_text format_time
  pattern_value interval svc pattern =
      if str_eq pattern "{value}"
      then elim svc.metrics [
        | [] ↦ returns none
        | m ∷ [] ↦ get_value_text m.value
        | m ∷ (n ∷ ms) ↦ returns none
      ]
      else if str_eq pattern "{interval}"
      then returns (some (format_time (pos interval) minute))
      else returns none

  abbrev pub replaced : String → String → Option String → String
  unfolding replace_all
  replaced message pattern none = message
  replaced message pattern (some value) = replace_all message pattern value

  unfoldable pub fill_patterns : ℕ → MonitoredService → List String → String → Outcome String
  unfolding pattern_value
  fill_patterns interval svc [] message = returns message
  fill_patterns interval svc (p ∷ ps) message =
      pattern_value interval svc p >>= λ v. fill_patterns interval svc ps (replaced message p v)

  -- addServiceStatusText, of a service that is not nil.
  unfoldable pub add_service_status_text : ℕ → String → MonitoredService → Outcome MonitoredService
  unfolding fill_patterns add_thresholds
  add_service_status_text interval message svc =
      fill_patterns interval svc (fmt.find_patterns message) message >>= λ filled.
      add_thresholds filled svc >>= λ text.
      returns (record svc { monitored = record (svc.monitored) { last_plugin_output = text } })

-- buildHostStatusText: the numbers of services, and their text.
pub record Counts : Type 0 where
  pub ok : ℕ
  pub warn : ℕ
  pub critical : ℕ
  pub other : ℕ

unfoldable pub count_one : MonitorStatus → Counts → Counts
count_one service_ok n = record n { ok = n.ok + 1 }
count_one service_warning n = record n { warn = n.warn + 1 }
count_one service_scheduled_critical n = record n { critical = n.critical + 1 }
count_one service_unscheduled_critical n = record n { critical = n.critical + 1 }
count_one _ n = record n { other = n.other + 1 }

unfoldable pub count_statuses : List MonitoredService → Counts → Counts
unfolding count_one
count_statuses [] n = n
count_statuses (svc ∷ svcs) n = count_statuses svcs (count_one svc.monitored.status n)

unfoldable pub build_host_status_text : List MonitoredService → String
unfolding count_statuses decimal
build_host_status_text svcs =
    let n = count_statuses svcs (record { ok = 0; warn = 0; critical = 0; other = 0 }) in
    join "Host has " (
      join (decimal n.ok) (
        join " OK, " (
          join (decimal n.warn) (
            join " WARNING, " (
              join (decimal n.critical)
                (join " CRITICAL and " (join (decimal n.other) " other services.")))))))

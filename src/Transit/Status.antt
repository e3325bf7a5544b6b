-- ===== src/Transit/Status.antt =====
-- sdk/transit/transit.go: the status of a service from the thresholds of its metrics.
pub mod Severity
pub mod Agreement
pub mod Total
mod Tests
use tcg.Common.{
  ℕ, String, Bool, true, false, not, ◌&&◌, ◌||◌, Option, none, some, List, [], ◌∷◌, pos, negsuc,
  Outcome, returns, panics, deref, ◌>>=◌, if◌then◌else◌, is_none, ltb,
}
use tcg.Transit.Value.{
  Float64, FloatOps, integer_type, double_type, TypedValue, ThresholdValue, TimeSeries, SampleType,
}

pub data MonitorStatus : Type 0 where
  service_ok service_warning service_unscheduled_critical service_pending : MonitorStatus
  service_scheduled_critical service_unknown : MonitorStatus
  host_up host_unscheduled_down host_warning host_pending host_scheduled_down : MonitorStatus
  host_unreachable host_unchanged : MonitorStatus
  other_status : String → MonitorStatus

-- MonitorStatusWeightService; a status that the map lacks weighs 0.
unfoldable pub weight : MonitorStatus → ℕ
weight service_pending = 10
weight service_unknown = 20
weight service_warning = 30
weight service_scheduled_critical = 50
weight service_unscheduled_critical = 100
weight _ = 0

-- The thresholds of one metric: the last of each kind wins, and another kind is an error, which
-- is none here. A kind that does not occur leaves the zero ThresholdValue, whose Value is nil.
unfoldable pub pick_thresholds :
    Option TypedValue
    → Option TypedValue
    → List ThresholdValue
    → Option (Option TypedValue × Option TypedValue)
pick_thresholds warning critical [] = some (warning, critical)
pick_thresholds warning critical (t ∷ ts) = elim t.sample_type [
  | SampleType.warning ↦ pick_thresholds t.value critical ts
  | SampleType.critical ↦ pick_thresholds warning t.value ts
  | _ ↦ none
]

abbrev pub heavier : MonitorStatus → MonitorStatus → MonitorStatus
heavier previous status = if ltb (weight previous) (weight status) then status else previous

module _ (fp : FloatOps) where
  abbrev minus_one : Float64
  minus_one = fp.of_int (negsuc 0)

  -- The number that a threshold stands for: 0 for a nil threshold and for one that is no number.
  unfoldable pub threshold_number : Option TypedValue → Outcome Float64
  threshold_number none = returns (fp.of_int (pos 0))
  threshold_number (some t) = elim t.value_type [
    | integer_type ↦ (do i ← deref t.integer_value; returns (fp.of_int i))
    | double_type ↦ deref t.double_value
    | _ ↦ returns (fp.of_int (pos 0))
  ]

  -- `case IntegerType`: `x` is the value, `no_w` and `no_c` tell nil thresholds, `w` and `c` are
  -- their numbers.
  unfoldable pub integer_status : Float64 → Bool → Bool → Float64 → Float64 → MonitorStatus
  integer_status x no_w no_c w c =
      if no_w && fp.eq c minus_one
      then (if fp.le c x then service_unscheduled_critical else service_ok)
      else if no_c && (not no_w && fp.eq w minus_one)
      then (if fp.le w x then service_warning else service_ok)
      else if (not no_w && fp.eq w minus_one) && (not no_c && fp.eq c minus_one)
      then service_ok
      else if (not no_w && not no_c) && fp.lt c w
      then (if fp.le x c
          then service_unscheduled_critical
          else if fp.le x w
          then service_warning
          else service_ok)
      else if (not no_w && not no_c) && fp.le c x
      then service_unscheduled_critical
      else if (not no_w && not no_c) && fp.le w x
      then service_warning
      else service_ok

  -- `case DoubleType`.
  unfoldable pub double_status : Float64 → Bool → Bool → Float64 → Float64 → MonitorStatus
  double_status x no_w no_c w c =
      if no_w && fp.eq c minus_one
      then (if fp.le c x then service_unscheduled_critical else service_ok)
      else if no_c && (not no_w && fp.eq w minus_one)
      then (if fp.le w x then service_warning else service_ok)
      else if (not no_w && not no_c) && (fp.eq w minus_one || fp.eq c minus_one)
      then service_ok
      else if fp.lt c w
      then (if fp.le x c
          then service_unscheduled_critical
          else if fp.le x w
          then service_warning
          else service_ok)
      else if fp.le c x
      then service_unscheduled_critical
      else if fp.le w x
      then service_warning
      else service_ok

  unfoldable pub status_of :
      Option TypedValue → Bool → Bool → Float64 → Float64 → Outcome MonitorStatus
  unfolding integer_status double_status
  status_of none no_w no_c w c = panics
  status_of (some v) no_w no_c w c = elim v.value_type [
    | integer_type ↦ (do
      i ← deref v.integer_value
      returns (integer_status (fp.of_int i) no_w no_c w c))
    | double_type ↦ (do x ← deref v.double_value; returns (double_status x no_w no_c w c))
    | _ ↦ returns service_ok
  ]

  -- CalculateStatus(value, warning, critical); an argument is none for a nil pointer.
  unfoldable pub calculate_status :
      Option TypedValue → Option TypedValue → Option TypedValue → Outcome MonitorStatus
  calculate_status value warning critical =
      if is_none warning && is_none critical then returns service_ok else do
        w ← threshold_number warning
        c ← threshold_number critical
        status_of value (is_none warning) (is_none critical) w c

  -- The loop over the metrics; the flag is the error result "unsupported threshold Sample type".
  unfoldable pub service_status_loop :
      MonitorStatus → List TimeSeries → Outcome (MonitorStatus × Bool)
  service_status_loop previous [] = returns (previous, false)
  service_status_loop previous (m ∷ ms) = elim m.thresholds [
    | none ↦ service_status_loop previous ms
    | some ts ↦ elim (pick_thresholds none none ts) [
      | none ↦ returns (service_ok, true)
      | some p ↦ (do
        status ← calculate_status m.value p.0 p.1
        service_status_loop (heavier previous status) ms)
    ]
  ]

  -- CalculateServiceStatus; the argument is none for a nil pointer.
  unfoldable pub calculate_service_status :
      Option (List TimeSeries) → Outcome (MonitorStatus × Bool)
  unfolding service_status_loop
  calculate_service_status none = returns (service_unknown, false)
  calculate_service_status (some []) = returns (service_unknown, false)
  calculate_service_status (some (m ∷ ms)) = service_status_loop service_ok (m ∷ ms)

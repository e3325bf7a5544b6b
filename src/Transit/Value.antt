-- ===== src/Transit/Value.antt =====
-- sdk/transit/transit.go and sdk/transit/timestamp.go: values, thresholds and samples.
-- A float64 is its bit pattern; its arithmetic is the machine's, and comes as `FloatOps`.
use tcg.Common.{
  ℕ, String, Bool, Option, none, some, List, ℤ, int64_of_uint, Outcome, returns, panics, Dict,
}

pub record Float64 : Type 0 where
  pub bits : ℕ

-- `float64(i)` of an int64, `a < b` and `a == b`; the code's constants are integers.
pub record FloatOps : Type 0 where
  pub of_int : ℤ → Float64
  pub lt : Float64 → Float64 → Bool
  pub le : Float64 → Float64 → Bool
  pub eq : Float64 → Float64 → Bool
  pub of_float32 : ℕ → Float64

-- The instant, in nanoseconds since the epoch; the code keeps every timestamp in UTC.
pub record Timestamp : Type 0 where
  pub unix_nano : ℤ

pub data ValueType : Type 0 where
  integer_type double_type string_type boolean_type time_type unspecified_type : ValueType
  other_type : String → ValueType

pub record TypedValue : Type 0 where
  pub value_type : ValueType
  pub bool_value : Option Bool
  pub double_value : Option Float64
  pub integer_value : Option ℤ
  pub string_value : Option String
  pub time_value : Option Timestamp

-- `any`: the dynamic types that the type switch of NewTypedValue tells apart. The widths of the
-- signed integers, and of the unsigned ones, are converted alike and share a constructor. An
-- argument of a pointer constructor is none for a nil pointer.
pub data Any : Type 0 where
  bool : Bool → Any
  ptr_bool : Option Bool → Any
  float32 : ℕ → Any
  ptr_float32 : Option ℕ → Any
  float64 : Float64 → Any
  ptr_float64 : Option Float64 → Any
  int : ℤ → Any
  ptr_int : Option ℤ → Any
  uint : ℕ → Any
  ptr_uint : Option ℕ → Any
  text : String → Any
  ptr_text : Option String → Any
  timestamp : Timestamp → Any
  ptr_timestamp : Option Timestamp → Any
  typed_value : TypedValue → Any
  ptr_typed_value : Option TypedValue → Any
  unsupported : Any

abbrev pub no_value : TypedValue
no_value = record {
  value_type = other_type "";
  bool_value = none;
  double_value = none;
  integer_value = none;
  string_value = none;
  time_value = none;
}

abbrev pub of_bool : Bool → TypedValue
of_bool v = record no_value { value_type = boolean_type; bool_value = some v }

abbrev pub of_double : Float64 → TypedValue
of_double v = record no_value { value_type = double_type; double_value = some v }

abbrev pub of_integer : ℤ → TypedValue
of_integer v = record no_value { value_type = integer_type; integer_value = some v }

abbrev pub of_text : String → TypedValue
of_text v = record no_value { value_type = string_type; string_value = some v }

abbrev pub of_time : Timestamp → TypedValue
of_time v = record no_value { value_type = time_type; time_value = some v }

abbrev on_pointer {ℓ} : {A : Type ℓ} → (A → TypedValue) → Option A → Outcome (Option TypedValue)
on_pointer f none = panics
on_pointer f (some v) = returns (some (f v))

-- NewTypedValue returns nil on an unsupported type, and reads through every pointer.
unfoldable pub new_typed_value : FloatOps → Any → Outcome (Option TypedValue)
unfolding int64_of_uint
new_typed_value fp (bool v) = returns (some (of_bool v))
new_typed_value fp (ptr_bool p) = on_pointer of_bool p
new_typed_value fp (float32 v) = returns (some (of_double (fp.of_float32 v)))
new_typed_value fp (ptr_float32 p) = on_pointer (λ v. of_double (fp.of_float32 v)) p
new_typed_value fp (float64 v) = returns (some (of_double v))
new_typed_value fp (ptr_float64 p) = on_pointer of_double p
new_typed_value fp (int v) = returns (some (of_integer v))
new_typed_value fp (ptr_int p) = on_pointer of_integer p
new_typed_value fp (uint v) = returns (some (of_integer (int64_of_uint v)))
new_typed_value fp (ptr_uint p) = on_pointer (λ v. of_integer (int64_of_uint v)) p
new_typed_value fp (text v) = returns (some (of_text v))
new_typed_value fp (ptr_text p) = on_pointer of_text p
new_typed_value fp (timestamp v) = returns (some (of_time v))
new_typed_value fp (ptr_timestamp p) = on_pointer of_time p
new_typed_value fp (typed_value v) = returns (some v)
new_typed_value fp (ptr_typed_value p) = on_pointer (λ v. v) p
new_typed_value fp unsupported = returns none

pub data SampleType : Type 0 where
  value warning critical min max : SampleType
  other_sample : String → SampleType

pub record ThresholdValue : Type 0 where
  pub sample_type : SampleType
  pub label : String
  pub value : Option TypedValue

pub record TimeInterval : Type 0 where
  pub end_time : Option Timestamp
  pub start_time : Option Timestamp

pub data ComputeType : Type 0 where
  query regex synthetic informational performance health : ComputeType
  other_compute : String → ComputeType

-- `thresholds` is none for a nil slice: CalculateServiceStatus tests it against nil.
pub record TimeSeries : Type 0 where
  pub metric_name : String
  pub sample_type : SampleType
  pub interval : Option TimeInterval
  pub value : Option TypedValue
  pub tags : Dict String
  pub unit : String
  pub thresholds : Option (List ThresholdValue)
  pub metric_compute_type : ComputeType
  pub metric_expression : String

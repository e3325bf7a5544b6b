-- ===== src/Transit/Status/Total.antt =====
-- CalculateStatus of sdk/transit/transit.go on the values that NewTypedValue makes.
use tcg.Common.{
  Bool, true, false, Option, none, some, ◌≡◌, subst, Outcome, returns, panics, arith, is_some,
  returns_of_ne,
}
use tcg.Transit.Value.{
  Float64, FloatOps, integer_type, double_type, TypedValue, Any, new_typed_value, typed_value,
  ptr_typed_value,
}
use tcg.Transit.Status.{MonitorStatus, calculate_status, threshold_number, status_of}

-- A value that says that it is a number has the number.
abbrev pub has_number : TypedValue → Bool
has_number t = elim t.value_type [
  | integer_type ↦ is_some t.integer_value
  | double_type ↦ is_some t.double_value
  | _ ↦ true
]

abbrev pub HasNumber : Option TypedValue → Type 0
HasNumber none = Unit
HasNumber (some t) = has_number t ≡ true

-- The typed values among the arguments of NewTypedValue are copied.
abbrev pub ArgHasNumber : Any → Type 0
ArgHasNumber (typed_value t) = has_number t ≡ true
ArgHasNumber (ptr_typed_value p) = HasNumber p
ArgHasNumber _ = Unit

abbrev Made : Outcome (Option TypedValue) → Type 0
Made panics = Unit
Made (returns p) = HasNumber p

new_typed_value-Made : (fp : FloatOps) (v : Any) → ArgHasNumber v → Made (new_typed_value fp v)
unfolding new_typed_value
new_typed_value-Made fp (typed_value t) h = h
new_typed_value-Made fp (ptr_typed_value none) h = tt
new_typed_value-Made fp (ptr_typed_value (some t)) h = h
new_typed_value-Made fp _ h = ground arith

threshold_number_ne :
    (fp : FloatOps) (p : Option TypedValue) → HasNumber p → threshold_number fp p ≡ panics → ⊥
unfolding threshold_number
threshold_number_ne fp none h = ground arith
threshold_number_ne fp (some t) h = ground arith

status_of_ne :
    (fp : FloatOps) (v : TypedValue) (no_w no_c : Bool) (w c : Float64)
    → HasNumber (some v)
    → status_of fp (some v) no_w no_c w c ≡ panics
    → ⊥
unfolding status_of
status_of_ne fp v no_w no_c w c h = ground arith

-- CalculateStatus returns on every value and thresholds that NewTypedValue made, given only that
-- the typed values which that copied had the number that their type announces.
pub calculate_status_total :
    (fp : FloatOps) (value warning critical : Any) (v w c : TypedValue)
    → ArgHasNumber value
    → ArgHasNumber warning
    → ArgHasNumber critical
    → new_typed_value fp value ≡ returns (some v)
    → new_typed_value fp warning ≡ returns (some w)
    → new_typed_value fp critical ≡ returns (some c)
    → (s : MonitorStatus) × (calculate_status fp (some v) (some w) (some c) ≡ returns s)
unfolding calculate_status
calculate_status_total fp value warning critical v w c av aw ac mv mw mc =
    let hv = subst Made mv (new_typed_value-Made fp value av) in
    let hw = subst Made mw (new_typed_value-Made fp warning aw) in
    let hc = subst Made mc (new_typed_value-Made fp critical ac) in
    let (x, ex) = returns_of_ne _ (threshold_number_ne fp (some w) hw) in
    let (y, ey) = returns_of_ne _ (threshold_number_ne fp (some c) hc) in
    let (s, es) = returns_of_ne _ (status_of_ne fp v false false x y hv) in (s, rw (ex, ey) es)

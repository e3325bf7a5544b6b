-- ===== src/Transit/Status/Agreement.antt =====
-- CalculateStatus of sdk/transit/transit.go: integer and double metrics, same thresholds.
use tcg.Common.{true, false, none, some, ℤ, pos, negsuc, ◌≡◌, returns, arith, if◌then◌else◌}
use tcg.Transit.Value.{Float64, FloatOps, TypedValue, of_integer, of_double}
use tcg.Transit.Status.{
  service_ok, service_warning, service_unscheduled_critical, threshold_number, integer_status,
  double_status, status_of, calculate_status,
}

module _ (fp : FloatOps) where
  -- With both thresholds set, neither of them the number -1, an integer metric and a double metric
  -- of the same value get the same status.
  pub integer_agrees_double :
      (i : ℤ) (warning critical : TypedValue) (w c : Float64)
      → threshold_number fp (some warning) ≡ returns w
      → threshold_number fp (some critical) ≡ returns c
      → fp.eq w (fp.of_int (negsuc 0)) ≡ false
      → fp.eq c (fp.of_int (negsuc 0)) ≡ false
      → calculate_status fp (some (of_integer i)) (some warning) (some critical)
        ≡ calculate_status fp (some (of_double (fp.of_int i))) (some warning) (some critical)
  integer_agrees_double i warning critical w c hw hc ew ec =
      unfold calculate_status in
      rw (hw, hc) (unfold status_of integer_status double_status in rw (ew, ec) (ground arith))

  -- An integer metric with only a warning threshold, other than -1, is always OK.
  pub integer_warning_only_ok :
      (i : ℤ) (w : Float64)
      → fp.eq w (fp.of_int (negsuc 0)) ≡ false
      → calculate_status fp (some (of_integer i)) (some (of_double w)) none ≡ returns service_ok
  unfolding calculate_status threshold_number status_of integer_status double_status
  integer_warning_only_ok i w ew = ground arith

  -- A double metric with only a warning threshold above 0 is compared in reverse: at or below 0 it
  -- is critical, up to the threshold it is a warning, and above its threshold it is OK.
  pub double_warning_only_reversed :
      (x w : Float64)
      → fp.eq w (fp.of_int (negsuc 0)) ≡ false
      → fp.lt (fp.of_int (pos 0)) w ≡ true
      → calculate_status fp (some (of_double x)) (some (of_double w)) none
        ≡ returns (
            if fp.le x (fp.of_int (pos 0))
            then service_unscheduled_critical
            else if fp.le x w
            then service_warning
            else service_ok)
  unfolding calculate_status threshold_number status_of integer_status double_status
  double_warning_only_reversed x w ew hw = ground arith

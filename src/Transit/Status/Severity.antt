-- ===== src/Transit/Status/Severity.antt =====
-- CalculateStatus on greater and greater values, and CalculateServiceStatus on several metrics.
use tcg.Common.{
  Outcome, ◌≤◌, Bool, true, false, Option, none, some, List, [], ◌∷◌, ◌≡◌, sym, ◌∙◌, subst, ◌⊎◌,
  inl, inr, returns, arith, All, Exists, here, there, Option-cases, >>=-eq-returns,
}
use tcg.Transit.Value.{Float64, FloatOps, TypedValue, ThresholdValue, TimeSeries, of_double}
use tcg.Transit.Status.{
  MonitorStatus, service_ok, weight, heavier, threshold_number, double_status, status_of,
  calculate_status, pick_thresholds, service_status_loop, calculate_service_status,
}

module _ (fp : FloatOps)
    (le_trans : (a b c : Float64) → fp.le a b ≡ true → fp.le b c ≡ true → fp.le a c ≡ true) where
  weight-double_status_mono :
      (x y : Float64) (no_w no_c : Bool) (w c : Float64)
      → fp.le x y ≡ true
      → fp.lt c w ≡ false
      → weight (double_status fp x no_w no_c w c) ≤ weight (double_status fp y no_w no_c w c)
  unfolding double_status weight
  weight-double_status_mono x y no_w no_c w c h r = ground (arith, le_trans c x y, le_trans w x y)

  -- Where the critical threshold is not below the warning threshold, a greater value of a double
  -- metric never has a lighter status.
  pub calculate_status_mono :
      (x y w c : Float64) (warning critical : Option TypedValue)
      → threshold_number fp warning ≡ returns w
      → threshold_number fp critical ≡ returns c
      → fp.le x y ≡ true
      → fp.lt c w ≡ false
      → (s t : MonitorStatus)
      → calculate_status fp (some (of_double x)) warning critical ≡ returns s
      → calculate_status fp (some (of_double y)) warning critical ≡ returns t
      → weight s ≤ weight t
  unfolding calculate_status status_of
  calculate_status_mono x y w c none none hw hc h r s t hs ht = ground arith
  calculate_status_mono x y w c (some v) none hw hc h r s t hs ht =
      ground (arith, weight-double_status_mono x y false true w c h r)
  calculate_status_mono x y w c none (some u) hw hc h r s t hs ht =
      ground (arith, weight-double_status_mono x y true false w c h r)
  calculate_status_mono x y w c (some v) (some u) hw hc h r s t hs ht =
      ground (arith, weight-double_status_mono x y false false w c h r)

heavier-cases :
    (previous t : MonitorStatus) → (heavier previous t ≡ previous) ⊎ (heavier previous t ≡ t)
heavier-cases previous t = ground arith

module _ (fp : FloatOps) where
  -- The status that one metric of a service contributes.
  pub data Reports (m : TimeSeries) (t : MonitorStatus) : Type 0 where
    reports :
        (ts : List ThresholdValue) (warning critical : Option TypedValue)
        → m.thresholds ≡ some ts
        → pick_thresholds none none ts ≡ some (warning, critical)
        → calculate_status fp m.value warning critical ≡ returns t
        → Reports m t

  -- A bound on the statuses of all the metrics.
  abbrev Covers : MonitorStatus → List TimeSeries → Type 0
  Covers s = All (λ m. (t : MonitorStatus) → Reports m t → weight t ≤ weight s)

  abbrev Worst : MonitorStatus → List TimeSeries → MonitorStatus → Type 0
  Worst previous ms s =
      (weight previous ≤ weight s) × Covers s ms × ((s ≡ previous) ⊎ Exists (λ m. Reports m s) ms)

  -- A metric without thresholds contributes nothing.
  Reports-nil : (m : TimeSeries) (t : MonitorStatus) → m.thresholds ≡ none → ¬ Reports m t
  Reports-nil m t e (reports ts w c e' p k) = cc

  Reports-unique : (m : TimeSeries) (t u : MonitorStatus) → Reports m t → Reports m u → u ≡ t
  Reports-unique m t u (reports ts w c e p k) (reports ts' w' c' e' p' k') = cc

  Worst-skip :
      (m : TimeSeries) (ms : List TimeSeries) (previous s : MonitorStatus)
      → m.thresholds ≡ none
      → Worst previous ms s
      → Worst previous (m ∷ ms) s
  Worst-skip m ms previous s e (le, cov, inl same) =
      (le, ((λ t r. absurd (Reports-nil m t e r)), cov), inl same)
  Worst-skip m ms previous s e (le, cov, inr found) =
      (le, ((λ t r. absurd (Reports-nil m t e r)), cov), inr (there found))

  Worst-take :
      (m : TimeSeries) (ms : List TimeSeries) (previous t s : MonitorStatus)
      → Reports m t
      → Worst (heavier previous t) ms s
      → Worst previous (m ∷ ms) s
  Worst-take m ms previous t s r (le, cov, inl same) = (
    ground arith,
    ((λ u r'. rw (Reports-unique m t u r r') (ground arith)), cov),
    kept_or_new same (heavier-cases previous t),
  )
    where
      kept_or_new :
          s ≡ heavier previous t
          → (heavier previous t ≡ previous) ⊎ (heavier previous t ≡ t)
          → (s ≡ previous) ⊎ Exists (λ m'. Reports m' s) (m ∷ ms)
      kept_or_new e (inl old) = inl (e ∙ old)
      kept_or_new e (inr new) = inr (here (subst (Reports m) (sym (e ∙ new)) r))
  Worst-take m ms previous t s r (le, cov, inr found) = (
    ground arith,
    ((λ u r'. rw (Reports-unique m t u r r') (ground arith)), cov),
    inr (there found),
  )

  error_ne :
      (o : Outcome (MonitorStatus × Bool)) (s : MonitorStatus)
      → o ≡ returns (service_ok, true)
      → o ≡ returns (s, false)
      → ⊥
  error_ne o s e h = cc

  module _ (m : TimeSeries) (ms : List TimeSeries) (previous s : MonitorStatus) where
    unsupported :
        (ts : List ThresholdValue)
        → m.thresholds ≡ some ts
        → pick_thresholds none none ts ≡ none
        → service_status_loop fp previous (m ∷ ms) ≡ returns (s, false)
        → ⊥
    unfolding service_status_loop
    unsupported ts e p h = error_ne _ s (rw (e, p, service_status_loop)) h

    taken :
        (ts : List ThresholdValue) (picked : Option TypedValue × Option TypedValue)
        → m.thresholds ≡ some ts
        → pick_thresholds none none ts ≡ some picked
        → service_status_loop fp previous (m ∷ ms) ≡ returns (s, false)
        → (t : MonitorStatus) × (calculate_status fp m.value picked.0 picked.1 ≡ returns t)
          × (service_status_loop fp (heavier previous t) ms ≡ returns (s, false))
    unfolding service_status_loop
    taken ts picked e p h =
        >>=-eq-returns (calculate_status fp m.value picked.0 picked.1)
          (λ t. service_status_loop fp (heavier previous t) ms)
          (rw (e, p, service_status_loop) at h)

  loop-Worst :
      (ms : List TimeSeries) (previous s : MonitorStatus)
      → service_status_loop fp previous ms ≡ returns (s, false)
      → Worst previous ms s
  unfolding service_status_loop
  loop-Worst [] previous s h = (ground arith, tt, inl (ground arith))
  loop-Worst (m ∷ ms) previous s h = elim (Option-cases m.thresholds) [
    | inl e ↦
        Worst-skip m ms previous s e (loop-Worst ms previous s (rw (e, service_status_loop) at h))
    | inr (ts, e) ↦ elim (Option-cases (pick_thresholds none none ts)) [
      | inl p ↦ absurd (unsupported m ms previous s ts e p h)
      | inr (picked, p) ↦
          let (t, k, rest) = taken m ms previous s ts picked e p h in
          Worst-take m ms previous t s (reports ts picked.0 picked.1 e p k)
            (loop-Worst ms (heavier previous t) s rest)
    ]
  ]

  covered :
      (s t : MonitorStatus) (ms : List TimeSeries)
      → Covers s ms
      → Exists (λ m. Reports m t) ms
      → weight t ≤ weight s
  covered s t [] h e = elim e [ ]
  covered s t (m ∷ ms) h (here r) = h.0 t r
  covered s t (m ∷ ms) h (there e) = covered s t ms h.1 e

  -- If CalculateServiceStatus returns a status and no error for a nonempty list of metrics, then no
  -- status that one of the metrics reports is heavier, and the status is OK or is that of one of
  -- the metrics.
  pub calculate_service_status-worst :
      (m : TimeSeries) (ms : List TimeSeries) (s t : MonitorStatus)
      → calculate_service_status fp (some (m ∷ ms)) ≡ returns (s, false)
      → Exists (λ m'. Reports m' t) (m ∷ ms)
      → (weight t ≤ weight s) × ((s ≡ service_ok) ⊎ Exists (λ m'. Reports m' s) (m ∷ ms))
  unfolding calculate_service_status
  calculate_service_status-worst m ms s t h found =
      let (_, cov, source) = loop-Worst (m ∷ ms) service_ok s h in
      (covered s t (m ∷ ms) cov found, source)

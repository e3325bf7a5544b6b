-- ===== src/Batcher/Metrics/Split.antt =====
-- The parts into which xxl2qq of batcher/metrics/metrics.go cuts an oversized payload.
use native.Mathlib.Nat.{
  add-zero, zero-add, add_assoc, add_comm, add-mul-mod_self_right, mod-eq_of_lt,
}
use tcg.Common.{
  ℕ, zero, suc, ◌+◌, ◌*◌, ◌/◌, ◌%◌, ◌≤◌, ◌<◌, ◌≡◌, refl, sym, ap, subst, inl, inr, List, [], ◌∷◌,
  ◌++◌, Bytes, returns, some, arith, length, ltb, ltb→lt, ltb→le, Bool-cases, length-append,
}
use tcg.Transit.Monitored.{MonitoredService, MonitoredResource, MetricsRequest}
use tcg.Batcher.Events.{split_limit}
use tcg.Batcher.Metrics.{
  MetricsCodec, number_requests, xxl2qq, Cut, count_services, without_services, cut_service,
  cut_services, cut_resources, cut_start, cut_flush, parts, next_part,
}

-- The services that a list of requests carries.
abbrev pub sent : List MetricsRequest → ℕ
sent [] = 0
sent (q ∷ qs) = count_services q.resources + sent qs

sent-append : (xs ys : List MetricsRequest) → sent (xs ++ ys) ≡ sent xs + sent ys
sent-append [] ys = omega arith
sent-append (x ∷ xs) ys = omega (arith, sent-append xs ys)

suc-add_comm : (n k : ℕ) → suc n + k ≡ n + suc k
suc-add_comm n k = omega arith

module _ (q : MetricsRequest) (lim : ℕ) (pos_lim : 0 < lim) where
  -- What holds after `n` services.
  record Inv (n : ℕ) (s : Cut) : Type 0 where
    below : s.c < lim
    empty : s.x.resources ≡ []
    small : length s.pr.services ≤ s.c
    counted : n ≡ length s.qq * lim + s.c
    bounded : sent s.qq ≤ length s.qq * lim

  count_next :
      (s : Cut) (svc : MonitoredService)
      → s.x.resources ≡ []
      → sent (next_part q s svc ∷ []) ≡ length (s.pr.services ++ svc ∷ [])
  unfolding count_services next_part
  count_next s svc e = rw e (omega arith)

  cut_service-Inv :
      (n : ℕ) (res : MonitoredResource) (svc : MonitoredService) (s : Cut)
      → Inv n s
      → Inv (suc n) (cut_service q lim res svc s)
  unfolding cut_service
  cut_service-Inv n res svc s v = elim (Bool-cases (ltb (s.c + 1) lim)) [
    | inl more ↦ rw more (record {
      below = ltb→lt (s.c + 1) lim more;
      empty = v.empty;
      small = omega (arith, length-append s.pr.services (svc ∷ []), v.small);
      counted = omega (arith, v.counted);
      bounded = v.bounded;
    })
    | inr full ↦
        let at_limit = ltb→le (s.c + 1) lim full in
        let last = length-append s.pr.services (svc ∷ []) in
        let grown = ap (λ (t : ℕ). t * lim) (length-append s.qq (next_part q s svc ∷ [])) in
        let sum = sent-append s.qq (next_part q s svc ∷ []) in
        let one = count_next s svc v.empty in
        rw full (record {
          below = pos_lim;
          empty = refl;
          small = omega arith;
          counted = omega (arith, v.counted, v.below, at_limit, grown);
          bounded = omega (arith, v.bounded, v.below, v.small, at_limit, grown, sum, one, last);
        })
  ]

  cut_services-Inv :
      (n : ℕ) (res : MonitoredResource) (svcs : List MonitoredService) (s : Cut)
      → Inv n s
      → Inv (n + length svcs) (cut_services q lim res svcs s)
  unfolding cut_services
  cut_services-Inv n res [] s v = subst (λ k. Inv k s) (sym (add-zero n)) v
  cut_services-Inv n res (svc ∷ svcs) s v =
      subst (λ k. Inv k (cut_services q lim res svcs (cut_service q lim res svc s)))
        (suc-add_comm n (length svcs))
        (cut_services-Inv (suc n) res svcs (cut_service q lim res svc s)
          (cut_service-Inv n res svc s v))

  new_resource-Inv :
      (n : ℕ) (res : MonitoredResource) (s : Cut)
      → Inv n s
      → Inv n (record s { pr = without_services res })
  new_resource-Inv n res s v = record {
    below = v.below;
    empty = v.empty;
    small = omega arith;
    counted = v.counted;
    bounded = v.bounded;
  }

  cut_resources-Inv :
      (n : ℕ) (rs : List MonitoredResource) (s : Cut)
      → Inv n s
      → Inv (n + count_services rs) (cut_resources q lim rs s)
  unfolding cut_resources count_services
  cut_resources-Inv n [] s v = subst (λ k. Inv k s) (sym (add-zero n)) v
  cut_resources-Inv n (res ∷ rs) s v =
      let t = record s { pr = without_services res } in
      subst (λ k. Inv k (cut_resources q lim rs (cut_services q lim res res.services t)))
        (add_assoc n (length res.services) (count_services rs))
        (cut_resources-Inv (n + length res.services) rs (cut_services q lim res res.services t)
          (cut_services-Inv n res res.services t (new_resource-Inv n res s v)))

  start-Inv : Inv 0 (cut_start q)
  start-Inv = record {
    below = pos_lim;
    empty = refl;
    small = omega arith;
    counted = omega arith;
    bounded = omega arith;
  }

  -- The last test of the code never passes: `x` is empty whenever the loops end.
  cut_flush-Inv : (n : ℕ) (s : Cut) → Inv n s → cut_flush q s ≡ s.qq
  cut_flush-Inv n s v = rw (v.empty) refl

  remainder : (n : ℕ) (s : Cut) → Inv n s → n % lim ≡ s.c
  remainder n s v =
      rw (v.counted, add_comm (length s.qq * lim) s.c, add-mul-mod_self_right s.c (length s.qq) lim)
        (mod-eq_of_lt v.below)

  sent-Inv : (n : ℕ) (s : Cut) → Inv n s → sent (cut_flush q s) + n % lim ≤ n
  sent-Inv n s v = rw (cut_flush-Inv n s v, remainder n s v) (omega (arith, v.counted, v.bounded))

-- Of an oversized payload with `n` services at least `n % lim` services are in none of its parts,
-- where `lim` is the number of services after which a part is closed.
pub sent-parts :
    (q : MetricsRequest) (lim : ℕ)
    → 0 < lim
    → sent (parts q lim) + count_services q.resources % lim ≤ count_services q.resources
unfolding parts
sent-parts q lim h =
    let start = start-Inv q lim h in
    let v = cut_resources-Inv q lim h 0 q.resources (cut_start q) start in
    subst (λ n. sent (cut_flush q (cut_resources q lim q.resources (cut_start q))) + n % lim ≤ n)
      (zero-add (count_services q.resources))
      (sent-Inv q lim h (0 + count_services q.resources)
        (cut_resources q lim q.resources (cut_start q)) v)

sent-number_requests : (i : ℕ) (qs : List MetricsRequest) → sent (number_requests i qs) ≡ sent qs
unfolding number_requests
sent-number_requests i [] = refl
sent-number_requests i (q ∷ qs) = omega (arith, sent-number_requests (suc i) qs)

-- An oversized payload that can be read, with `n` services, is cut into requests, and with `lim` the
-- limit that xxl2qq computes at least `n % lim` of its services are in none of them.
pub xxl2qq_loses :
    (codec : MetricsCodec) (p : Bytes) (q : MetricsRequest) (max_bytes : ℕ)
    → 0 < max_bytes
    → codec.unmarshal p ≡ some q
    → (qq : List MetricsRequest) × (xxl2qq codec [] p max_bytes ≡ returns qq)
      × (let n = count_services q.resources in
          sent qq + n % (n / suc (length p / max_bytes) + 1) ≤ n)
xxl2qq_loses codec p q zero h e = absurd (omega arith)
xxl2qq_loses codec p q (suc m) h e =
    let n = count_services q.resources in
    let lim = n / suc (length p / suc m) + 1 in
    (
      number_requests 0 (parts q lim),
      (unfold xxl2qq split_limit in rw (e, xxl2qq)),
      rw (sent-number_requests 0 (parts q lim)) (sent-parts q lim (omega arith)),
    )

-- ===== src/Batcher/Metrics/Collect/Order.antt =====
-- The payloads given to Build of batcher/metrics/metrics.go, and the requests that it makes.
use mathlib.Core.List.{append-nil, append_assoc}
use tcg.Common.{
  ℕ, ◌+◌, ◌≤◌, ◌≡◌, refl, sym, ap, ◌∙◌, ◌⊎◌, inl, inr, true, false, none, some, List, [], ◌∷◌, ◌++◌,
  returns, arith, Bytes, length, ltb, leb, All, le→ltb, lt→ltb, Bool-cases, Option-cases,
}
use tcg.Transit.Monitored.{MonitoredResource, MetricsRequest}
use tcg.Batcher.Metrics.{MetricsCodec, has_status, has_status_in}
use tcg.Batcher.Metrics.Collect.{
  Accum, start, combine, take_status, take_unchanged, take_payload, flush, collect_step, collect,
  requests,
}

-- The resources of a list of requests, in order.
abbrev pub all_resources : List MetricsRequest → List MonitoredResource
all_resources [] = []
all_resources (q ∷ qs) = q.resources ++ all_resources qs

all_resources-append :
    (xs ys : List MetricsRequest) → all_resources (xs ++ ys) ≡ all_resources xs ++ all_resources ys
all_resources-append [] ys = refl
all_resources-append (x ∷ xs) ys =
    ap (λ zs. x.resources ++ zs) (all_resources-append xs ys) ∙ sym (append_assoc x.resources _ _)

abbrev gathered : Accum → List MonitoredResource
gathered s = all_resources s.qq ++ s.bq.resources

ruleset gather = (all_resources-append, append-nil, append_assoc)

nonempty-cases :
    (rs : List MonitoredResource)
    → ((rs ≡ []) × (ltb 0 (length rs) ≡ false)) ⊎ (ltb 0 (length rs) ≡ true)
nonempty-cases [] = inl (refl, refl)
nonempty-cases (r ∷ rs) = inr (lt→ltb 0 (length (r ∷ rs)) (omega arith))

gathered-take_status :
    (q : MetricsRequest) (s : Accum) → gathered (take_status q s) ≡ gathered s ++ q.resources
unfolding take_status
gathered-take_status q s = elim (nonempty-cases s.bq.resources) [
  | inl (e, f) ↦ rw f (rw e (simp gather))
  | inr t ↦ rw t (simp gather)
]

gathered-take_unchanged :
    (max_bytes : ℕ) (p : Bytes) (q : MetricsRequest) (s : Accum)
    → gathered (take_unchanged max_bytes p q s) ≡ gathered s ++ q.resources
unfolding take_unchanged
gathered-take_unchanged max_bytes p q s = elim (Bool-cases (leb max_bytes (s.c + length p))) [
  | inl full ↦ rw full (simp gather)
  | inr room ↦ rw room (simp gather)
]

all_resources-flush : (s : Accum) → all_resources (flush s) ≡ gathered s
all_resources-flush s = elim (nonempty-cases s.bq.resources) [
  | inl (e, f) ↦ rw f (rw e (simp gather))
  | inr t ↦ rw t (simp gather)
]

gathered-take_payload :
    (max_bytes : ℕ) (p : Bytes) (q : MetricsRequest) (s : Accum)
    → gathered (take_payload max_bytes p q s) ≡ gathered s ++ q.resources
gathered-take_payload max_bytes p q s = elim (Bool-cases (has_status q)) [
  | inl e ↦ rw e (gathered-take_status q s)
  | inr e ↦ rw e (gathered-take_unchanged max_bytes p q s)
]

has_status_in-append :
    (xs ys : List MonitoredResource)
    → has_status_in xs ≡ false
    → has_status_in ys ≡ false
    → has_status_in (xs ++ ys) ≡ false
unfolding has_status_in
has_status_in-append [] ys h k = k
has_status_in-append (x ∷ xs) ys h k = ground (arith, has_status_in-append xs ys)

module _ (codec : MetricsCodec) where
  -- A request without a status, or a payload as it came.
  abbrev pub Unmixed : MetricsRequest → Type 0
  Unmixed q = (has_status q ≡ false) ⊎ ((p : Bytes) × (codec.unmarshal p ≡ some q))

  record Inv (s : Accum) : Type 0 where
    batch : has_status s.bq ≡ false
    out : All Unmixed s.qq

  All-snoc :
      (qs : List MetricsRequest) (q : MetricsRequest)
      → All Unmixed qs
      → Unmixed q
      → All Unmixed (qs ++ q ∷ [])
  All-snoc [] q h k = (k, tt)
  All-snoc (x ∷ xs) q h k = (h.0, All-snoc xs q h.1 k)

  start-Inv : Inv start
  unfolding has_status has_status_in
  start-Inv = record { batch = refl; out = tt }

  combine-unchanged :
      (bq q : MetricsRequest)
      → has_status bq ≡ false
      → has_status q ≡ false
      → has_status (combine bq q) ≡ false
  unfolding has_status
  combine-unchanged bq q h k = has_status_in-append bq.resources q.resources h k

  take_payload-Inv :
      (max_bytes : ℕ) (p : Bytes) (q : MetricsRequest) (s : Accum)
      → codec.unmarshal p ≡ some q
      → Inv s
      → Inv (take_payload max_bytes p q s)
  unfolding take_status take_unchanged
  take_payload-Inv max_bytes p q s e v = elim (Bool-cases (has_status q)) [
    | inl changed ↦ rw changed (elim (Bool-cases (ltb 0 (length s.bq.resources))) [
      | inl some_batch ↦ rw some_batch (record {
        batch = start-Inv.batch;
        out = All-snoc _ q (All-snoc s.qq s.bq v.out (inl v.batch)) (inr (p, e));
      })
      | inr no_batch ↦
          rw no_batch (record { batch = v.batch; out = All-snoc s.qq q v.out (inr (p, e)) })
    ])
    | inr unchanged ↦ rw unchanged (elim (Bool-cases (leb max_bytes (s.c + length p))) [
      | inl full ↦ rw full (record {
        batch = start-Inv.batch;
        out = All-snoc s.qq _ v.out (inl (combine-unchanged s.bq q v.batch unchanged));
      })
      | inr room ↦
          rw room (record { batch = combine-unchanged s.bq q v.batch unchanged; out = v.out })
    ])
  ]

  flush-Unmixed : (s : Accum) → Inv s → All Unmixed (flush s)
  flush-Unmixed s v = elim (Bool-cases (ltb 0 (length s.bq.resources))) [
    | inl t ↦ rw t (All-snoc s.qq s.bq v.out (inl v.batch))
    | inr f ↦ rw f v.out
  ]

  abbrev payload_resources : Bytes → List MonitoredResource
  payload_resources p = elim (codec.unmarshal p) [ none ↦ [] | some q ↦ q.resources ]

  abbrev pub buffered_resources : List Bytes → List MonitoredResource
  buffered_resources [] = []
  buffered_resources (p ∷ ps) = payload_resources p ++ buffered_resources ps

  collect_step_small :
      (max_bytes : ℕ) (p : Bytes) (s : Accum)
      → length p ≤ max_bytes
      → Inv s
      → (t : Accum) × (collect_step codec max_bytes p s ≡ returns t)
        × (gathered t ≡ gathered s ++ payload_resources p)
        × Inv t
  unfolding collect_step
  collect_step_small max_bytes p s h v = elim (Option-cases (codec.unmarshal p)) [
    | inl e ↦ (
      s,
      rw (le→ltb max_bytes (length p) h) (rw e),
      rw (e, payload_resources) (sym (append-nil (gathered s))),
      v,
    )
    | inr (q, e) ↦ (
      take_payload max_bytes p q s,
      rw (le→ltb max_bytes (length p) h) (rw e),
      rw (e, payload_resources) (gathered-take_payload max_bytes p q s),
      take_payload-Inv max_bytes p q s e v,
    )
  ]

  collect_small :
      (max_bytes : ℕ) (ps : List Bytes) (s : Accum)
      → All (λ p. length p ≤ max_bytes) ps
      → Inv s
      → (t : Accum) × (collect codec max_bytes ps s ≡ returns t)
        × (gathered t ≡ gathered s ++ buffered_resources ps)
        × Inv t
  unfolding collect
  collect_small max_bytes [] s h v = (s, refl, sym (append-nil (gathered s)), v)
  collect_small max_bytes (p ∷ ps) s h v =
      let (t, e, k, w) = collect_step_small max_bytes p s h.0 v in
      let (u, e', k', w') = collect_small max_bytes ps t h.1 w in
      (
        u,
        rw e e',
        k'
            ∙ ap (λ xs. xs ++ buffered_resources ps) k
            ∙ append_assoc (gathered s) (payload_resources p) (buffered_resources ps),
        w',
      )

  -- Where no payload is oversized, Build makes requests that hold the resources of the readable
  -- payloads in their order, and each request is without a status or is one of the payloads.
  pub requests-Unmixed :
      (max_bytes : ℕ) (buf : List Bytes)
      → All (λ p. length p ≤ max_bytes) buf
      → (qq : List MetricsRequest) × (requests codec max_bytes buf ≡ returns qq)
        × (all_resources qq ≡ buffered_resources buf)
        × All Unmixed qq
  unfolding requests
  requests-Unmixed max_bytes buf small =
      let (t, e, k, v) = collect_small max_bytes buf start small start-Inv in
      (flush t, rw e, all_resources-flush t ∙ k, flush-Unmixed t v)

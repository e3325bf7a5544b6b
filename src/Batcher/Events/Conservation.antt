-- ===== src/Batcher/Events/Conservation.antt =====
-- The events of the payloads given to Build, and those of the requests that it makes.
use mathlib.Core.List.{Perm, append-nil, append_assoc, perm_append_comm}
use mathlib.Core.List.Perm
use tcg.Common.{
  ℕ, zero, suc, ◌+◌, ◌/◌, ◌≤◌, ◌<◌, ◌≡◌, refl, sym, ap, subst, ◌∙◌, inl, inr, none, some, List, [],
  ◌∷◌, ◌++◌, returns, arith, Bytes, length, ltb, leb, All, ltb→lt, ltb→le, lt→ltb, le→ltb,
  Bool-cases, Option-cases,
}
use tcg.Transit.Events.{GroundworkEvent, EventsRequest}
use tcg.Batcher.Events.{
  EventsCodec, Accum, split, split_limit, xxl2qq, take_payload, collect_step, collect, flush,
  requests,
}
use tcg.Batcher.Events.Split.{all_events, all_events-append, all_events-split}

-- The events gathered so far.
abbrev gathered : Accum → List GroundworkEvent
gathered s = all_events s.qq ++ s.bq

gathered-take_payload :
    (max_bytes : ℕ) (p : Bytes) (q : EventsRequest) (s : Accum)
    → gathered (take_payload max_bytes p q s) ≡ gathered s ++ q.events
gathered-take_payload max_bytes p q s = elim (Bool-cases (leb max_bytes (s.c + length p))) [
  | inl full ↦ rw full (simp (all_events-append, append-nil, append_assoc))
  | inr room ↦ rw room (simp append_assoc)
]

all_events-flush : (s : Accum) → all_events (flush s) ≡ gathered s
all_events-flush s = go s.qq s.bq s.c
  where
    go :
        (qq : List EventsRequest) (bq : List GroundworkEvent) (c : ℕ)
        → all_events (flush (record { c = c; bq = bq; qq = qq })) ≡ all_events qq ++ bq
    go qq [] c = sym (append-nil (all_events qq))
    go qq (e ∷ es) c =
        rw (lt→ltb 0 (length (e ∷ es)) (omega arith)) (simp (all_events-append, append-nil))

module _ (codec : EventsCodec) where
  -- The events of a payload; a payload that is no request has none.
  abbrev pub payload_events : Bytes → List GroundworkEvent
  payload_events p = elim (codec.unmarshal p) [ none ↦ [] | some q ↦ q.events ]

  abbrev pub buffered_events : List Bytes → List GroundworkEvent
  buffered_events [] = []
  buffered_events (p ∷ ps) = payload_events p ++ buffered_events ps

  -- A payload that cannot be read is passed over, whatever its size.
  collect_step_unread :
      (m : ℕ) (p : Bytes) (s : Accum)
      → codec.unmarshal p ≡ none
      → collect_step codec (suc m) p s ≡ returns s
  unfolding collect_step xxl2qq
  collect_step_unread m p s e = ground arith

  collect_step_small :
      (m : ℕ) (p : Bytes) (s : Accum) (q : EventsRequest)
      → length p ≤ suc m
      → codec.unmarshal p ≡ some q
      → collect_step codec (suc m) p s ≡ returns (take_payload (suc m) p q s)
  unfolding collect_step
  collect_step_small m p s q h e = rw (le→ltb (suc m) (length p) h) (rw e)

  -- The number of events in the parts of an oversized payload.
  abbrev limit_of : ℕ → Bytes → EventsRequest → ℕ
  limit_of m p q = length q.events / suc (length p / suc m) + 1

  collect_step_big :
      (m : ℕ) (p : Bytes) (s : Accum) (q : EventsRequest)
      → suc m < length p
      → codec.unmarshal p ≡ some q
      → collect_step codec (suc m) p s
        ≡ returns (record s { qq = s.qq ++ split (limit_of m p q) q.events })
  unfolding collect_step xxl2qq split_limit
  collect_step_big m p s q h e = rw (lt→ltb (suc m) (length p) h) (rw (e, xxl2qq))

  gathered_big :
      (m : ℕ) (p : Bytes) (s : Accum) (q : EventsRequest)
      → Perm
          (gathered (record s { qq = s.qq ++ split (limit_of m p q) q.events }))
          (gathered s ++ q.events)
  gathered_big m p s q =
      rw
        (
          all_events-append s.qq (split (limit_of m p q) q.events),
          all_events-split (limit_of m p q) q.events (omega arith),
          append_assoc (all_events s.qq) q.events s.bq,
          append_assoc (all_events s.qq) s.bq q.events,
        )
        (Perm.append_left (all_events s.qq) (perm_append_comm q.events s.bq))

  collect_step-perm :
      (m : ℕ) (p : Bytes) (s : Accum)
      → (t : Accum) × (collect_step codec (suc m) p s ≡ returns t)
        × Perm (gathered t) (gathered s ++ payload_events p)
  collect_step-perm m p s = elim (Option-cases (codec.unmarshal p)) [
    | inl e ↦ (
      s,
      collect_step_unread m p s e,
      rw (e, payload_events, append-nil) (Perm.refl (gathered s)),
    )
    | inr (q, e) ↦ elim (Bool-cases (ltb (suc m) (length p))) [
      | inl big ↦ (
        _,
        collect_step_big m p s q (ltb→lt (suc m) (length p) big) e,
        rw (e, payload_events) (gathered_big m p s q),
      )
      | inr small ↦ (
        _,
        collect_step_small m p s q (ltb→le (suc m) (length p) small) e,
        rw (e, payload_events, gathered-take_payload (suc m) p q s)
            (Perm.refl (gathered s ++ q.events)),
      )
    ]
  ]

  collect-perm :
      (m : ℕ) (ps : List Bytes) (s : Accum)
      → (t : Accum) × (collect codec (suc m) ps s ≡ returns t)
        × Perm (gathered t) (gathered s ++ buffered_events ps)
  unfolding collect
  collect-perm m [] s = (s, refl, rw append-nil (Perm.refl (gathered s)))
  collect-perm m (p ∷ ps) s =
      let (t, e, h) = collect_step-perm m p s in
      let (u, e', h') = collect-perm m ps t in
      (
        u,
        rw e e',
        Perm.trans h' (
            subst (Perm (gathered t ++ buffered_events ps))
              (append_assoc (gathered s) (payload_events p) (buffered_events ps))
              (Perm.append_right (buffered_events ps) h)),
      )

  -- With a size limit above 0, Build makes requests of every buffer, and the events of the requests
  -- are those of the payloads that can be read, each as often, though not always in their order.
  pub requests-perm :
      (max_bytes : ℕ) (buf : List Bytes)
      → 0 < max_bytes
      → (qq : List EventsRequest) × (requests codec max_bytes buf ≡ returns qq)
        × Perm (all_events qq) (buffered_events buf)
  unfolding requests
  requests-perm zero buf h = absurd (omega arith)
  requests-perm (suc m) buf h =
      let (t, e, k) = collect-perm m buf (record { c = 0; bq = []; qq = [] }) in
      (flush t, rw e, rw (all_events-flush t) k)

  collect_step_in_order :
      (m : ℕ) (p : Bytes) (s : Accum)
      → length p ≤ suc m
      → (t : Accum) × (collect_step codec (suc m) p s ≡ returns t)
        × (gathered t ≡ gathered s ++ payload_events p)
  collect_step_in_order m p s h = elim (Option-cases (codec.unmarshal p)) [
    | inl e ↦
        (s, collect_step_unread m p s e, rw (e, payload_events) (sym (append-nil (gathered s))))
    | inr (q, e) ↦ (
      _,
      collect_step_small m p s q h e,
      rw (e, payload_events) (gathered-take_payload (suc m) p q s),
    )
  ]

  collect_small :
      (m : ℕ) (ps : List Bytes) (s : Accum)
      → All (λ p. length p ≤ suc m) ps
      → (t : Accum) × (collect codec (suc m) ps s ≡ returns t)
        × (gathered t ≡ gathered s ++ buffered_events ps)
  unfolding collect
  collect_small m [] s h = (s, refl, sym (append-nil (gathered s)))
  collect_small m (p ∷ ps) s h =
      let (t, e, k) = collect_step_in_order m p s h.0 in
      let (u, e', k') = collect_small m ps t h.1 in
      (
        u,
        rw e e',
        k'
            ∙ ap (λ xs. xs ++ buffered_events ps) k
            ∙ append_assoc (gathered s) (payload_events p) (buffered_events ps),
      )

  -- If no payload is oversized, the requests that Build makes hold the events in their order.
  pub requests_in_order :
      (max_bytes : ℕ) (buf : List Bytes)
      → 0 < max_bytes
      → All (λ p. length p ≤ max_bytes) buf
      → (qq : List EventsRequest) × (requests codec max_bytes buf ≡ returns qq)
        × (all_events qq ≡ buffered_events buf)
  unfolding requests
  requests_in_order zero buf h small = absurd (omega arith)
  requests_in_order (suc m) buf h small =
      let (t, e, k) = collect_small m buf (record { c = 0; bq = []; qq = [] }) small in
      (flush t, rw e, all_events-flush t ∙ k)

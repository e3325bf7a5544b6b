-- ===== src/Batcher/Metrics/Collect.antt =====
-- Build of batcher/metrics/metrics.go.
pub mod Order
use tcg.Common.{
  ℕ, ◌+◌, Bool, true, false, Option, none, some, List, [], ◌∷◌, ◌++◌, Outcome, returns, ◌>>=◌,
  Bytes, length, ltb, leb, if◌then◌else◌, map,
}
use tcg.Transit.Monitored.{MetricsRequest, no_metrics}
use tcg.Batcher.Metrics.{MetricsCodec, has_status, xxl2qq, put_context}
use tcg.Batcher.Metrics.Groups.{MapOrder, pack_groups}

-- The variables of Build.
pub record Accum : Type 0 where
  pub c : ℕ
  pub bq : MetricsRequest
  pub qq : List MetricsRequest

abbrev pub start : Accum
start = record { c = 0; bq = no_metrics; qq = [] }

-- A payload with a status ends the batch, and goes on alone.
unfoldable pub take_status : MetricsRequest → Accum → Accum
take_status q s =
    if ltb 0 (length s.bq.resources)
    then record { c = 0; bq = no_metrics; qq = (s.qq ++ s.bq ∷ []) ++ q ∷ [] }
    else record s { qq = s.qq ++ q ∷ [] }

abbrev pub combine : MetricsRequest → MetricsRequest → MetricsRequest
combine bq q =
    let t = put_context bq q.context in
    record t { groups = bq.groups ++ q.groups; resources = bq.resources ++ q.resources }

unfoldable pub take_unchanged : ℕ → Bytes → MetricsRequest → Accum → Accum
take_unchanged max_bytes p q s =
    if leb max_bytes (s.c + length p)
    then record { c = 0; bq = no_metrics; qq = s.qq ++ combine s.bq q ∷ [] }
    else record { c = s.c + length p; bq = combine s.bq q; qq = s.qq }

abbrev pub take_payload : ℕ → Bytes → MetricsRequest → Accum → Accum
take_payload max_bytes p q s =
    if has_status q then take_status q s else take_unchanged max_bytes p q s

abbrev pub flush : Accum → List MetricsRequest
flush s = if ltb 0 (length s.bq.resources) then s.qq ++ s.bq ∷ [] else s.qq

module _ (codec : MetricsCodec) where
  -- One round of the loop over the buffer.
  unfoldable pub collect_step : ℕ → Bytes → Accum → Outcome Accum
  unfolding xxl2qq take_status take_unchanged
  collect_step max_bytes p s =
      if ltb max_bytes (length p)
      then (xxl2qq codec s.qq p max_bytes >>= λ qq. returns (record s { qq = qq }))
      else elim (codec.unmarshal p) [
        | none ↦ returns s
        | some q ↦ returns (take_payload max_bytes p q s)
      ]

  unfoldable pub collect : ℕ → List Bytes → Accum → Outcome Accum
  unfolding collect_step
  collect max_bytes [] s = returns s
  collect max_bytes (p ∷ ps) s = collect_step max_bytes p s >>= λ t. collect max_bytes ps t

  -- The requests that Build makes of the buffer, before their groups are packed.
  unfoldable pub requests : ℕ → List Bytes → Outcome (List MetricsRequest)
  unfolding collect
  requests max_bytes buf = collect max_bytes buf start >>= λ s. returns (flush s)

  unfoldable pub marshal_all : MapOrder → List MetricsRequest → List Bytes
  unfolding pack_groups
  marshal_all o [] = []
  marshal_all o (q ∷ qs) = elim (codec.marshal (record q { groups = pack_groups o q.groups })) [
    | none ↦ marshal_all o qs
    | some p ↦ p ∷ marshal_all o qs
  ]

  -- MetricsBatchBuilder.Build: the new buffer.
  unfoldable pub build : MapOrder → ℕ → List Bytes → Outcome (List Bytes)
  unfolding requests marshal_all
  build o max_bytes buf = requests max_bytes buf >>= λ qq. returns (marshal_all o qq)

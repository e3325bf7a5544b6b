-- ===== src/Batcher/Events.antt =====
-- batcher/events/events.go. The JSON codec is encoding/json's, a parameter. A request is nil-safe:
-- an absent list is the empty one. The size limit is a number; 0 makes the division panic.
pub mod Split
pub mod Conservation
mod Tests
use tcg.Common.{
  ℕ, zero, suc, ◌+◌, ◌/◌, ◌<◌, Bool, true, false, Option, none, some, List, [], ◌∷◌, ◌++◌, Outcome,
  returns, panics, ◌>>=◌, Bytes, length, slice, ltb, leb, if◌then◌else◌,
}
use tcg.Transit.Events.{GroundworkEvent, EventsRequest}

-- json.Unmarshal and json.Marshal at GroundworkEventsRequest; none is an error.
pub record EventsCodec : Type 0 where
  pub unmarshal : Bytes → Option EventsRequest
  pub marshal : EventsRequest → Option Bytes

abbrev pub request : List GroundworkEvent → EventsRequest
request es = record { events = es }

-- `a / b` of Go's integers.
unfoldable pub quotient : ℕ → ℕ → Outcome ℕ
quotient a zero = panics
quotient a (suc b) = returns (a / suc b)

-- The loop of xxl2qq over `i1` and `i2`, on fuel: the parts in the order in which they are appended.
unfoldable pub split_loop : ℕ → ℕ → ℕ → ℕ → List GroundworkEvent → List EventsRequest
split_loop zero lim i1 i2 events = []
split_loop (suc fuel) lim i1 i2 events =
    let end = if ltb (length events) i2 then length events else i2 in
    let rest = split_loop fuel lim (i1 + lim) (end + lim) events in
    if ltb i1 (length events) then request (slice i1 end events) ∷ rest else []

-- One round for each event is enough, since `lim` is at least 1.
unfoldable pub split : ℕ → List GroundworkEvent → List EventsRequest
unfolding split_loop
split lim events = split_loop (suc (length events)) lim 0 lim events

unfoldable pub split_limit : ℕ → ℕ → ℕ → Outcome ℕ
unfolding quotient
split_limit cnt len max_bytes = do
  parts ← quotient len max_bytes
  lim ← quotient cnt (suc parts)
  returns (lim + 1)

-- The variables of Build: `c`, the events of `bq`, and `qq`.
pub record Accum : Type 0 where
  pub c : ℕ
  pub bq : List GroundworkEvent
  pub qq : List EventsRequest

abbrev pub take_payload : ℕ → Bytes → EventsRequest → Accum → Accum
take_payload max_bytes p q s =
    let bq = s.bq ++ q.events in
    if leb max_bytes (s.c + length p)
    then record { c = 0; bq = []; qq = s.qq ++ request bq ∷ [] }
    else record { c = s.c + length p; bq = bq; qq = s.qq }

abbrev pub flush : Accum → List EventsRequest
flush s = if ltb 0 (length s.bq) then s.qq ++ request s.bq ∷ [] else s.qq

module _ (codec : EventsCodec) where
  -- xxl2qq, which appends to `qq`.
  unfoldable pub xxl2qq : List EventsRequest → Bytes → ℕ → Outcome (List EventsRequest)
  unfolding split_limit split
  xxl2qq qq p max_bytes = elim (codec.unmarshal p) [
    | none ↦ returns qq
    | some q ↦ (do
      lim ← split_limit (length q.events) (length p) max_bytes
      returns (qq ++ split lim q.events))
  ]

  -- One round of the loop over the buffer.
  unfoldable pub collect_step : ℕ → Bytes → Accum → Outcome Accum
  unfolding xxl2qq
  collect_step max_bytes p s =
      if ltb max_bytes (length p)
      then (xxl2qq s.qq p max_bytes >>= λ qq. returns (record s { qq = qq }))
      else elim (codec.unmarshal p) [
        | none ↦ returns s
        | some q ↦ returns (take_payload max_bytes p q s)
      ]

  unfoldable pub collect : ℕ → List Bytes → Accum → Outcome Accum
  unfolding collect_step
  collect max_bytes [] s = returns s
  collect max_bytes (p ∷ ps) s = collect_step max_bytes p s >>= λ t. collect max_bytes ps t

  -- The requests that Build makes of the buffer.
  unfoldable pub requests : ℕ → List Bytes → Outcome (List EventsRequest)
  unfolding collect
  requests max_bytes buf =
      collect max_bytes buf (record { c = 0; bq = []; qq = [] }) >>= λ s. returns (flush s)

  -- A request that cannot be marshalled is logged and left out.
  unfoldable pub marshal_all : List EventsRequest → List Bytes
  marshal_all [] = []
  marshal_all (q ∷ qs) = elim (codec.marshal q) [
    | none ↦ marshal_all qs
    | some p ↦ p ∷ marshal_all qs
  ]

  -- EventsBatchBuilder.Build: the new buffer.
  unfoldable pub build : ℕ → List Bytes → Outcome (List Bytes)
  unfolding requests marshal_all
  build max_bytes buf = requests max_bytes buf >>= λ qq. returns (marshal_all qq)

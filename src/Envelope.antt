-- ===== src/Envelope.antt =====
-- services/services.go: the types of payloads, and the first format of a message's envelope. A Go
-- array of bytes is a list of its length; a byte is a number.
pub mod Roundtrip
mod Tests
use tcg.Common.{
  ℕ, zero, suc, ◌+◌, ◌-◌, Bool, true, false, Option, none, some, List, [], ◌∷◌, ◌++◌, String,
  Outcome, returns, panics, ◌>>=◌, Bytes, length, take, drop, str_eq, if◌then◌else◌, ltb, ◌==◌,
  ◌&&◌,
}

-- The names of the payload types, at the place of their number.
abbrev pub type_names : List String
type_names =
    "undefined" ∷ "events" ∷ "eventsAck" ∷ "eventsUnack" ∷ "inventory" ∷ "metrics"
    ∷ "clearInDowntime" ∷ "setInDowntime" ∷ []

-- `a[i]` of a slice.
unfoldable pub index : ℕ → List String → Outcome String
index i [] = panics
index zero (x ∷ xs) = returns x
index (suc i) (x ∷ xs) = index i xs

-- payloadType.String
unfoldable pub type_name : ℕ → Outcome String
unfolding index
type_name t = index t type_names

unfoldable pub place_of : String → ℕ → List String → Option ℕ
place_of s i [] = none
place_of s i (v ∷ vs) = if str_eq s v then some i else place_of s (i + 1) vs

-- payloadType.FromStr
unfoldable pub type_from_str : String → Option ℕ
unfolding place_of
type_from_str s = place_of s 0 type_names

pub record SpanContext : Type 0 where
  pub span_id : Bytes
  pub trace_id : Bytes
  pub trace_flags : ℕ
  pub trace_state : List (String × String)
  pub remote : Bool

-- The first format has no place for the state and the remote flag, which are read as none.
abbrev pub read_span_context : Bytes → Bytes → ℕ → SpanContext
read_span_context span trace flags = record {
  span_id = span;
  trace_id = trace;
  trace_flags = flags;
  trace_state = [];
  remote = false;
}

pub record NatsPayload : Type 0 where
  pub span_context : SpanContext
  pub payload : Bytes
  pub payload_type : ℕ

unfoldable pub marshal_v1 : NatsPayload → Bytes
marshal_v1 p =
    let c = p.span_context in
    p.payload_type ∷ (c.span_id ++ (c.trace_id ++ (c.trace_flags ∷ p.payload)))

-- `buf.Next(1)[0]`: the byte and the rest.
abbrev pub next_byte : Bytes → Outcome (ℕ × Bytes)
next_byte [] = panics
next_byte (b ∷ bs) = returns (b, bs)

unfoldable pub zeros : ℕ → Bytes
zeros zero = []
zeros (suc n) = 0 ∷ zeros n

-- `buf.Read` into a zeroed array of n bytes, n above 0: io.EOF on an empty buffer, and fewer bytes
-- than n are no error.
unfoldable pub read_array : ℕ → Bytes → Option (Bytes × Bytes)
unfolding zeros
read_array n [] = none
read_array n (b ∷ bs) =
    let got = take n (b ∷ bs) in some (got ++ zeros (n - length got), drop n (b ∷ bs))

-- The parts of unmarshalV1 from the flags, the trace id and the span id on; none for an error.
unfoldable pub read_flags : ℕ → Bytes → Bytes → Bytes → Outcome (Option NatsPayload)
read_flags t span trace bs = next_byte bs >>= λ f. returns (
    some
      (record { span_context = read_span_context span trace f.0; payload = f.1; payload_type = t }))

unfoldable pub read_trace : ℕ → Bytes → Bytes → Outcome (Option NatsPayload)
unfolding read_array read_flags
read_trace t span bs = elim (read_array 16 bs) [
  | none ↦ returns none
  | some r ↦ read_flags t span r.0 r.1
]

unfoldable pub read_span : ℕ → Bytes → Outcome (Option NatsPayload)
unfolding read_array read_trace
read_span t bs = elim (read_array 8 bs) [ none ↦ returns none | some r ↦ read_trace t r.0 r.1 ]

unfoldable pub unmarshal_v1 : Bytes → Outcome (Option NatsPayload)
unfolding read_span
unmarshal_v1 input = next_byte input >>= λ t. read_span t.0 t.1

-- `bytes.HasPrefix(input, []byte("{\"v2\":"))`, where the first byte is no less than 8.
abbrev pub v2_prefix : Bytes
v2_prefix = 123 ∷ 34 ∷ 118 ∷ 50 ∷ 34 ∷ 58 ∷ []

unfoldable pub starts_with : Bytes → Bytes → Bool
starts_with bs [] = true
starts_with [] (p ∷ ps) = false
starts_with (b ∷ bs) (p ∷ ps) = (b == p) && starts_with bs ps

abbrev pub empty_payload : NatsPayload
unfolding zeros
empty_payload = record {
  span_context = read_span_context (zeros 8) (zeros 16) 0;
  payload = [];
  payload_type = 0;
}

-- Unmarshal of an empty natsPayload; the second format is JSON, whose reader is an argument.
unfoldable pub unmarshal : (Bytes → Option NatsPayload) → Bytes → Outcome (Option NatsPayload)
unfolding unmarshal_v1 starts_with
unmarshal read_v2 [] = returns (some empty_payload)
unmarshal read_v2 (b ∷ bs) =
    if ltb b 8
    then unmarshal_v1 (b ∷ bs)
    else if starts_with (b ∷ bs) v2_prefix
    then returns (read_v2 (b ∷ bs))
    else returns none

-- ===== src/Envelope/Roundtrip.antt =====
-- services/services.go: what is written is read again, and what cannot be read.
use mathlib.Core.List.{append-nil}
use mathlib.Core.Path.{Path}
use tcg.Common.{
  ℕ, false, zero, suc, ◌-◌, ◌≤◌, ◌<◌, ◌≡◌, refl, ap, subst, ◌∙◌, Option, some, [], ◌∷◌, ◌++◌,
  String, returns, panics, Bytes, length, take, drop, arith, length-drop, drop_all,
}
use tcg.Envelope.{
  NatsPayload, marshal_v1, unmarshal_v1, read_array, zeros, read_flags, read_trace, read_span,
  type_name, type_from_str,
}

take-append : (xs ys : Bytes) → take (length xs) (xs ++ ys) ≡ xs
take-append [] ys = refl
take-append (x ∷ xs) ys = ap (◌∷◌ x) (take-append xs ys)

drop-append : (xs ys : Bytes) → drop (length xs) (xs ++ ys) ≡ ys
drop-append [] ys = refl
drop-append (x ∷ xs) ys = drop-append xs ys

zeros_none : (n : ℕ) → zeros (n - n) ≡ []
unfolding zeros
zeros_none n = rw (self n) refl
  where
    self : (n : ℕ) → n - n ≡ 0
    self n = omega arith

filled :
    (xs ys got rest : Bytes)
    → got ≡ xs
    → rest ≡ ys
    → Path
        (Option (Bytes × Bytes))
        (some (got ++ zeros (length xs - length got), rest))
        (some (xs, ys))
filled xs ys got rest e f = rw (e, f, zeros_none (length xs), append-nil xs) refl

read_array-append :
    (n : ℕ) (xs ys : Bytes) → 0 < n → length xs ≡ n → read_array n (xs ++ ys) ≡ some (xs, ys)
unfolding read_array
read_array-append n [] ys h e = absurd (omega arith)
read_array-append n (x ∷ xs) ys h e =
    subst (λ k. read_array k ((x ∷ xs) ++ ys) ≡ some (x ∷ xs, ys)) e
      (filled (x ∷ xs) ys _ _ (take-append (x ∷ xs) ys) (drop-append (x ∷ xs) ys))

read_span-some :
    (t : ℕ) (bs span rest : Bytes)
    → read_array 8 bs ≡ some (span, rest)
    → read_span t bs ≡ read_trace t span rest
unfolding read_span
read_span-some t bs span rest e = rw (e, read_span) refl

read_trace-some :
    (t : ℕ) (span bs trace rest : Bytes)
    → read_array 16 bs ≡ some (trace, rest)
    → read_trace t span bs ≡ read_flags t span trace rest
unfolding read_trace
read_trace-some t span bs trace rest e = rw (e, read_trace) refl

-- What the first format keeps of an envelope.
abbrev pub without_state : NatsPayload → NatsPayload
without_state p = record p {
  span_context = record (p.span_context) { trace_state = []; remote = false };
}

-- An envelope of a span id of 8 bytes and a trace id of 16 that marshalV1 wrote is read back by
-- unmarshalV1 as it was, but without the trace state and the remote flag of its span, which are lost.
pub unmarshal_v1-marshal_v1 :
    (p : NatsPayload)
    → length p.span_context.span_id ≡ 8
    → length p.span_context.trace_id ≡ 16
    → unmarshal_v1 (marshal_v1 p) ≡ returns (some (without_state p))
unfolding unmarshal_v1 marshal_v1 read_flags
unmarshal_v1-marshal_v1 p s t =
    let c = p.span_context in
    let tail : Bytes = c.trace_flags ∷ p.payload in
    read_span-some p.payload_type _ c.span_id (c.trace_id ++ tail)
      (read_array-append 8 c.span_id (c.trace_id ++ tail) (omega arith) s)
    ∙ read_trace-some p.payload_type c.span_id _ c.trace_id tail
        (read_array-append 16 c.trace_id tail (omega arith) t)

read_array-some :
    (n : ℕ) (xs : Bytes) → 0 < length xs → (got : Bytes) × (read_array n xs ≡ some (got, drop n xs))
unfolding read_array
read_array-some n [] h = absurd (omega arith)
read_array-some n (x ∷ xs) h = (_, refl)

-- unmarshalV1 panics on every input of 10 to 25 bytes: the byte of the trace flags is missing.
pub short_input_panics :
    (input : Bytes) → 10 ≤ length input → length input ≤ 25 → unmarshal_v1 input ≡ panics
unfolding unmarshal_v1 read_flags
short_input_panics [] lo hi = refl
short_input_panics (b ∷ bs) lo hi =
    let (span, e) = read_array-some 8 bs (omega arith) in
    let left = length-drop 8 bs in
    let (trace, f) = read_array-some 16 (drop 8 bs) (omega (arith, left)) in
    read_span-some b bs span (drop 8 bs) e
    ∙ read_trace-some b span (drop 8 bs) trace _ f
    ∙ ap (read_flags b span trace) (drop_all 16 (drop 8 bs) (omega (arith, left)))

named :
    (t : ℕ) (n s : String)
    → returns n ≡ returns s
    → (type_from_str n ≡ some t) × (t < 8)
    → (type_from_str s ≡ some t) × (t < 8)
named t n s h k = subst (λ z. (type_from_str z ≡ some t) × (t < 8)) (name_of n s h) k
  where
    name_of : (n s : String) → returns n ≡ returns s → n ≡ s
    name_of n s h = cc

-- FromStr reads back the name of every payload type, and no number from 8 on has a name.
pub type_from_str-type_name :
    (t : ℕ) (s : String) → type_name t ≡ returns s → (type_from_str s ≡ some t) × (t < 8)
unfolding type_name type_from_str
type_from_str-type_name zero s h = named 0 "undefined" s h (refl, omega arith)
type_from_str-type_name (suc zero) s h = named 1 "events" s h (refl, omega arith)
type_from_str-type_name (suc (suc zero)) s h = named 2 "eventsAck" s h (refl, omega arith)
type_from_str-type_name (suc (suc (suc zero))) s h = named 3 "eventsUnack" s h (refl, omega arith)
type_from_str-type_name (suc (suc (suc (suc zero)))) s h =
    named 4 "inventory" s h (refl, omega arith)
type_from_str-type_name (suc (suc (suc (suc (suc zero))))) s h =
    named 5 "metrics" s h (refl, omega arith)
type_from_str-type_name (suc (suc (suc (suc (suc (suc zero)))))) s h =
    named 6 "clearInDowntime" s h (refl, omega arith)
type_from_str-type_name (suc (suc (suc (suc (suc (suc (suc zero))))))) s h =
    named 7 "setInDowntime" s h (refl, omega arith)
type_from_str-type_name (suc (suc (suc (suc (suc (suc (suc (suc t)))))))) s h = absurd cc

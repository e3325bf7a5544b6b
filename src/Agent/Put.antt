-- ===== src/Agent/Put.antt =====
-- Put2Nats of services/nats.go. The header is a map of lists, whose keys are in the form that Set gives
-- them; the header of the context and the span's three values are arguments, as is the compression.
pub mod Limit
use tcg.Common.{
  inl, inr, ◌⊎◌, ℕ, Bool, true, false, Option, none, some, List, [], ◌∷◌, ◌++◌, String, ℤ, pos,
  ltb_ℤ, Bytes, length, Dict, lookup, insert, decimal, if◌then◌else◌,
}
use tcg.Nats.{State, Msg, publish, payload_lim, library}
use tcg.Nats

abbrev pub Header : Type 0
Header = Dict (List String)

unfoldable pub set_header : String → String → Header → Header
unfolding insert
set_header k v h = insert k (v ∷ []) h

abbrev present : Option (List String) → List String
present none = []
present (some vs) = vs

unfoldable pub add_header : String → String → Header → Header
unfolding insert lookup
add_header k v h = insert k (present (lookup k h) ++ v ∷ []) h

pub record Span : Type 0 where
  pub span_id : String
  pub trace_id : String
  pub trace_flags : String

unfoldable pub span_header : Span → Header → Header
unfolding set_header
span_header s h =
    set_header "Span-Trace-Flags" s.trace_flags
      (set_header "Span-Trace-Id" s.trace_id (set_header "Span-Span-Id" s.span_id h))

-- The message to publish: a payload above the limit is compressed.
unfoldable pub pack : (Bytes → String ⊎ Bytes) → ℤ → String → Header → Bytes → Nats.Error ⊎ Msg
unfolding set_header add_header
pack gzip max subj h payload =
    if ltb_ℤ max (pos (length payload))
    then elim (gzip payload) [
      | inl e ↦ inl (library e)
      | inr less ↦
          if ltb_ℤ max (pos (length less))
          then inl payload_lim
          else inr (record {
            subject = subj;
            header = add_header "Payload-Length" (decimal (length less)) (
                set_header "Payload-Length" (decimal (length payload))
                  (set_header "Compressed" "gzip" h));
            payload = less;
          })
    ]
    else inr (record {
      subject = subj;
      header = add_header "Payload-Length" (decimal (length payload)) h;
      payload = payload;
    })

-- Put2Nats, with the agent's limit.
unfoldable pub put2nats :
    (Bytes → String ⊎ Bytes)
    → ℤ
    → Span
    → String
    → Header
    → Bytes
    → State
    → State × Option Nats.Error
unfolding span_header pack
put2nats gzip max span subj h payload s = elim (pack gzip max subj (span_header span h) payload) [
  | inl e ↦ (s, some e)
  | inr msg ↦ publish msg s
]

-- ===== src/Agent/Put/Limit.antt =====
-- Put2Nats of services/nats.go: the message that it queues, if it does.
use tcg.Common.{
  Sum-cases, ◌≡◌, refl, subst, inl, inr, ◌⊎◌, true, false, Option, none, some, [], ◌∷◌, ◌++◌,
  String, ℤ, pos, ltb_ℤ, Bytes, length, Bool-cases,
}
use tcg.Nats.{State, Msg, publish, payload_lim}
use tcg.Nats
use tcg.Agent.Put.{Header, Span, pack, put2nats, span_header}

module _ (gzip : Bytes → String ⊎ Bytes) (max : ℤ) where
  -- The message's payload is the given one or that compressed, and is within the limit.
  pub record IsPacked (payload : Bytes) (msg : Msg) : Type 0 where
    pub source : (msg.payload ≡ payload) ⊎ (gzip payload ≡ inr msg.payload)
    pub within : ltb_ℤ max (pos (length msg.payload)) ≡ false

  abbrev Packed : Bytes → Nats.Error ⊎ Msg → Type 0
  Packed payload (inl e) = Unit
  Packed payload (inr msg) = IsPacked payload msg

  less-Packed :
      (subj : String) (h : Header) (payload : Bytes)
      → ltb_ℤ max (pos (length payload)) ≡ true
      → Packed payload (pack gzip max subj h payload)
  unfolding pack
  less-Packed subj h payload big = elim (Sum-cases (gzip payload)) [
    | inl (e, f) ↦ rw (big, f) tt
    | inr (less, f) ↦ elim (Bool-cases (ltb_ℤ max (pos (length less)))) [
      | inl over ↦ rw (big, f, over) tt
      | inr fits ↦ rw (big, f, fits) (record { source = inr f; within = fits })
    ]
  ]

  pack-Packed :
      (subj : String) (h : Header) (payload : Bytes) → Packed payload (pack gzip max subj h payload)
  unfolding pack
  pack-Packed subj h payload = elim (Bool-cases (ltb_ℤ max (pos (length payload)))) [
    | inl big ↦ less-Packed subj h payload big
    | inr fits ↦ rw fits (record { source = inl refl; within = fits })
  ]

  -- Either an error and nothing changed, or one message more waits for the publisher, which is
  -- packed and within the server's limit.
  pub data Result (payload : Bytes) (s : State) (r : State × Option Nats.Error) : Type 0 where
    refused : (e : Nats.Error) → r ≡ (s, some e) → Result payload s r
    queued :
        (msg : Msg)
        → r ≡ (record s { pending = s.pending ++ msg ∷ [] }, none)
        → IsPacked payload msg
        → ltb_ℤ s.config.max_payload (pos (length msg.payload)) ≡ false
        → Result payload s r

  publish-Result :
      (payload : Bytes) (msg : Msg) (s : State)
      → IsPacked payload msg
      → Result payload s (publish msg s)
  unfolding publish
  publish-Result payload msg s v =
      elim (Bool-cases (ltb_ℤ s.config.max_payload (pos (length msg.payload)))) [
        | inl over ↦ refused payload_lim (rw over refl)
        | inr fits ↦ queued msg (rw fits refl) v fits
      ]

  -- Put2Nats either returns an error and changes nothing, or it queues one message more, whose
  -- payload is the given one or that compressed, and is within the agent's limit and the server's.
  pub put2nats_lem :
      (span : Span) (subj : String) (h : Header) (payload : Bytes) (s : State)
      → Result payload s (put2nats gzip max span subj h payload s)
  unfolding put2nats
  put2nats_lem span subj h payload s =
      let packed = pack-Packed subj (span_header span h) payload in
      elim (Sum-cases (pack gzip max subj (span_header span h) payload)) [
        | inl (e, f) ↦ refused e (rw (f, put2nats) refl)
        | inr (msg, f) ↦
            rw (f, put2nats) (publish-Result payload msg s (subst (Packed payload) f packed))
      ]

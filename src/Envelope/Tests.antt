-- ===== src/Envelope/Tests.antt =====
-- services/services.go at given envelopes.
use tcg.Common.{◌≡◌, refl, true, some, [], ◌∷◌, ◌++◌, returns, Bytes}
use tcg.Envelope.{NatsPayload, marshal_v1, unmarshal_v1}
use tcg.Envelope.Roundtrip.{without_state, unmarshal_v1-marshal_v1}

abbrev eight : Bytes
eight = 1 ∷ 2 ∷ 3 ∷ 4 ∷ 5 ∷ 6 ∷ 7 ∷ 8 ∷ []

abbrev events : NatsPayload
events = record {
  span_context = record {
    span_id = eight;
    trace_id = eight ++ eight;
    trace_flags = 1;
    trace_state = ("vendor", "1") ∷ [];
    remote = true;
  };
  payload = 123 ∷ 125 ∷ [];
  payload_type = 1;
}

unmarshal_v1-marshal_v1_example :
    unmarshal_v1 (marshal_v1 events) ≡ returns (some (without_state events))
unmarshal_v1-marshal_v1_example = unmarshal_v1-marshal_v1 events refl refl

-- ===== src/Clients/Tests.antt =====
-- sdk/clients and services/nats.go on given messages.
use tcg.Common.{
  ◌≡◌, refl, sym, inr, suc, ◌≤◌, true, false, none, some, List, [], ◌∷◌, ◌++◌, String, Bytes,
  returns, panics, lookup, insert, arith, str_eq,
}
use tcg.Agent.Put.{set_header}
use tcg.Clients.{
  GwClient, World, Tokens, Answer, fails, answers, token_key, connect, build_uri, events_point,
  connect_local, authenticate_password,
}
use tcg.Clients.Errors.{Foreign}
use tcg.Clients.Requests.{Call, Answers, send_events, send_request}
use tcg.Clients.Delivery.{handle_msg, legacy_header, get_header, adapt_client}
use tcg.Clients.Policy.{process_msg-of_answers, verdict_sent}
use tcg.Clients.Login.{Refused, connect_all, connect_all_once, login_of}
use tcg.Dispatcher.{Dispatcher, process_msg}
use tcg.Envelope

abbrev client : GwClient
client = record {
  app_name = "gw8";
  host_name = "https://gw.example.com/api/";
  user_name = "user";
  password = "secret";
  local_connection = true;
  merge_hosts = true;
  prefix_resource_names = true;
  resource_name_prefix = "east-";
  is_dynamic_inventory = false;
  http_encode = false;
  built_for = none;
}

abbrev world : World
world = record {
  windows = false;
  error_text = λ e. e.lower_text;
  marshal = λ d. [];
  access_token = λ body. inr body;
  gzip = λ p. inr p;
}

events_uri : build_uri client.host_name events_point ≡ "https://gw.example.com/api/events"
unfolding build_uri
events_uri = refl

abbrev reset_by_peer : Foreign
reset_by_peer = record {
  has_errno = λ e. true;
  dns = none;
  canceled = false;
  deadline_exceeded = false;
  lower_text = "connection reset by peer";
}

-- The old token is refused, the login gets a new one, and the second request meets the gateway's 503.
abbrev stale : Tokens
stale = ("gw8;user;https://gw.example.com/api/", "old") ∷ []

abbrev busy : Answers
busy = record {
  first = answers 401 "";
  seen = stale;
  held = stale;
  login = answers 200 "new";
  second = answers 503 "busy";
}

abbrev event : Call
unfolding send_events
event = send_events client (123 ∷ 125 ∷ [])

abbrev idle : Dispatcher
idle = record { dura_seqs = []; retries = [] }

process_msg-of_answers_example :
    ((process_msg
        (1 ∷ 2 ∷ [])
        "#gw#"
        (record { stream_seq = some 7 })
        (verdict_sent world (send_request world client event busy stale).result)
        false
        0
        idle).done
      ≡ false)
    × ((process_msg
          (1 ∷ 2 ∷ [])
          "#gw#"
          (record { stream_seq = some 7 })
          (verdict_sent world (send_request world client event busy stale).result)
          false
          0
          idle).state.dura_seqs
        ≡ [])
unfolding lookup insert connect
process_msg-of_answers_example =
    process_msg-of_answers world (1 ∷ 2 ∷ []) "#gw#" client event busy stale 7 0 false idle
      (omega arith) refl

-- Of three clients that had the old token refused, the second gets a new one, and the third none.
abbrev refused_with : Answer → Refused
refused_with a = record { client = client; prev = "old"; login = a }

abbrev three : List Refused
three =
    refused_with (fails reset_by_peer)
    ∷ refused_with (answers 200 "new")
    ∷ refused_with (answers 200 "newer")
    ∷ []

-- A client that is refused after the new token was stored logs in again.
late :
    connect_all world
      (refused_with (answers 200 "new")
        ∷ (record { client = client; prev = "new"; login = answers 200 "newer" })
        ∷ [])
      stale
    ≡ (2, 0)
unfolding connect_all
late = refl

three_logins : connect_all world three stale ≡ (2, 1)
unfolding connect_all
three_logins = refl

inr_body : (body t : String) (h : login_of world client (answers 200 body) ≡ inr t) → body ≡ t
unfolding connect_local authenticate_password
inr_body body t h = cc

fresh :
    (body : String)
    → str_eq "old" body ≡ false
    → (t : String) → login_of world client (answers 200 body) ≡ inr t
    → str_eq "old" t ≡ false
fresh body e t h = rw (sym (inr_body body t h)) e

no_login :
    (t : String) → login_of world client (fails reset_by_peer) ≡ inr t → str_eq "old" t ≡ false
unfolding connect_local
no_login t h = cc

connect_all_once_example : (connect_all world three stale).0 ≤ suc (connect_all world three stale).1
unfolding token_key
connect_all_once_example =
    connect_all_once world "old" "gw8;user;https://gw.example.com/api/" three stale
      ((refl, refl), ((refl, refl), ((refl, refl), tt)))
      (no_login, (fresh "new" refl, (fresh "newer" refl, tt)))

-- An event in the first format of an envelope: its type, 25 bytes of a span, and `{}`.
abbrev wrapped_event : Bytes
unfolding Envelope.zeros
wrapped_event = 1 ∷ (Envelope.zeros 25 ++ (123 ∷ 125 ∷ []))

abbrev all_right : Answers
all_right = record busy { first = answers 200 "" }

-- The handler sends the envelope and not what it holds.
sends_envelope :
    handle_msg (λ b. none) world client (λ b. b) (some []) wrapped_event all_right stale
    ≡ returns (
        adapt_client world client
          (λ b. b)
          (("Payload-Type", "events" ∷ []) ∷ [])
          wrapped_event
          all_right
          stale)
unfolding handle_msg legacy_header Envelope.unmarshal Envelope.unmarshal_v1 Envelope.read_span
    Envelope.read_array Envelope.type_name get_header set_header
sends_envelope = refl

-- Without headers it panics.
no_headers_panics :
    handle_msg (λ b. none) world client (λ b. b) none wrapped_event all_right stale ≡ panics
unfolding handle_msg legacy_header Envelope.unmarshal Envelope.unmarshal_v1 Envelope.read_span
    Envelope.read_array Envelope.type_name get_header set_header
no_headers_panics = refl

-- ===== src/Clients/Requests.antt =====
-- sdk/clients/gwClient.go: SendRequest and the operations of the client that use it.
use tcg.Common.{
  ◌⊎◌, inl, inr, Bool, false, not, ◌&&◌, ◌||◌, Option, none, some, List, [], ◌∷◌, ◌++◌, String,
  Bytes, Dict, insert, ◌==◌, str_eq, if◌then◌else◌,
}
use tcg.Clients.{
  GwClient, Entrypoint, Req, Answer, fails, answers, World, Tokens, Connected, token, do_req,
  connect, status_error, or_body, clear_in_downtime_point, set_in_downtime_point, events_point,
  events_ack_point, events_unack_point, monitoring, monitoring_dyn, synchronizer_point,
}
use tcg.Clients.Errors.{Error, Foreign, wrapped, foreign, transient_error, is_error_network}

-- The arguments of SendRequest.
pub record Call : Type 0 where
  pub method : String
  pub entrypoint : Entrypoint
  pub query : String
  pub payload : Option Bytes
  pub additional_headers : List String

-- What meets the client: the answer, the tokens when Connect reads its own before the lock and when it
-- has the lock, the answer to the login and the answer to the request sent again. Other clients can
-- change the tokens in between.
pub record Answers : Type 0 where
  pub first : Answer
  pub seen : Tokens
  pub held : Tokens
  pub login : Answer
  pub second : Answer

pub record Sent : Type 0 where
  pub result : Error ⊎ String
  pub tokens : Tokens
  pub requests : List Req

-- The pairs of the additional headers; an odd last one is ignored.
unfoldable pub with_headers : List String → Dict String → Dict String
unfolding insert
with_headers [] h = h
with_headers (k ∷ []) h = h
with_headers (k ∷ (v ∷ rest)) h = with_headers rest (insert k v h)

abbrev pub refuses : Answer → Bool
refuses (fails e) = false
refuses (answers status body) = status == 401

module _ (world : World) where
  -- The error of a request that got no answer.
  unfoldable pub send_error : Foreign → Error
  unfolding is_error_network
  send_error e =
      if (e.canceled || e.deadline_exceeded) || is_error_network world.windows e
      then wrapped transient_error (world.error_text e)
      else foreign e

  -- The switch over the last answer.
  unfoldable pub outcome : Answer → Error ⊎ String
  unfolding send_error status_error
  outcome (fails e) = inl (send_error e)
  outcome (answers status body) = or_body (status_error status body) body

  unfoldable pub request_of : GwClient → Call → Tokens → Req
  unfolding do_req token with_headers
  request_of c call tokens =
      do_req c call.method call.entrypoint call.query
        (with_headers call.additional_headers (
          ("Accept", "application/json")
          ∷ ("Content-Type", "application/json")
          ∷ ("GWOS-APP-NAME", c.app_name)
          ∷ ("GWOS-API-TOKEN", token c tokens)
          ∷ []))
        none call.payload

  abbrev with_token : String → Req → Req
  with_token t r = record r { headers = insert "GWOS-API-TOKEN" t r.headers }

  -- The request sent again after Connect.
  unfoldable pub resend : GwClient → Req → Connected → Answer → Sent
  unfolding token insert outcome
  resend c req con second = elim con.failure [
    | some e ↦ record { result = inl e; tokens = con.tokens; requests = req ∷ con.requests }
    | none ↦ record {
      result = outcome second;
      tokens = con.tokens;
      requests = req ∷ (con.requests ++ with_token (token c con.tokens) req ∷ []);
    }
  ]

  unfoldable pub send_request : GwClient → Call → Answers → Tokens → Sent
  unfolding request_of resend outcome connect token
  send_request c call a tokens =
      let req = request_of c call tokens in
      if refuses a.first
      then resend c req (connect world c (token c a.seen) a.login a.held) a.second
      else record { result = outcome a.first; tokens = tokens; requests = req ∷ [] }

-- `HostNamePrefix`, in the operations that name it.
unfoldable pub prefix_header : GwClient → List String
prefix_header c =
    if c.prefix_resource_names && not (str_eq c.resource_name_prefix "")
    then "HostNamePrefix" ∷ c.resource_name_prefix ∷ []
    else []

unfoldable pub is_gzipped : Bytes → Bool
is_gzipped (a ∷ (b ∷ (c ∷ rest))) = (a == 31) && (b == 139)
is_gzipped _ = false

-- The payload with its encoding; GZip can fail.
unfoldable pub encode : World → GwClient → Bytes → Foreign ⊎ (Bytes × List String)
unfolding is_gzipped
encode world c payload =
    if is_gzipped payload
    then inr (payload, "Content-Encoding" ∷ "gzip" ∷ [])
    else if c.http_encode
    then elim (world.gzip payload) [
      | inl e ↦ inl e
      | inr less ↦ inr (less, "Content-Encoding" ∷ "gzip" ∷ [])
    ]
    else inr (payload, [])

abbrev with_encoding :
    GwClient → Entrypoint → String → Foreign ⊎ (Bytes × List String) → Foreign ⊎ Call
with_encoding c e query (inl f) = inl f
with_encoding c e query (inr (payload, headers)) = inr (record {
  method = "POST";
  entrypoint = e;
  query = query;
  payload = some payload;
  additional_headers = headers ++ prefix_header c;
})

-- The calls of the operations; each is then given to SendRequest. `?merge=` needs no escape.
unfoldable pub synchronize_inventory : World → GwClient → Bytes → Foreign ⊎ Call
unfolding encode prefix_header
synchronize_inventory world c payload =
    with_encoding c synchronizer_point (if c.merge_hosts then "?merge=true" else "?merge=false")
      (encode world c payload)

unfoldable pub send_resources_with_metrics : World → GwClient → Bytes → Foreign ⊎ Call
unfolding encode prefix_header
send_resources_with_metrics world c payload =
    with_encoding c (if c.is_dynamic_inventory then monitoring_dyn else monitoring) ""
      (encode world c payload)

abbrev posted : GwClient → Entrypoint → Bytes → Call
posted c e payload = record {
  method = "POST";
  entrypoint = e;
  query = "";
  payload = some payload;
  additional_headers = prefix_header c;
}

unfoldable pub clear_in_downtime : GwClient → Bytes → Call
unfolding prefix_header
clear_in_downtime c payload = posted c clear_in_downtime_point payload

unfoldable pub set_in_downtime : GwClient → Bytes → Call
unfolding prefix_header
set_in_downtime c payload = posted c set_in_downtime_point payload

unfoldable pub send_events : GwClient → Bytes → Call
unfolding prefix_header
send_events c payload = posted c events_point payload

unfoldable pub send_events_ack : GwClient → Bytes → Call
unfolding prefix_header
send_events_ack c payload = posted c events_ack_point payload

unfoldable pub send_events_unack : GwClient → Bytes → Call
unfolding prefix_header
send_events_unack c payload = posted c events_unack_point payload

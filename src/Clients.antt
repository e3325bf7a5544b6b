-- ===== src/Clients.antt =====
-- sdk/clients/gwClient.go: the GroundWork client. A body is its text; what the server answers, and
-- the JSON of a login, are arguments. `Tokens` is the map that the clients share.
pub mod Errors
pub mod Requests
pub mod Delivery
pub mod Policy
pub mod Login
pub mod Reload
mod Tests
use Prim.Native.String.{◌++◌ as join}
use tcg.Common.{
  ◌⊎◌, inl, inr, ℕ, Bool, true, false, not, ◌&&◌, ◌||◌, Option, none, some, List, [], ◌∷◌, ◌++◌,
  String, Bytes, Dict, lookup, insert, ltb, ◌==◌, str_eq, length, contains, has_prefix,
  trim_left_of, trim_right_of, trim_suffix, if◌then◌else◌,
}
use tcg.Clients.Errors.{
  Error, Foreign, wrapped, foreign, transient_error, gateway, synchronizer, unauthorized, undecided,
  not_found, is_error_network,
}

-- The settings of a client; `built_for` is the host name that buildURIs has seen, once it has run.
pub record GwClient : Type 0 where
  pub app_name : String
  pub host_name : String
  pub user_name : String
  pub password : String
  pub local_connection : Bool
  pub merge_hosts : Bool
  pub prefix_resource_names : Bool
  pub resource_name_prefix : String
  pub is_dynamic_inventory : Bool
  pub http_encode : Bool
  pub built_for : Option String

pub data Entrypoint : Type 0 where
  authenticate connect_point disconnect_point clear_in_downtime_point : Entrypoint
  set_in_downtime_point events_point events_ack_point events_unack_point : Entrypoint
  monitoring monitoring_dyn synchronizer_point services_point hostgroups_point : Entrypoint
  validate_token_point : Entrypoint
  other_point : String → Entrypoint

unfoldable pub path_of : Entrypoint → String
path_of authenticate = "/api/users/authenticatePassword"
path_of connect_point = "/api/auth/login"
path_of disconnect_point = "/api/auth/logout"
path_of clear_in_downtime_point = "/api/biz/clearindowntime"
path_of set_in_downtime_point = "/api/biz/setindowntime"
path_of events_point = "/api/events"
path_of events_ack_point = "/api/events/ack"
path_of events_unack_point = "/api/events/unack"
path_of monitoring = "/api/monitoring"
path_of monitoring_dyn = "/api/monitoring?dynamic=true"
path_of synchronizer_point = "/api/synchronizer"
path_of services_point = "/api/services"
path_of hostgroups_point = "/api/hostgroups"
path_of validate_token_point = "/api/auth/validatetoken"
path_of (other_point p) = p

-- buildURI
unfoldable pub build_uri : String → Entrypoint → String
unfolding has_prefix trim_left_of trim_right_of trim_suffix path_of
build_uri host e =
    let rest =
      join (trim_suffix (trim_right_of 47 host) "/api") (join "/" (trim_left_of 47 (path_of e))) in
    if has_prefix host "http" then rest else join "https://" rest

pub record Req : Type 0 where
  pub url : String
  pub method : String
  pub headers : Dict String
  pub form : Option (Dict String)
  pub payload : Option Bytes

-- What SendWithContext gets: an error, or the status and the body.
pub data Answer : Type 0 where
  fails : Foreign → Answer
  answers : ℕ → String → Answer

abbrev seen_host : GwClient → String
seen_host c = elim c.built_for [ none ↦ c.host_name | some h ↦ h ]

-- The request that doReq sends: the known addresses were built once, another is built here.
unfoldable pub do_req :
    GwClient
    → String
    → Entrypoint
    → String
    → Dict String
    → Option (Dict String)
    → Option Bytes
    → Req
unfolding build_uri
do_req c method e query headers form payload = record {
  url =
      join
        (elim e [
          | other_point p ↦ build_uri c.host_name (other_point p)
          | known ↦ build_uri (seen_host c) known
        ])
        query;
  method = method;
  headers = headers;
  form = form;
  payload = payload;
}

abbrev pub Tokens : Type 0
Tokens = Dict String

unfoldable pub token_key : GwClient → String
token_key c = join c.app_name (join ";" (join c.user_name (join ";" c.host_name)))

unfoldable pub token : GwClient → Tokens → String
unfolding token_key lookup
token c tokens = elim (lookup (token_key c) tokens) [ none ↦ "" | some t ↦ t ]

-- The cases of the status that both logins tell apart; none for 200.
unfoldable pub login_error : ℕ → String → Option Error
unfolding contains
login_error status body =
    if status == 401 || ((status == 404) && contains body "password")
    then some (wrapped unauthorized body)
    else if status == 404
    then some (wrapped not_found body)
    else if status == 502 || status == 504
    then some (wrapped gateway body)
    else if status == 503
    then some (wrapped synchronizer body)
    else if status == 200
    then none
    else some (wrapped undecided body)

-- The cases of the status of any other request.
unfoldable pub status_error : ℕ → String → Option Error
status_error status body =
    if status == 401
    then some (wrapped unauthorized body)
    else if status == 404
    then some (wrapped not_found body)
    else if status == 502 || status == 504
    then some (wrapped gateway body)
    else if status == 503
    then some (wrapped synchronizer body)
    else if status == 200
    then none
    else some (wrapped undecided body)

abbrev pub or_body : Option Error → String → Error ⊎ String
or_body none body = inr body
or_body (some e) body = inl e

abbrev form_headers : Dict String
form_headers = ("Accept", "text/plain") ∷ ("Content-Type", "application/x-www-form-urlencoded") ∷ []

-- What the machine and the JSON library give: `error_text` is Error() of a library's error.
pub record World : Type 0 where
  pub windows : Bool
  pub error_text : Foreign → String
  pub marshal : Dict String → Bytes
  pub access_token : String → String ⊎ String
  pub gzip : Bytes → Foreign ⊎ Bytes

-- What a call of Connect leaves: its error, the shared tokens and the requests that it sent.
pub record Connected : Type 0 where
  pub failure : Option Error
  pub tokens : Tokens
  pub requests : List Req

module _ (world : World) where
  -- The error of a login that got no answer.
  unfoldable pub network_error : Foreign → Error
  unfolding is_error_network
  network_error e =
      if is_error_network world.windows e
      then wrapped transient_error (world.error_text e)
      else foreign e

  unfoldable pub connect_local_req : GwClient → Req
  unfolding do_req
  connect_local_req c =
      do_req c "POST" connect_point "" form_headers
        (some
          (("gwos-app-name", c.app_name) ∷ ("user", c.user_name) ∷ ("password", c.password) ∷ []))
        none

  unfoldable pub connect_local : Answer → Error ⊎ String
  unfolding network_error login_error
  connect_local (fails e) = inl (network_error e)
  connect_local (answers status body) = or_body (login_error status body) body

  unfoldable pub authenticate_req : GwClient → Req
  unfolding do_req
  authenticate_req c =
      do_req c "PUT" authenticate ""
        (("Accept", "application/json")
          ∷ ("Content-Type", "application/json")
          ∷ ("GWOS-APP-NAME", c.app_name)
          ∷ [])
        none (some (world.marshal (("name", c.user_name) ∷ ("password", c.password) ∷ [])))

  abbrev parsed_token : String ⊎ String → Error ⊎ String
  parsed_token (inl e) = inl (wrapped undecided e)
  parsed_token (inr t) = inr t

  unfoldable pub authenticate_password : Answer → Error ⊎ String
  unfolding network_error login_error
  authenticate_password (fails e) = inl (network_error e)
  authenticate_password (answers status body) = elim (login_error status body) [
    | some e ↦ inl e
    | none ↦ parsed_token (world.access_token body)
  ]

  abbrev stored : GwClient → Req → Tokens → Error ⊎ String → Connected
  stored c req tokens (inl e) = record { failure = some e; tokens = tokens; requests = req ∷ [] }
  stored c req tokens (inr t) = record {
    failure = none;
    tokens = insert (token_key c) t tokens;
    requests = req ∷ [];
  }

  -- Connect: the token is read once before the lock is taken, `prev`, and again under it.
  unfoldable pub connect : GwClient → String → Answer → Tokens → Connected
  unfolding token insert token_key connect_local_req connect_local authenticate_req
      authenticate_password
  connect c prev login tokens =
      if not (str_eq prev (token c tokens))
      then record { failure = none; tokens = tokens; requests = [] }
      else if c.local_connection
      then stored c (connect_local_req c) tokens (connect_local login)
      else stored c (authenticate_req c) tokens (authenticate_password login)

  -- Disconnect and ValidateToken of the client; `valid` is strconv.ParseBool of the body.
  unfoldable pub disconnect_req : GwClient → Tokens → Req
  unfolding do_req token
  disconnect_req c tokens =
      do_req c "POST" disconnect_point "" form_headers
        (some (("gwos-app-name", c.app_name) ∷ ("gwos-api-token", token c tokens) ∷ [])) none

  unfoldable pub disconnect : Answer → Option Error
  unfolding network_error status_error
  disconnect (fails e) = some (network_error e)
  disconnect (answers status body) = status_error status body

  unfoldable pub validate_token : (String → Option Bool) → Answer → Option Error
  unfolding network_error
  validate_token parse_bool (fails e) = some (network_error e)
  validate_token parse_bool (answers status body) =
      if status == 200
      then elim (parse_bool body) [
        | some true ↦ none
        | _ ↦ some (wrapped unauthorized "invalid gwos-app-name or gwos-api-token")
      ]
      else some (wrapped undecided body)

-- ===== src/Clients/Reload.antt =====
-- sdk/clients/dsClient.go: the client of DalekServices. `url.URL` of a scheme, a host and a path whose
-- characters need no escape is their text.
use Prim.Native.String.{◌++◌ as join}
use tcg.Common.{
  Bool, true, Option, none, some, [], ◌∷◌, String, ◌==◌, str_eq, has_prefix, replace_all,
  if◌then◌else◌,
}
use tcg.Clients.{Req, Answer, fails, answers}
use tcg.Clients.Errors.{Error, wrapped, foreign, unauthorized, undecided, not_found}

unfoldable pub make_dalek_services_scheme : String → String
unfolding has_prefix
make_dalek_services_scheme host = if has_prefix host "dalekservices" then "http" else "https"

unfoldable pub ds_url : String → String → String
unfolding make_dalek_services_scheme
ds_url host path = join (make_dalek_services_scheme host) (join "://" (join host path))

unfoldable pub validate_req : String → String → String → Req
unfolding ds_url
validate_req host app_name api_token = record {
  url = ds_url host "/dalekservices/validate-token";
  method = "POST";
  headers = ("Accept", "text/plain") ∷ ("Content-Type", "application/x-www-form-urlencoded") ∷ [];
  form = some (("gwos-app-name", app_name) ∷ ("gwos-api-token", api_token) ∷ []);
  payload = none;
}

-- ValidateToken and Reload: without a host name no request is sent, and there is no error.
unfoldable pub validate : (String → Option Bool) → String → Answer → Option Error
validate parse_bool host answer = if str_eq host "" then none else elim answer [
  | fails e ↦ some (foreign e)
  | answers status body ↦
      if status == 201
      then elim (parse_bool body) [
        | some true ↦ none
        | _ ↦ some (wrapped unauthorized "invalid gwos-app-name or gwos-api-token")
      ]
      else some (wrapped undecided body)
]

unfoldable pub reload_req : String → String → Req
unfolding ds_url replace_all
reload_req host agent_id = record {
  url = ds_url host (replace_all "/dalekservices/connectors/reload/:agentID" ":agentID" agent_id);
  method = "POST";
  headers = ("Accept", "application/json") ∷ ("Content-Type", "application/json") ∷ [];
  form = none;
  payload = none;
}

unfoldable pub reload : String → Answer → Option Error
reload host answer = if str_eq host "" then none else elim answer [
  | fails e ↦ some (foreign e)
  | answers status body ↦
      if status == 201
      then none
      else if status == 404
      then some (wrapped not_found body)
      else some (wrapped undecided body)
]

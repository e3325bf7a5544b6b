-- ===== src/Controller.antt =====
-- services/controller.go, checkAccess: who may call the HTTP API. The hash, the cache of credentials
-- and the clients answer as arguments; spans and logs are left out.
pub mod Granted
pub mod Routes
pub mod Changes
mod Tests
use Prim.Native.String.{◌++◌ as join}
use tcg.Common.{
  ◌⊎◌, inl, inr, ℕ, Bool, true, false, not, ◌&&◌, ◌||◌, Option, none, some, String, str_eq, ◌==◌,
  if◌then◌else◌,
}

-- The headers of a request that are read; `basic` is what BasicAuth finds.
pub record Request : Type 0 where
  pub pin : String
  pub basic : Option (String × String)
  pub app_name : String
  pub api_token : String

pub record Configured : Type 0 where
  pub ds_host : String
  pub gw_clients : ℕ
  pub controller_pin : String

-- `seen` and `seen_again` are the lookups in the cache before and under the lock, and `add` what Add
-- fails with. The clients' calls give an error, none for success.
pub record Env : Type 0 where
  pub hash : String → String ⊎ String
  pub seen : String → Bool
  pub seen_again : String → Bool
  pub add : String → Option String
  pub authenticate : String → String → Option String
  pub validate : String → String → Option String

-- The request goes on, or is aborted with status 401 and an error.
pub data Access : Type 0 where
  allowed : Access
  disallowed : String → Access

abbrev pub access_of : Option String → Access
access_of none = allowed
access_of (some e) = disallowed e

module _ (env : Env) where
  -- The two texts are written to the hash one after the other.
  unfoldable pub hash_fn : String → String → String ⊎ String
  hash_fn a b = env.hash (join a b)

  abbrev pub remember : String → Option String → Access
  remember key (some e) = disallowed e
  remember key none = access_of (env.add key)

  -- Credentials whose key is not in the cache are sent to the client, `asked`.
  unfoldable pub check_cached : Option String → String ⊎ String → Access
  check_cached asked (inl e) = disallowed e
  check_cached asked (inr key) =
      if env.seen key || env.seen_again key then allowed else remember key asked

  unfoldable pub check_basic : Configured → String → String → Access
  unfolding hash_fn check_cached
  check_basic conf username password =
      if str_eq username "" || str_eq password "" || (conf.gw_clients == 0)
      then disallowed "misconfigured BASIC auth"
      else check_cached (env.authenticate username password) (hash_fn username password)

  unfoldable pub check_gwos : Configured → String → String → Access
  unfolding hash_fn check_cached
  check_gwos conf app_name token =
      if str_eq app_name "" || str_eq token "" || str_eq conf.ds_host ""
      then disallowed "misconfigured GWOS auth"
      else check_cached (env.validate app_name token) (hash_fn app_name token)

  unfoldable pub check_credentials : Configured → Request → Access
  unfolding check_basic check_gwos
  check_credentials conf req = elim req.basic [
    | some up ↦ check_basic conf (up.0) (up.1)
    | none ↦ check_gwos conf req.app_name req.api_token
  ]

  unfoldable pub check_access : Configured → Request → Access
  unfolding check_credentials
  check_access conf req =
      if str_eq conf.ds_host "" && (conf.gw_clients == 0)
      then allowed
      else if not (str_eq conf.controller_pin "") && str_eq conf.controller_pin req.pin
      then allowed
      else check_credentials conf req

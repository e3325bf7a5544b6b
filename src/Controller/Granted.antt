-- ===== src/Controller/Granted.antt =====
-- services/controller.go, checkAccess: what a request that goes on has shown.
use tcg.Common.{
  ◌≡◌, refl, ◌⊎◌, inl, inr, Bool, true, false, not, ◌&&◌, ◌||◌, Option, none, some, String, str_eq,
  ◌==◌, Bool-cases, if◌then◌else◌,
}
use tcg.Controller.{
  Env, Request, Configured, Access, allowed, disallowed, hash_fn, check_cached, check_basic,
  check_gwos, check_credentials, check_access,
}

not_refused :
    (t : Bool) (e : String) (x : Access) → (if t then disallowed e else x) ≡ allowed → x ≡ allowed
not_refused true e x h = absurd cc
not_refused false e x h = h

not_open : (t : Bool) (x : Access) → t ≡ false → (if t then allowed else x) ≡ allowed → x ≡ allowed
not_open true x f h = absurd cc
not_open false x f h = h

module _ (env : Env) where
  -- The key of the credentials is in the cache, or the client accepts them.
  abbrev pub IsKnown : String → String → Option String → Type 0
  IsKnown a b asked =
      (key : String) × (hash_fn env a b ≡ inr key)
      × (((env.seen key || env.seen_again key) ≡ true) ⊎ (asked ≡ none))

  -- What the credentials of the request must be: those of BasicAuth where there are any.
  abbrev pub IsGranted : Request → Type 0
  IsGranted req = elim req.basic [
    | some up ↦ IsKnown (up.0) (up.1) (env.authenticate (up.0) (up.1))
    | none ↦ IsKnown req.app_name req.api_token (env.validate req.app_name req.api_token)
  ]

  refused_of :
      (key x : String)
      → (env.seen key || env.seen_again key) ≡ false
      → check_cached env (some x) (inr key) ≡ disallowed x
  unfolding check_cached
  refused_of key x e = rw (e, check_cached) refl

  -- A key that is not in the cache.
  asked_of :
      (key : String) (asked : Option String)
      → (env.seen key || env.seen_again key) ≡ false
      → check_cached env asked (inr key) ≡ allowed
      → asked ≡ none
  unfolding check_cached
  asked_of key none e h = refl
  asked_of key (some x) e h = let f = refused_of key x e in absurd cc

  known_of :
      (asked : Option String) (r : String ⊎ String)
      → check_cached env asked r ≡ allowed
      → (key : String) × (r ≡ inr key)
        × (((env.seen key || env.seen_again key) ≡ true) ⊎ (asked ≡ none))
  unfolding check_cached
  known_of asked (inl e) h = absurd cc
  known_of asked (inr key) h = elim (Bool-cases (env.seen key || env.seen_again key)) [
    | inl e ↦ (key, refl, inl e)
    | inr e ↦ (key, refl, inr (asked_of key asked e h))
  ]

  check_basic-IsKnown :
      (conf : Configured) (a b : String)
      → check_basic env conf a b ≡ allowed
      → IsKnown a b (env.authenticate a b)
  unfolding check_basic
  check_basic-IsKnown conf a b h =
      known_of (env.authenticate a b) (hash_fn env a b) (not_refused _ _ _ h)

  check_gwos-IsKnown :
      (conf : Configured) (a b : String)
      → check_gwos env conf a b ≡ allowed
      → IsKnown a b (env.validate a b)
  unfolding check_gwos
  check_gwos-IsKnown conf a b h =
      known_of (env.validate a b) (hash_fn env a b) (not_refused _ _ _ h)

  check_credentials-IsGranted :
      (conf : Configured) (pin app_name api_token : String) (basic : Option (String × String))
      → check_credentials env conf
          (record { pin = pin; basic = basic; app_name = app_name; api_token = api_token })
        ≡ allowed
      → IsGranted (record { pin = pin; basic = basic; app_name = app_name; api_token = api_token })
  unfolding check_credentials
  check_credentials-IsGranted conf pin app_name api_token none h =
      check_gwos-IsKnown conf app_name api_token h
  check_credentials-IsGranted conf pin app_name api_token (some (a, b)) h =
      check_basic-IsKnown conf a b h

  -- A request goes on only where nothing is configured, where it has the controller's pin, or where
  -- its credentials, those of BasicAuth before the token, are in the cache or accepted by the client.
  pub check_access-IsGranted :
      (conf : Configured) (req : Request)
      → (str_eq conf.ds_host "" && (conf.gw_clients == 0)) ≡ false
      → (not (str_eq conf.controller_pin "") && str_eq conf.controller_pin req.pin) ≡ false
      → check_access env conf req ≡ allowed
      → IsGranted req
  unfolding check_access
  check_access-IsGranted conf req e f h =
      check_credentials-IsGranted conf req.pin req.app_name req.api_token req.basic
        (not_open _ _ f (not_open _ _ e h))

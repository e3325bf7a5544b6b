-- ===== src/Controller/Changes.antt =====
-- services/controller.go: which requests change the agent and its queue.
use tcg.Common.{◌≡◌, ◌⊎◌, inl, inr, refl, true, returns, panics, OnReturn, Option-cases}
use tcg.TransitService
use tcg.TransitService.{Result}
use tcg.Controller.{Env, Request, Configured, Access, allowed, disallowed, check_access}
use tcg.Controller.Routes.{
  Server, Served, Route, config_route, downtime_clear, downtime_set, events_route, events_ack,
  events_unack, inventory_route, metrics_route, list_metrics_route, reset_nats_route, start_route,
  stop_route, identity_route, stats_route, status_route, version_route, entrypoint, Call, status,
  agent_identity, handler, is_private, guarded, serve,
}

abbrev pub IsServed {ℓ} : (Server → Type ℓ) → Served → Type ℓ
IsServed P o = OnReturn (λ r. P (r.1)) o

served_any : (P : Server → Type 0) (o : Served) → ((s : Server) → P s) → IsServed P o
served_any P (returns (r, s)) h = h s
served_any P panics h = tt

pub status-IsServed : (P : Server → Type 0) (s : Server) → P s → IsServed P (status s)
unfolding status
status-IsServed P s h = elim (Option-cases s.queue.busy) [
  | inl e ↦ rw (e, status) h
  | inr (t, e) ↦ rw (e, status) h
]

-- The server is the one before, or the access was allowed.
abbrev pub Unchanged : Server → Access → Server → Type 0
Unchanged s a t = (t ≡ s) ⊎ (a ≡ allowed)

guarded-Unchanged :
    (a : Access) (h : Server → Served) (s : Server) → IsServed (Unchanged s a) (guarded a h s)
guarded-Unchanged allowed h s = served_any (Unchanged s allowed) (h s) (λ t. inr refl)
guarded-Unchanged (disallowed e) h s = inl refl

module _ (env : Env) (conf : Configured) (req : Request) (transit : TransitService.Env)
    (call : Call) where
  abbrev access : Access
  access = check_access env conf req

  private-Unchanged :
      (route : Route) (s : Server)
      → is_private route ≡ true
      → IsServed (Unchanged s access) (serve env conf req transit call route s)
  unfolding serve
  private-Unchanged route s e = rw e (guarded-Unchanged access (handler transit call route) s)

  -- A request changes the agent or its queue only where checkAccess allowed it.
  pub serve-Unchanged :
      (route : Route) (s : Server)
      → IsServed (Unchanged s (check_access env conf req)) (serve env conf req transit call route s)
  unfolding serve is_private handler agent_identity
  serve-Unchanged config_route s = private-Unchanged config_route s refl
  serve-Unchanged downtime_clear s = private-Unchanged downtime_clear s refl
  serve-Unchanged downtime_set s = private-Unchanged downtime_set s refl
  serve-Unchanged events_route s = private-Unchanged events_route s refl
  serve-Unchanged events_ack s = private-Unchanged events_ack s refl
  serve-Unchanged events_unack s = private-Unchanged events_unack s refl
  serve-Unchanged inventory_route s = private-Unchanged inventory_route s refl
  serve-Unchanged metrics_route s = private-Unchanged metrics_route s refl
  serve-Unchanged list_metrics_route s = private-Unchanged list_metrics_route s refl
  serve-Unchanged reset_nats_route s = private-Unchanged reset_nats_route s refl
  serve-Unchanged start_route s = private-Unchanged start_route s refl
  serve-Unchanged stop_route s = private-Unchanged stop_route s refl
  serve-Unchanged identity_route s = inl refl
  serve-Unchanged stats_route s = inl refl
  serve-Unchanged status_route s = status-IsServed (Unchanged s access) s (inl refl)
  serve-Unchanged version_route s = inl refl
  serve-Unchanged (entrypoint h) s = private-Unchanged (entrypoint h) s refl

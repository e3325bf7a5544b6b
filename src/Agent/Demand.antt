-- ===== src/Agent/Demand.antt =====
-- services/agent.go, DemandConfig: the agent asks DalekServices for its configuration.
use tcg.Common.{
  inl, inr, ◌≡◌, refl, ap, ◌∙◌, subst, ℕ, zero, suc, ◌+◌, ◌*◌, ◌%◌, ◌≤◌, ◌<◌, Bool, true, false,
  not, ◌||◌, Option, none, some, List, [], ◌∷◌, String, All, length, arith, str_eq, Option-cases,
  if◌then◌else◌,
}
use tcg.Agent.{is_configured_agent_id}
use tcg.Clients.{Answer}
use tcg.Clients.Errors.{Error, wrapped, not_found}
use tcg.Clients.Reload.{reload}

-- demandConfigBackoff, in seconds.
unfoldable pub demand_config_backoff : ℕ → ℕ
demand_config_backoff i = (i % 4 + 1) * 5

-- How the loop ends.
pub data Ended : Type 0 where
  found unknown_agent : Ended

unfoldable pub is_not_found : Error → Bool
is_not_found (wrapped not_found text) = true
is_not_found _ = false

-- What an answer to Reload ends the loop with, if it does.
unfoldable pub ended_by : String → Answer → Option Ended
unfolding reload is_not_found
ended_by host answer = elim (reload host answer) [
  | none ↦ some found
  | some e ↦ if is_not_found e then some unknown_agent else none
]

abbrev waited : ℕ → Option (Ended × List ℕ) → Option (Ended × List ℕ)
waited w none = none
waited w (some (e, ws)) = some (e, w ∷ ws)

-- The loop from its round i on, with the waits; none where the fuel is used up before it ends.
unfoldable pub poll : String → (ℕ → Answer) → ℕ → ℕ → Option (Ended × List ℕ)
poll host answer zero i = none
poll host answer (suc fuel) i =
    let rest = poll host answer fuel (i + 1) in
    elim (ended_by host (answer i)) [
      | some e ↦ some (e, [])
      | none ↦ waited (demand_config_backoff i) rest
    ]

-- What DemandConfig does: it fails with its controller, waits for a configuration from elsewhere, or
-- starts the loop.
pub data Demand : Type 0 where
  fails : String → Demand
  awaits_push : Demand
  polls : Option (Ended × List ℕ) → Demand

unfoldable pub demand_config : Option String → String → String → (ℕ → Answer) → ℕ → Demand
unfolding is_configured_agent_id poll
demand_config failure agent_id host answer fuel = elim failure [
  | some e ↦ fails e
  | none ↦
      if not (is_configured_agent_id agent_id) || str_eq host ""
      then awaits_push
      else polls (poll host answer fuel 0)
]

abbrev pub Waits : List ℕ → Type 0
Waits = All (λ w. (5 ≤ w) × (w ≤ 20))

backoff_bounds : (i : ℕ) → (5 ≤ demand_config_backoff i) × (demand_config_backoff i ≤ 20)
unfolding demand_config_backoff
backoff_bounds i = (omega arith, omega arith)

module _ (host : String) (answer : ℕ → Answer) where
  poll-ended_by :
      (i fuel : ℕ) (e : Ended)
      → ended_by host (answer i) ≡ some e
      → poll host answer (suc fuel) i ≡ some (e, [])
  unfolding poll
  poll-ended_by i fuel e h = rw (h, poll) refl

  poll-waited :
      (i fuel : ℕ)
      → ended_by host (answer i) ≡ none
      → poll host answer (suc fuel) i
        ≡ waited (demand_config_backoff i) (poll host answer fuel (i + 1))
  unfolding poll
  poll-waited i fuel h = rw (h, poll) refl

  abbrev Settles : ℕ → ℕ → ℕ → Type 0
  Settles j i fuel =
      (end : Ended) × (waits : List ℕ) × (poll host answer fuel i ≡ some (end, waits))
      × (length waits ≤ j)
      × Waits waits

  Settles-next :
      (j i fuel : ℕ)
      → ended_by host (answer i) ≡ none
      → Settles j (i + 1) fuel
      → Settles (suc j) i (suc fuel)
  Settles-next j i fuel h (end, waits, p, n, w) = (
    end,
    demand_config_backoff i ∷ waits,
    poll-waited i fuel h ∙ ap (waited (demand_config_backoff i)) p,
    omega (arith, n),
    (backoff_bounds i, w),
  )

  poll_ends_from :
      (j i fuel : ℕ) (e : Ended)
      → ended_by host (answer (j + i)) ≡ some e
      → j < fuel
      → Settles j i fuel
  poll_ends_from j i zero e h l = absurd (omega arith)
  poll_ends_from zero i (suc fuel) e h l = (
    e,
    [],
    poll-ended_by i fuel e (subst (λ k. ended_by host (answer k) ≡ some e) (omega arith) h),
    omega arith,
    tt,
  )
  poll_ends_from (suc j) i (suc fuel) e h l = elim (Option-cases (ended_by host (answer i))) [
    | inr (f, g) ↦ (f, [], poll-ended_by i fuel f g, omega arith, tt)
    | inl g ↦ Settles-next j i fuel g (
        poll_ends_from j (i + 1) fuel e
          (subst (λ k. ended_by host (answer k) ≡ some e) (shift j i) h) (omega arith))
  ]
    where
      shift : (j i : ℕ) → suc j + i ≡ j + (i + 1)
      shift j i = omega arith

  -- Where some answer ends it, the loop ends after at most that many waits, each of 5 to 20 seconds.
  pub poll_ends :
      (k fuel : ℕ) (e : Ended)
      → ended_by host (answer k) ≡ some e
      → k < fuel
      → (end : Ended) × (waits : List ℕ) × (poll host answer fuel 0 ≡ some (end, waits))
        × (length waits ≤ k)
        × Waits waits
  poll_ends k fuel e h l =
      poll_ends_from k 0 fuel e (subst (λ n. ended_by host (answer n) ≡ some e) (omega arith) h) l

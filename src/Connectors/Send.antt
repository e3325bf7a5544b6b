-- ===== src/Connectors/Send.antt =====
-- connectors/connectors.go: SendMetrics and SendInventory, from the resources of a connector to the
-- transit service. JSON is an argument, and its failure none; the context is that of `env`.
use tcg.Common.{Option, none, some, List, [], String, Bytes, Outcome, returns, ◌>>=◌, ℕ}
use tcg.Agent.{Agent}
use tcg.Transit.Value.{FloatOps}
use tcg.Transit.Monitored.{MonitoredResource, InventoryResource, ResourceGroup, MetricsRequest}
use tcg.TransitService.{Env, Result, send_resource_with_metrics, synchronize_inventory}
use tcg.TransitService.Ext.{InventoryRequest}
use tcg.Connectors.Synthetic.{Evaluator, Run, ran, then_run, run_of, evaluate_resources}

-- What a call leaves: the agent, and whether JSON or the transit service failed.
pub data Posted : Type 0 where
  posted : Result → Posted
  not_marshalled : Agent → Posted

abbrev groups_of : Option (List ResourceGroup) → List ResourceGroup
groups_of none = []
groups_of (some gs) = gs

abbrev send_bytes : (Bytes → Agent → Outcome Result) → Agent → Option Bytes → Run Posted
send_bytes send a none = ran (not_marshalled a)
send_bytes send a (some b) = run_of (send b a >>= λ r. returns (posted r))

unfoldable pub send_metrics :
    Env
    → FloatOps
    → Evaluator
    → ℕ
    → (MetricsRequest → Option Bytes)
    → List MonitoredResource
    → Option (List ResourceGroup)
    → Agent
    → Run Posted
unfolding evaluate_resources send_resource_with_metrics
send_metrics env fp evaluate interval marshal resources groups a =
    then_run (evaluate_resources fp evaluate interval resources) (λ evaluated.
      send_bytes (send_resource_with_metrics env) a (
        marshal (record {
          context = env.tracer_context;
          resources = evaluated;
          groups = groups_of groups;
        })))

unfoldable pub send_inventory :
    Env
    → (InventoryRequest → Option Bytes)
    → List InventoryResource
    → List ResourceGroup
    → String
    → Agent
    → Run Posted
unfolding synchronize_inventory
send_inventory env marshal resources groups ownership a = send_bytes (synchronize_inventory env) a (
    marshal (record {
      context = env.tracer_context;
      ownership_type = ownership;
      resources = resources;
      groups = groups;
    }))

-- ===== src/Elastic/Lost.antt =====
-- connectors/elastic/elastic.go: what a collection loses, hits and groups.
use tcg.Common.{
  ℕ, ◌≡◌, inl, inr, refl, ap, sym, ◌∙◌, Bool, false, Option, none, some, List, [], ◌∷◌, String,
  Dict, Outcome, returns, panics, ◌>>=◌, OnReturn, Bool-cases, eq_iff,
}
use tcg.Transit.Value.{Timestamp}
use tcg.Connectors.Text.{Format}
use tcg.Elastic.{MetricDefinition, MonitoringState, update_hosts, update_all}
use tcg.Elastic.Hosts.{Es, StoredQuery, GwAnswers, ExtConfig, can, init_monitoring_state}
use tcg.Elastic.Resources.{to_transit_resources}
use tcg.Elastic.Kept.{collect_views-P}
use tcg.Elastic.Collect.{
  Collected, ElasticConnector, Collection, InventoryKey, Tick, or_failed, filtered_query,
  query_interval, count_each, collect_query, count_query, collect_queries, collect_stored_queries,
  collected, collect_metrics, inventory_key, groups_key, updated, ticked, if_monitored,
  periodic_handler,
}

-- The answers never call the field of the host names one that can be aggregated.
unfoldable pub Unaggregatable : Es → ExtConfig → Type 0
unfolding can
Unaggregatable es cfg =
    (indexes : List String) (fields : Dict Bool)
    → es.is_aggregatable (cfg.host_name_field ∷ []) indexes ≡ some fields
    → can fields cfg.host_name_field ≡ false

state-or_failed :
    {A : Type 0} (st : MonitoringState) (o : Option A) (f : A → Collected)
    → ((a : A) → o ≡ some a → (f a).state ≡ st)
    → (or_failed st o f).state ≡ st
state-or_failed st none f h = refl
state-or_failed st (some a) f h = h a refl

module _ (es : Es) (cfg : ExtConfig) (no : Unaggregatable es cfg) where
  state-count_query :
      (q : StoredQuery) (indexes : List String) (st : MonitoringState) (fields : Dict Bool)
      → can fields cfg.host_name_field ≡ false
      → (count_query es cfg q indexes st fields).state ≡ st
  unfolding count_query updated update_hosts update_all
  state-count_query q indexes st fields e = rw e (
      state-or_failed st
        (count_each
          (λ host_name.
            es.count_hits_for_host host_name cfg.host_name_field indexes (es.build_es_query q))
          st.hosts [])
        (λ result. updated q.title (query_interval es q.time_filter) st []) (λ result f. refl))

  state-collect_query :
      (q : StoredQuery) (st : MonitoringState) → (collect_query es cfg q st).state ≡ st
  unfolding collect_query Unaggregatable
  state-collect_query q st =
      let r = filtered_query cfg q in
      let indexes = es.retrieve_index_titles r in
      state-or_failed st (es.is_aggregatable (cfg.host_name_field ∷ []) indexes)
        (count_query es cfg r indexes st)
        (λ fields e. state-count_query r indexes st fields (no indexes fields e))

  state-collect_queries :
      (qs : List StoredQuery) (st : MonitoringState) → (collect_queries es cfg qs st).state ≡ st
  unfolding collect_queries
  state-collect_queries [] st = refl
  state-collect_queries (q ∷ qs) st = elim (Bool-cases ((collect_query es cfg q st).failed)) [
    | inl e ↦ rw e (state-collect_query q st)
    | inr e ↦ rw e (state-collect_queries qs _ ∙ state-collect_query q st)
  ]

  -- Where the field of the host names cannot be aggregated, the stored queries of a view change nothing
  -- of the state, whatever hits are counted host by host.
  pub state-collect_stored_queries :
      (titles : List String) (st : MonitoringState)
      → (collect_stored_queries es cfg titles st).state ≡ st
  unfolding collect_stored_queries
  state-collect_stored_queries titles st =
      state-collect_queries (es.retrieve_stored_queries titles) st

host_groups-collected :
    (es : Es) (answers : List GwAnswers) (c : ElasticConnector)
    → (collected es answers c).monitoring_state.host_groups ≡ []
unfolding collected init_monitoring_state update_hosts
host_groups-collected es answers c =
    let i = init_monitoring_state es answers c.done c.config c.monitoring_state in
    collect_views-P {P = λ st. st.host_groups ≡ []} (λ values name interval st h. h)
      (λ metrics st h. h) es i.config i.config.views i.state refl

-- What getInventoryHashSum hashes after a collection.
abbrev pub key_after : Es → List GwAnswers → ElasticConnector → InventoryKey
key_after es answers c = inventory_key (collected es answers c).monitoring_state

groups-key_after :
    (es : Es) (answers : List GwAnswers) (c : ElasticConnector)
    → (key_after es answers c).groups ≡ []
unfolding inventory_key
groups-key_after es answers c = ap groups_key (host_groups-collected es answers c)

key_of :
    (a b : InventoryKey) → a.hosts ≡ b.hosts → a.metrics ≡ b.metrics → a.groups ≡ b.groups → a ≡ b
key_of a b h m g i = record { hosts = h i; metrics = m i; groups = g i }

abbrev pub SendsNoInventory : Tick → Type 0
SendsNoInventory t = t.inventory ≡ none

inventory-ticked :
    (o : Option String) (sum : String) (c : ElasticConnector) (found : Collection)
    → o ≡ some sum
    → SendsNoInventory (ticked o sum c found)
inventory-ticked o sum c found e = rw (e, (eq_iff sum sum).1 refl) refl

OnReturn-ticked :
    {A : Type 0} (o : Outcome A) (sum : String) (c : ElasticConnector) (found : A → Collection)
    → (hash : InventoryKey → Option String) → hash (inventory_key c.monitoring_state) ≡ some sum
    → OnReturn SendsNoInventory (
        (o >>= λ a. returns (c, found a)) >>= λ (after, f).
        returns (ticked (hash (inventory_key after.monitoring_state)) sum after f))
OnReturn-ticked (returns a) sum c found hash e = inventory-ticked _ sum c (found a) e
OnReturn-ticked panics sum c found hash e = tt

OnReturn-if_monitored :
    (metrics : Dict MetricDefinition) (old : String) (c : ElasticConnector) (next : Outcome Tick)
    → OnReturn SendsNoInventory next
    → OnReturn SendsNoInventory (if_monitored metrics old c next)
OnReturn-if_monitored [] old c next h = refl
OnReturn-if_monitored (m ∷ ms) old c next h = h

module _ (es es2 : Es) (answers answers2 : List GwAnswers) (c c2 : ElasticConnector) where
  -- Where the hosts and metrics after two collections have the same names, what is hashed is the same
  -- whatever the groups of the hosts are, and a tick that makes the second collection with the
  -- checksum of the first sends no inventory, if it returns.
  pub regrouped_unnoticed :
      (fmt : Format) (now : Timestamp) (interval : ℕ) (hash : InventoryKey → Option String)
      → (sum : String) → (key_after es answers c).hosts ≡ (key_after es2 answers2 c2).hosts
      → (key_after es answers c).metrics ≡ (key_after es2 answers2 c2).metrics
      → hash (key_after es answers c) ≡ some sum
      → (key_after es answers c ≡ key_after es2 answers2 c2)
        × OnReturn SendsNoInventory (periodic_handler fmt now interval hash es2 answers2 sum c2)
  unfolding periodic_handler collect_metrics
  regrouped_unnoticed fmt now interval hash sum h m e =
      let same =
        key_of (key_after es answers c) (key_after es2 answers2 c2) h m
          (groups-key_after es answers c ∙ sym (groups-key_after es2 answers2 c2)) in
      (
        same,
        OnReturn-if_monitored c2.monitoring_state.metrics sum c2 _ (
            OnReturn-ticked
              (to_transit_resources fmt now interval (collected es2 answers2 c2).monitoring_state)
              sum (collected es2 answers2 c2) _ hash (ap hash (sym same) ∙ e)),
      )

-- ===== src/Elastic/Collect.antt =====
-- connectors/elastic/elastic.go and cmd.go: one collection. The state that CollectMetrics returns from
-- shares its maps with the connector's, but the groups that it builds are put in its own copy.
use tcg.Common.{
  ℕ, Bool, true, false, ◌&&◌, ◌||◌, Option, none, some, List, [], ◌∷◌, String, ℤ, Dict, Outcome,
  returns, ◌>>=◌, sort_texts, contains, lookup, insert, str_eq, if◌then◌else◌,
}
use tcg.Transit.Value.{Timestamp, TimeInterval}
use tcg.Transit.Monitored.{MonitoredResource, InventoryResource, ResourceGroup}
use tcg.Connectors.Metric.{name_of}
use tcg.Connectors.Text.{Format}
use tcg.Elastic.{
  MetricDefinition, MonitoringHost, MonitoringState, Names, Groups, no_state, update_hosts,
  to_resource_groups,
}
use tcg.Elastic.Resources.{to_transit_resources}
use tcg.Elastic.Hosts.{
  Es, TimeFilter, StoredQuery, GwAnswers, ExtConfig, can, init_monitoring_state,
}

-- What a loop leaves: the state, and whether an error stopped it.
pub record Collected : Type 0 where
  pub state : MonitoringState
  pub failed : Bool

unfoldable pub count_each : (String → Option ℤ) → Dict MonitoringHost → Dict ℤ → Option (Dict ℤ)
unfolding insert
count_each count [] result = some result
count_each count ((host_name, h) ∷ hosts) result = elim (count host_name) [
  | none ↦ none
  | some hits ↦ count_each count hosts (insert host_name hits result)
]

-- What an error leaves, and what an answer does.
abbrev pub or_failed : {A : Type 0} → MonitoringState → Option A → (A → Collected) → Collected
or_failed st none f = record { state = st; failed = true }
or_failed st (some a) f = f a

abbrev pub filtered_query : ExtConfig → StoredQuery → StoredQuery
filtered_query cfg q =
    if cfg.override_time_filter
    then record q { time_filter = some cfg.custom_time_filter }
    else elim q.time_filter [
      | none ↦ record q { time_filter = some cfg.custom_time_filter }
      | some f ↦ q
    ]

abbrev pub query_interval : Es → Option TimeFilter → Option TimeInterval
query_interval es none = none
query_interval es (some f) = es.to_time_interval f

unfoldable pub updated : String → Option TimeInterval → MonitoringState → Dict ℤ → Collected
unfolding update_hosts
updated title interval st result = record {
  state = update_hosts result title interval st;
  failed = false;
}

-- retrieveMonitoredServiceNames
unfoldable pub retrieve_monitored_service_names : String → Dict MetricDefinition → List String
retrieve_monitored_service_names view [] = []
retrieve_monitored_service_names view ((key, m) ∷ metrics) =
    let rest = retrieve_monitored_service_names view metrics in
    if str_eq m.service_type view && m.monitored then m.name ∷ rest else rest

-- maps.Copy
unfoldable pub copy_metrics : Dict MetricDefinition → Dict MetricDefinition → Dict MetricDefinition
unfolding insert
copy_metrics [] into = into
copy_metrics ((key, m) ∷ metrics) into = copy_metrics metrics (insert key m into)

module _ (es : Es) (cfg : ExtConfig) where
  -- The hits of the one branch reach the state; those counted host by host are put in a map of the
  -- inner block, and the outer one stays nil.
  unfoldable pub count_query : StoredQuery → List String → MonitoringState → Dict Bool → Collected
  unfolding can count_each updated
  count_query q indexes st fields =
      let query = es.build_es_query q in
      let interval = query_interval es q.time_filter in
      let field = cfg.host_name_field in
      if can fields field
      then or_failed st (es.count_hits field indexes query) (updated q.title interval st)
      else or_failed st
          (count_each (λ host_name. es.count_hits_for_host host_name field indexes query) st.hosts
            [])
          (λ result. updated q.title interval st [])

  unfoldable pub collect_query : StoredQuery → MonitoringState → Collected
  unfolding count_query
  collect_query stored st =
      let q = filtered_query cfg stored in
      let indexes = es.retrieve_index_titles q in
      or_failed st (es.is_aggregatable (cfg.host_name_field ∷ []) indexes)
        (count_query q indexes st)

  unfoldable pub collect_queries : List StoredQuery → MonitoringState → Collected
  unfolding collect_query
  collect_queries [] st = record { state = st; failed = false }
  collect_queries (q ∷ qs) st =
      let r = collect_query q st in
      let rest = collect_queries qs r.state in if r.failed then r else rest

  unfoldable pub collect_stored_queries : List String → MonitoringState → Collected
  unfolding collect_queries
  collect_stored_queries titles st = collect_queries (es.retrieve_stored_queries titles) st

  unfoldable pub collect_view : String → Dict MetricDefinition → MonitoringState → Collected
  unfolding copy_metrics retrieve_monitored_service_names collect_stored_queries
  collect_view view metrics st =
      let copied = record st { metrics = copy_metrics metrics st.metrics } in
      if str_eq view "storedQueries"
      then collect_stored_queries (retrieve_monitored_service_names "storedQueries" metrics) copied
      else record { state = copied; failed = false }

  unfoldable pub collect_views : Dict (Dict MetricDefinition) → MonitoringState → MonitoringState
  unfolding collect_view
  collect_views [] st = st
  collect_views ((view, metrics) ∷ views) st =
      let r = collect_view view metrics st in
      let rest = collect_views views r.state in if r.failed then r.state else rest

-- The connector, with what doOnce remembers.
pub record ElasticConnector : Type 0 where
  pub config : ExtConfig
  pub done : Bool
  pub monitoring_state : MonitoringState

-- What LoadConfig leaves where the clients can be made; otherwise it leaves the connector alone.
unfoldable pub load_config :
    Option Es → List GwAnswers → ExtConfig → ElasticConnector → ElasticConnector
unfolding init_monitoring_state
load_config none answers cfg c = c
load_config (some es) answers cfg c =
    let i = init_monitoring_state es answers c.done cfg no_state in
    record { config = i.config; done = i.done; monitoring_state = i.state }

-- The connector after CollectMetrics: its state lacks the groups that are returned.
unfoldable pub collected : Es → List GwAnswers → ElasticConnector → ElasticConnector
unfolding init_monitoring_state collect_views
collected es answers c =
    let i = init_monitoring_state es answers c.done c.config c.monitoring_state in
    record {
      config = i.config;
      done = i.done;
      monitoring_state = collect_views es i.config i.config.views i.state;
    }

-- What CollectMetrics returns.
pub record Collection : Type 0 where
  pub resources : List MonitoredResource
  pub inventory : List InventoryResource
  pub groups : List ResourceGroup

unfoldable pub collect_metrics :
    Format
    → Timestamp
    → ℕ
    → Es
    → List GwAnswers
    → ElasticConnector
    → Outcome (ElasticConnector × Collection)
unfolding collected to_resource_groups to_transit_resources
collect_metrics fmt now interval es answers c =
    let after = collected es answers c in
    to_transit_resources fmt now interval after.monitoring_state >>= λ (monitored, inventory).
    returns (
      after,
      record {
        resources = monitored;
        inventory = inventory;
        groups = to_resource_groups after.monitoring_state;
      },
    )

abbrev matching : String → List StoredQuery → List String
unfolding contains
matching name [] = []
matching name (q ∷ qs) =
    let rest = matching name qs in
    if str_eq name "" || contains q.title name then q.title ∷ rest else rest

-- ListSuggestions, of the client's root.
unfoldable pub list_suggestions : Es → String → String → String → List String
unfolding matching
list_suggestions es api_root view name =
    if str_eq api_root ""
    then []
    else if str_eq view "storedQueries"
    then matching name (es.retrieve_stored_queries [])
    else []

-- What getInventoryHashSum hashes.
pub record InventoryKey : Type 0 where
  pub hosts : List String
  pub metrics : List String
  pub groups : Dict (List String)

abbrev pub keys {ℓ} : {A : Type ℓ} → Dict A → List String
keys [] = []
keys ((k, v) ∷ rest) = k ∷ keys rest

abbrev metric_names : Dict MetricDefinition → List String
unfolding name_of
metric_names [] = []
metric_names ((k, m) ∷ rest) = name_of k m.custom_name ∷ metric_names rest

abbrev members_of : Option Names → List String
unfolding sort_texts
members_of none = []
members_of (some hosts) = sort_texts (keys hosts)

abbrev sorted_groups : List String → Groups → Dict (List String)
unfolding lookup
sorted_groups [] groups = []
sorted_groups (g ∷ gs) groups = insert g (members_of (lookup g groups)) (sorted_groups gs groups)

unfoldable pub groups_key : Groups → Dict (List String)
unfolding sort_texts sorted_groups
groups_key groups = sorted_groups (sort_texts (keys groups)) groups

unfoldable pub inventory_key : MonitoringState → InventoryKey
unfolding sort_texts groups_key metric_names
inventory_key st = record {
  hosts = sort_texts (keys st.hosts);
  metrics = sort_texts (metric_names st.metrics);
  groups = groups_key st.host_groups;
}

-- What a tick of the loop leaves: the connector, the checksum, the inventory that it sends, if it does,
-- and the metrics.
pub record Tick : Type 0 where
  pub connector : ElasticConnector
  pub checksum : String
  pub inventory : Option (List InventoryResource × List ResourceGroup)
  pub metrics : Option (List MonitoredResource)

-- A checksum that is none is an error; before the first one the old checksum is the empty text.
abbrev pub ticked : Option String → String → ElasticConnector → Collection → Tick
ticked none old c found = record {
  connector = c;
  checksum = old;
  inventory = some (found.inventory, found.groups);
  metrics = some found.resources;
}
ticked (some new) old c found = record {
  connector = c;
  checksum = new;
  inventory = if str_eq old new then none else some (found.inventory, found.groups);
  metrics = some found.resources;
}

-- A tick does nothing where there are no metrics.
abbrev pub if_monitored :
    Dict MetricDefinition → String → ElasticConnector → Outcome Tick → Outcome Tick
if_monitored [] old c next =
    returns (record { connector = c; checksum = old; inventory = none; metrics = none })
if_monitored (m ∷ ms) old c next = next

unfoldable pub periodic_handler :
    Format
    → Timestamp
    → ℕ
    → (InventoryKey → Option String)
    → Es
    → List GwAnswers
    → String
    → ElasticConnector
    → Outcome Tick
unfolding collect_metrics inventory_key
periodic_handler fmt now interval hash es answers old c =
    if_monitored c.monitoring_state.metrics old c (
      collect_metrics fmt now interval es answers c >>= λ (after, found).
      returns (ticked (hash (inventory_key after.monitoring_state)) old after found))

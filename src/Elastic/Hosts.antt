-- ===== src/Elastic/Hosts.antt =====
-- connectors/elastic/model.go: the hosts at the start of a collection, which come from GroundWork once,
-- from the state before and from Elasticsearch. What the servers answer to requests while one call
-- runs is `Es` and `GwAnswers`; an error is none.
use Prim.Native.String.{◌++◌ as join}
use tcg.Common.{
  Bool, true, false, not, ◌&&◌, Option, none, some, List, [], ◌∷◌, ◌++◌, String, ℤ, pos, ℕ, Dict,
  has_suffix, lookup, insert, if◌then◌else◌,
}
use tcg.Transit.Value.{TimeInterval}
use tcg.Elastic.{MetricDefinition, MonitoringService, MonitoringHost, MonitoringState}

pub record TimeFilter : Type 0 where
  pub from : String
  pub to : String

-- A stored query: its title, its time filter and what else it holds, as text.
pub record StoredQuery : Type 0 where
  pub title : String
  pub time_filter : Option TimeFilter
  pub body : String

-- A key of the hosts in Elasticsearch.
pub record AggregationKey : Type 0 where
  pub host : String
  pub host_group : Option String

-- The clients of Elasticsearch and Kibana: fields and indexes to what of the fields can be aggregated;
-- a host and a group field to keys; the host field, indexes and a query to hits, in all and of a host.
pub record Es : Type 0 where
  pub is_aggregatable : List String → List String → Option (Dict Bool)
  pub get_hosts : String → Option String → List AggregationKey
  pub count_hits : String → List String → String → Option (Dict ℤ)
  pub count_hits_for_host : String → String → List String → String → Option ℤ
  pub retrieve_stored_queries : List String → List StoredQuery
  pub retrieve_index_titles : StoredQuery → List String
  pub build_es_query : StoredQuery → String
  pub to_time_interval : TimeFilter → Option TimeInterval

pub record GwHostGroup : Type 0 where
  pub name : String
  pub hosts : List String

-- The answers of one GroundWork connection: the hosts of the agent's services, and the groups of hosts.
pub record GwAnswers : Type 0 where
  pub services : Option (List String)
  pub host_groups : List String → Option (List GwHostGroup)

-- `check_interval` is in nanoseconds.
pub record ExtConfig : Type 0 where
  pub custom_time_filter : TimeFilter
  pub override_time_filter : Bool
  pub host_name_field : String
  pub host_group_field : String
  pub group_name_by_user : Bool
  pub check_interval : ℕ
  pub views : Dict (Dict MetricDefinition)

abbrev pub new_host : String → List String → MonitoringHost
new_host name groups = record { name = name; services = []; host_groups = groups }

-- The hosts with those that are new, and the names of these.
unfoldable pub add_gw_services :
    List String → Dict MonitoringHost → Dict MonitoringHost × List String
unfolding lookup insert
add_gw_services [] hosts = (hosts, [])
add_gw_services (n ∷ ns) hosts = elim (lookup n hosts) [
  | none ↦ (let r = add_gw_services ns (insert n (new_host n []) hosts) in (r.0, n ∷ r.1))
  | some h ↦ add_gw_services ns hosts
]

abbrev pub in_group : String → MonitoringHost → MonitoringHost
in_group group h = record h { host_groups = h.host_groups ++ group ∷ [] }

unfoldable pub add_gw_hosts : String → List String → Dict MonitoringHost → Dict MonitoringHost
unfolding lookup insert
add_gw_hosts group [] hosts = hosts
add_gw_hosts group (n ∷ ns) hosts =
    add_gw_hosts group ns
      (elim (lookup n hosts) [ none ↦ hosts | some h ↦ insert n (in_group group h) hosts ])

unfoldable pub add_gw_groups : List GwHostGroup → Dict MonitoringHost → Dict MonitoringHost
unfolding add_gw_hosts
add_gw_groups [] hosts = hosts
add_gw_groups (g ∷ gs) hosts = add_gw_groups gs (add_gw_hosts g.name g.hosts hosts)

-- Only the groups of hosts that are new are asked for.
unfoldable pub with_groups : GwAnswers → Dict MonitoringHost × List String → Dict MonitoringHost
unfolding add_gw_groups
with_groups a (hosts, []) = hosts
with_groups a (hosts, n ∷ ns) = elim (a.host_groups (n ∷ ns)) [
  | none ↦ hosts
  | some gs ↦ add_gw_groups gs hosts
]

unfoldable pub init_gw_hosts : List GwAnswers → Dict MonitoringHost → Dict MonitoringHost
unfolding add_gw_services with_groups
init_gw_hosts [] hosts = hosts
init_gw_hosts (a ∷ rest) hosts =
    init_gw_hosts rest
      (elim a.services [ none ↦ hosts | some names ↦ with_groups a (add_gw_services names hosts) ])

-- A field that the map lacks cannot be aggregated; nor can any after an error that is dropped.
abbrev pub is_true : Option Bool → Bool
is_true none = false
is_true (some b) = b

abbrev fields_of : Option (Dict Bool) → Dict Bool
fields_of none = []
fields_of (some d) = d

unfoldable pub can : Dict Bool → String → Bool
unfolding lookup
can d field = is_true (lookup field d)

-- The field to ask for in place of one that cannot be aggregated.
unfoldable pub keyword_of : Dict Bool → String → String
unfolding can has_suffix
keyword_of d field =
    if not (can d field) && not (has_suffix field ".keyword") then join field ".keyword" else field

abbrev needs_keyword : Dict Bool → String → Bool
unfolding can has_suffix
needs_keyword d field = not (can d field) && not (has_suffix field ".keyword")

abbrev with_field : String → Option String → List String
with_field host none = host ∷ []
with_field host (some group) = host ∷ group ∷ []

abbrev map_field : (String → String) → Option String → Option String
map_field f none = none
map_field f (some group) = some (f group)

-- A test of the group field, where there is one.
abbrev all_of : (String → Bool) → Option String → Bool
all_of test none = true
all_of test (some group) = test group

-- The fields for the hosts and their groups, none where one of them cannot be aggregated.
unfoldable pub aggregatable_fields : Es → String → Option String → Option (String × Option String)
unfolding can keyword_of has_suffix
aggregatable_fields es host group = elim (es.is_aggregatable (with_field host group) []) [
  | none ↦ none
  | some d ↦
      (let new_host_field = keyword_of d host in
        let new_group_field = map_field (keyword_of d) group in
        if not (needs_keyword d host) && all_of (λ g. not (needs_keyword d g)) group
        then some (new_host_field, new_group_field)
        else let again =
            fields_of (es.is_aggregatable (with_field new_host_field new_group_field) []) in
          if can again new_host_field && all_of (can again) new_group_field
          then some (new_host_field, new_group_field)
          else none)
]

abbrev pub with_key_group : Option String → MonitoringHost → MonitoringHost
with_key_group none h = h
with_key_group (some g) h = in_group g h

unfoldable pub add_keys :
    ExtConfig → List AggregationKey → Dict MonitoringHost → Dict MonitoringHost
unfolding lookup insert
add_keys cfg [] hosts = hosts
add_keys cfg (key ∷ keys) hosts = add_keys cfg keys (elim (lookup key.host hosts) [
  | some h ↦
      (if cfg.group_name_by_user
        then hosts
        else insert key.host (with_key_group key.host_group h) hosts)
  | none ↦
      insert key.host
        (if cfg.group_name_by_user
          then new_host key.host (cfg.host_group_field ∷ [])
          else with_key_group key.host_group (new_host key.host []))
        hosts
])

abbrev group_field : String → Option String → String
group_field old none = old
group_field old (some new) = new

-- The hosts of the keys, and the configuration, which keeps the fields that were found.
unfoldable pub with_fields :
    Es → ExtConfig → Option (String × Option String) → Dict MonitoringHost × ExtConfig
unfolding add_keys
with_fields es cfg none = ([], cfg)
with_fields es cfg (some (host, group)) =
    let found = record cfg {
      host_name_field = host;
      host_group_field = group_field cfg.host_group_field group;
    } in
    (add_keys found (es.get_hosts host group) [], found)

unfoldable pub init_es_hosts : Es → ExtConfig → Dict MonitoringHost × ExtConfig
unfolding aggregatable_fields with_fields
init_es_hosts es cfg =
    let asked = if cfg.group_name_by_user then none else some cfg.host_group_field in
    with_fields es cfg (aggregatable_fields es cfg.host_name_field asked)

unfoldable pub put_host : Dict MonitoringHost → Dict MonitoringHost → Dict MonitoringHost
unfolding insert
put_host [] hosts = hosts
put_host ((k, h) ∷ more) hosts = put_host more (insert h.name h hosts)

unfoldable pub monitored_of : Dict MetricDefinition → Dict MetricDefinition → Dict MetricDefinition
unfolding insert
monitored_of [] kept = kept
monitored_of ((name, m) ∷ rest) kept =
    monitored_of rest (if m.monitored then insert name m kept else kept)

unfoldable pub monitored_metrics :
    Dict (Dict MetricDefinition) → Dict MetricDefinition → Dict MetricDefinition
unfolding monitored_of
monitored_metrics [] kept = kept
monitored_metrics ((view, metrics) ∷ views) kept =
    monitored_metrics views (monitored_of metrics kept)

abbrev pub no_hits : String → MonitoringService
no_hits name = record { name = name; hits = pos 0; time_interval = none }

unfoldable pub no_services : Dict MetricDefinition → Dict MonitoringService
no_services [] = []
no_services ((name, m) ∷ rest) = (name, no_hits name) ∷ no_services rest

abbrev pub nullified : Dict MetricDefinition → MonitoringHost → MonitoringHost
nullified metrics h = record h { services = no_services metrics }

unfoldable pub nullify_services :
    Dict MetricDefinition → Dict MonitoringHost → Dict MonitoringHost → Dict MonitoringHost
unfolding insert no_services
nullify_services metrics [] hosts = hosts
nullify_services metrics ((k, h) ∷ rest) hosts =
    nullify_services metrics rest (insert h.name (nullified metrics h) hosts)

-- The hosts of GroundWork; `done` is what doOnce remembers.
abbrev pub gw_hosts : Bool → List GwAnswers → Dict MonitoringHost
gw_hosts done answers = if done then [] else init_gw_hosts answers []

-- The new state, the configuration, and that the hosts of GroundWork have been asked for.
pub record Initialized : Type 0 where
  pub state : MonitoringState
  pub config : ExtConfig
  pub done : Bool

unfoldable pub init_monitoring_state :
    Es → List GwAnswers → Bool → ExtConfig → MonitoringState → Initialized
unfolding monitored_metrics init_gw_hosts put_host init_es_hosts nullify_services
init_monitoring_state es answers done cfg previous =
    let metrics = monitored_metrics cfg.views [] in
    let found = init_es_hosts es cfg in
    let hosts = put_host (found.0) (put_host previous.hosts (gw_hosts done answers)) in
    record {
      state = record {
        metrics = metrics;
        hosts = nullify_services metrics hosts hosts;
        host_groups = [];
      };
      config = found.1;
      done = true;
    }

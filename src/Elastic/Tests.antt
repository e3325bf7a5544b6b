-- ===== src/Elastic/Tests.antt =====
-- connectors/elastic on a host with one service and given answers.
use tcg.Common.{
  map, ℤ, ltb, leb, ◌==◌, decimal, ◌≡◌, refl, ap, sym, Bool, true, false, ◌||◌, Option, none, some,
  List, [], ◌∷◌, String, pos, negsuc, Dict, Outcome, returns, OnReturn, lookup,
}
use tcg.Transit.Value.{Float64, Timestamp, query}
use tcg.Connectors.Text.{Format}
use tcg.Transit.Monitored.{MonitoredResource, InventoryResource}
use tcg.Elastic.{MetricDefinition, MonitoringHost, MonitoringState, build_groups, grouped_hosts}
use tcg.Elastic.Hosts.{
  Es, GwAnswers, ExtConfig, can, gw_hosts, no_hits, aggregatable_fields, init_es_hosts,
  init_monitoring_state,
}
use tcg.Elastic.Collect.{
  ElasticConnector, collect_stored_queries, collected, InventoryKey, inventory_key,
  periodic_handler, count_each,
}
use tcg.Elastic.Resources.{to_transit_resources, minus}
use tcg.Elastic.Setup.{replace_interval_template, servers_of, kibana_server, ownership_of}
use tcg.Elastic.Grouped.{is_member, build_groups_lem}
use tcg.Elastic.Keyed.{IsKeyed}
use tcg.Elastic.Started.{IsNullified, knows, init_monitoring_state_lem}
use tcg.Elastic.Lost.{
  Unaggregatable, state-collect_stored_queries, SendsNoInventory, key_after, regrouped_unnoticed,
}

abbrev errors : MetricDefinition
errors = record {
  name = "errors";
  custom_name = "";
  monitored = true;
  compute_type = query;
  service_type = "storedQueries";
  warning_threshold = pos 5;
  critical_threshold = pos 9;
  expression = "";
}

abbrev cfg : ExtConfig
cfg = record {
  custom_time_filter = record { from = "now-$interval"; to = "now" };
  override_time_filter = false;
  host_name_field = "host";
  host_group_field = "group";
  group_name_by_user = false;
  check_interval = 120000000000;
  views = ("storedQueries", ("errors", errors) ∷ []) ∷ [];
}

-- The host field cannot be aggregated, and each host has seven hits.
abbrev counted : Es
counted = record {
  is_aggregatable = λ fields indexes. some (("host", false) ∷ []);
  get_hosts = λ field group. [];
  count_hits = λ field indexes q. none;
  count_hits_for_host = λ host field indexes q. some (pos 7);
  retrieve_stored_queries =
      λ titles. (record { title = "errors"; time_filter = none; body = "" }) ∷ [];
  retrieve_index_titles = λ q. "logs" ∷ [];
  build_es_query = λ q. "";
  to_time_interval = λ f. none;
}

-- Every field can be aggregated, and there is one host, of the group `shop`.
abbrev aggregated : Es
aggregated = record counted {
  is_aggregatable = λ fields indexes. some (("host", true) ∷ ("group", true) ∷ []);
  get_hosts = λ field group. (record { host = "box"; host_group = some "shop" }) ∷ [];
  count_hits = λ field indexes q. some (("box", pos 7) ∷ ("other", pos 8) ∷ []);
}

abbrev box : MonitoringHost
box = record {
  name = "box";
  services = ("errors", no_hits "errors") ∷ [];
  host_groups = "" ∷ "shop" ∷ [];
}

abbrev st : MonitoringState
st = record { metrics = ("errors", errors) ∷ []; hosts = ("box", box) ∷ []; host_groups = [] }

abbrev connector : ElasticConnector
connector = record { config = cfg; done = true; monitoring_state = st }

abbrev answers : GwAnswers
answers = record {
  services = some ("old" ∷ "old" ∷ []);
  host_groups = λ names. some ((record { name = "past"; hosts = names }) ∷ []);
}

build_groups_lem_example : is_member "box" "shop" ((build_groups st).host_groups) ≡ true
build_groups_lem_example = build_groups_lem "box" "shop" st

init_monitoring_state_lem_example :
    let started = (init_monitoring_state aggregated (answers ∷ []) false cfg st).state in
    IsKeyed started.hosts
    × IsNullified started.metrics (lookup "old" started.hosts)
    × (knows "old" started.hosts ≡ (
        knows "old" ((init_es_hosts aggregated cfg).0)
        || (knows "old" st.hosts || knows "old" (gw_hosts false (answers ∷ [])))))
init_monitoring_state_lem_example =
    init_monitoring_state_lem aggregated (answers ∷ []) false cfg st "old" (refl, tt)

abbrev fields_or : Option (Dict Bool) → Dict Bool
fields_or none = []
fields_or (some d) = d

counted-Unaggregatable : Unaggregatable counted cfg
unfolding Unaggregatable can lookup
counted-Unaggregatable indexes fields e = ap (λ o. can (fields_or o) "host") (sym e)

state-collect_stored_queries_example :
    (collect_stored_queries counted cfg ("errors" ∷ []) st).state ≡ st
state-collect_stored_queries_example =
    state-collect_stored_queries counted cfg counted-Unaggregatable ("errors" ∷ []) st

-- Those hits would have been counted.
hits_are_counted :
    count_each (λ host_name. counted.count_hits_for_host host_name "host" [] "") st.hosts []
    ≡ some (("box", pos 7) ∷ [])
unfolding count_each
hits_are_counted = refl

abbrev number_of : ℤ → Float64
number_of (pos n) = record { bits = n }
number_of (negsuc n) = record { bits = 0 }

abbrev fmt : Format
fmt = record {
  fp = record {
    of_int = number_of;
    lt = λ a b. ltb a.bits b.bits;
    le = λ a b. leb a.bits b.bits;
    eq = λ a b. a.bits == b.bits;
    of_float32 = λ n. record { bits = n };
  };
  float_text = λ x. decimal x.bits;
  parse_float = λ s. none;
  find_patterns = λ s. "{value}" ∷ "{interval}" ∷ [];
}

abbrev now : Timestamp
now = record { unix_nano = pos 1000 }

-- The host of `aggregated` in another group.
abbrev regrouped : Es
regrouped = record aggregated {
  get_hosts = λ field group. (record { host = "box"; host_group = some "store" }) ∷ [];
}

abbrev hash : InventoryKey → Option String
hash k = elim k.groups [ [] ↦ some "none" | g ∷ gs ↦ some "some" ]

same_hosts : (key_after aggregated [] connector).hosts ≡ (key_after regrouped [] connector).hosts
unfolding inventory_key collected
same_hosts = refl

same_metrics :
    (key_after aggregated [] connector).metrics ≡ (key_after regrouped [] connector).metrics
unfolding inventory_key collected
same_metrics = refl

its_hash : hash (key_after aggregated [] connector) ≡ some "none"
unfolding inventory_key collected
its_hash = refl

regrouped_unnoticed_example :
    (key_after aggregated [] connector ≡ key_after regrouped [] connector)
    × OnReturn SendsNoInventory
        (periodic_handler fmt now 120000000000 hash regrouped [] "none" connector)
regrouped_unnoticed_example =
    regrouped_unnoticed aggregated regrouped [] [] connector connector fmt now 120000000000 hash
      "none" same_hosts same_metrics its_hash

another_group :
    grouped_hosts (collected regrouped [] connector).monitoring_state.hosts []
    ≡ ("store", ("box", tt) ∷ []) ∷ []
unfolding grouped_hosts collected
another_group = refl

-- The text of the service that this example sends.
abbrev texts : Outcome (List MonitoredResource × List InventoryResource) → List (List String)
texts (returns (r ∷ rs, is)) = map (λ s. s.monitored.last_plugin_output ∷ []) r.services
texts _ = []

sent_text :
    texts (
      to_transit_resources fmt now 120000000000
        (collected aggregated [] connector).monitoring_state)
    ≡ ("Query matched 7 messages in the last 2 minute(s)." ∷ []) ∷ []
unfolding to_transit_resources collected tcg.Transit.Status.pick_thresholds
    tcg.Transit.Status.calculate_status tcg.Transit.Status.threshold_number
    tcg.Transit.Status.status_of tcg.Transit.Status.weight
sent_text = refl

-- The collection of this example returns a group, and its hits are kept.
one_group :
    grouped_hosts (collected aggregated [] connector).monitoring_state.hosts []
    ≡ ("shop", ("box", tt) ∷ []) ∷ []
unfolding grouped_hosts collected
one_group = refl

seven_hits :
    (collected aggregated [] connector).monitoring_state.hosts
    ≡ (
      "box",
      record {
        name = "box";
        services = ("errors", record { name = "errors"; hits = pos 7; time_interval = none }) ∷ [];
        host_groups = "shop" ∷ [];
      },
    )
      ∷ []
unfolding collected
seven_hits = refl

-- A second connection that defers its ownership to no avail, and a first one that does.
first_ownership : ownership_of ("" ∷ "Take" ∷ []) "Yield" ≡ "Yield"
unfolding ownership_of
first_ownership = refl

all_ownership : ownership_of ("Take" ∷ "" ∷ []) "Yield" ≡ "Take"
unfolding ownership_of
all_ownership = refl

template : replace_interval_template "now-$interval" 120000000000 ≡ "now-120s"
unfolding replace_interval_template
template = refl

servers : servers_of "a:1,https://b" [] ≡ "http://a:1" ∷ "https://b" ∷ []
unfolding servers_of
servers = refl

kibana : kibana_server "k:5601" ≡ "http://k:5601/"
unfolding kibana_server
kibana = refl

difference : minus (negsuc 4) (pos 3) ≡ negsuc 7
unfolding minus
difference = refl

keyword_field : aggregatable_fields aggregated "name" (some "group") ≡ none
unfolding aggregatable_fields
keyword_field = refl

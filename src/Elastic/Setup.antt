-- ===== src/Elastic/Setup.antt =====
-- connectors/elastic/cmd.go and elastic.go: what configHandler makes of a received configuration.
use Prim.Native.String.{◌++◌ as join}
use tcg.Common.{
  ℕ, ◌/◌, not, ◌&&◌, ◌||◌, none, some, List, [], ◌∷◌, map, String, Dict, has_prefix, has_suffix,
  contains, replace_all, lookup, insert, decimal, str_eq, if◌then◌else◌,
}
use tcg.Nsca.{split_on}
use tcg.Elastic.{MetricDefinition}
use tcg.Elastic.Hosts.{ExtConfig}

-- The text of whole seconds in place of `$interval`.
unfoldable pub replace_interval_template : String → ℕ → String
unfolding contains replace_all decimal
replace_interval_template template interval =
    if contains template "$interval"
    then replace_all template "$interval" (join (decimal (interval / 1000000000)) "s")
    else template

unfoldable pub replace_interval_templates : ExtConfig → ExtConfig
unfolding replace_interval_template
replace_interval_templates cfg = record cfg {
  custom_time_filter = record {
    from = replace_interval_template cfg.custom_time_filter.from cfg.check_interval;
    to = replace_interval_template cfg.custom_time_filter.to cfg.check_interval;
  };
}

unfoldable pub with_protocol : String → String
unfolding has_prefix
with_protocol server = if has_prefix server "http" then server else join "http://" server

-- The servers of a connection, which keeps those that it has where it names none.
unfoldable pub servers_of : String → List String → List String
unfolding split_on with_protocol
servers_of server old = if str_eq server "" then old else map with_protocol (split_on 44 server)

unfoldable pub kibana_server : String → String
unfolding with_protocol has_suffix
kibana_server name =
    let server = with_protocol name in if has_suffix server "/" then server else join server "/"

unfoldable pub with_group_name : ExtConfig → ExtConfig
with_group_name cfg =
    if cfg.group_name_by_user
      && str_eq cfg.host_group_field "container.labels.com_docker_compose_project.keyword"
    then record cfg { host_group_field = "Elastic Search" }
    else cfg

unfoldable pub add_view_metric :
    MetricDefinition → Dict (Dict MetricDefinition) → Dict (Dict MetricDefinition)
unfolding lookup insert
add_view_metric m views =
    if str_eq m.name "$view_Template#" || not m.monitored
    then views
    else elim (lookup m.service_type views) [
      | none ↦ insert m.service_type ((m.name, m) ∷ []) views
      | some metrics ↦ insert m.service_type (insert m.name m metrics) views
    ]

unfoldable pub views_of :
    List MetricDefinition → Dict (Dict MetricDefinition) → Dict (Dict MetricDefinition)
unfolding add_view_metric
views_of [] views = views
views_of (m ∷ ms) views = views_of ms (add_view_metric m views)

-- The ownership: a connection that defers it makes that of the first connection hold.
unfoldable pub pick_ownership : String → List String → String → String
pick_ownership first [] old = old
pick_ownership first (d ∷ ds) old =
    let rest = pick_ownership first ds old in
    if str_eq d "" then rest else if str_eq first "" then rest else first

unfoldable pub ownership_of : List String → String → String
unfolding pick_ownership
ownership_of [] old = old
ownership_of (d ∷ ds) old = pick_ownership d (d ∷ ds) old

-- The configuration that LoadConfig is given.
unfoldable pub config_handler : List MetricDefinition → ExtConfig → ExtConfig
unfolding with_group_name views_of replace_interval_templates
config_handler metrics cfg =
    let named = with_group_name cfg in
    replace_interval_templates (record named { views = views_of metrics named.views })

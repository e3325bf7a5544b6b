-- ===== src/Elastic.antt =====
-- connectors/elastic/model.go: the hosts, their services and their groups. A range over a map takes the
-- entries in the order of the list, and a set is a map to Unit. Of a metric's definition the fields that
-- the connector reads are kept.
use tcg.Common.{
  Bool, Option, none, some, List, [], ◌∷◌, String, ℤ, Dict, lookup, insert, str_eq, if◌then◌else◌,
}
use tcg.Transit.Value.{TimeInterval, ComputeType}
use tcg.Transit.Monitored.{ResourceRef, ResourceGroup}
use tcg.Connectors.Build.{create_resource_ref, create_resource_group}
pub mod Hosts
pub mod Collect
pub mod Resources
pub mod Setup
pub mod Grouped
pub mod Keyed
pub mod Started
pub mod Kept
pub mod Lost
mod Tests

pub record MetricDefinition : Type 0 where
  pub name : String
  pub custom_name : String
  pub monitored : Bool
  pub compute_type : ComputeType
  pub service_type : String
  pub warning_threshold : ℤ
  pub critical_threshold : ℤ
  pub expression : String

pub record MonitoringService : Type 0 where
  pub name : String
  pub hits : ℤ
  pub time_interval : Option TimeInterval

pub record MonitoringHost : Type 0 where
  pub name : String
  pub services : Dict MonitoringService
  pub host_groups : List String

-- A set of hosts, and the sets by the names of their groups.
abbrev pub Names : Type 0
Names = Dict Unit

abbrev pub Groups : Type 0
Groups = Dict Names

pub record MonitoringState : Type 0 where
  pub metrics : Dict MetricDefinition
  pub hosts : Dict MonitoringHost
  pub host_groups : Groups

abbrev pub no_state : MonitoringState
no_state = record { metrics = []; hosts = []; host_groups = [] }

-- The interval of a service is the first that it is given.
abbrev pub updated_service : ℤ → Option TimeInterval → MonitoringService → MonitoringService
updated_service value interval s = record s {
  hits = value;
  time_interval = elim s.time_interval [ none ↦ interval | some i ↦ some i ];
}

unfoldable pub update_host :
    String → Option TimeInterval → String → ℤ → Dict MonitoringHost → Dict MonitoringHost
unfolding lookup insert
update_host service_name interval host_name value hosts = elim (lookup host_name hosts) [
  | none ↦ hosts
  | some h ↦ elim (lookup service_name h.services) [
    | none ↦ hosts
    | some s ↦
        insert host_name
          (record h {
            services = insert service_name (updated_service value interval s) h.services;
          })
          hosts
  ]
]

unfoldable pub update_all :
    Dict ℤ → String → Option TimeInterval → Dict MonitoringHost → Dict MonitoringHost
unfolding update_host
update_all [] service_name interval hosts = hosts
update_all ((host_name, value) ∷ values) service_name interval hosts =
    update_all values service_name interval
      (update_host service_name interval host_name value hosts)

unfoldable pub update_hosts :
    Dict ℤ → String → Option TimeInterval → MonitoringState → MonitoringState
unfolding update_all
update_hosts values service_name interval st = record st {
  hosts = update_all values service_name interval st.hosts;
}

unfoldable pub add_to_group : String → String → Groups → Groups
unfolding lookup insert
add_to_group host_name group groups =
    if str_eq group "" then groups else elim (lookup group groups) [
      | none ↦ insert group ((host_name, tt) ∷ []) groups
      | some hosts ↦ insert group (insert host_name tt hosts) groups
    ]

unfoldable pub add_to_groups : String → List String → Groups → Groups
unfolding add_to_group
add_to_groups host_name [] groups = groups
add_to_groups host_name (g ∷ gs) groups =
    add_to_groups host_name gs (add_to_group host_name g groups)

unfoldable pub grouped_hosts : Dict MonitoringHost → Groups → Groups
unfolding add_to_groups
grouped_hosts [] groups = groups
grouped_hosts ((host_name, h) ∷ hosts) groups =
    grouped_hosts hosts (add_to_groups host_name h.host_groups groups)

unfoldable pub build_groups : MonitoringState → MonitoringState
unfolding grouped_hosts
build_groups st = record st { host_groups = grouped_hosts st.hosts [] }

unfoldable pub host_refs : Names → List ResourceRef
unfolding create_resource_ref
host_refs [] = []
host_refs ((host_name, u) ∷ hosts) = create_resource_ref host_name "" "host" ∷ host_refs hosts

unfoldable pub group_resources : Groups → List ResourceGroup
unfolding create_resource_group host_refs
group_resources [] = []
group_resources ((group, hosts) ∷ groups) =
    create_resource_group group group "HostGroup" (host_refs hosts) ∷ group_resources groups

unfoldable pub to_resource_groups : MonitoringState → List ResourceGroup
unfolding build_groups group_resources
to_resource_groups st = group_resources ((build_groups st).host_groups)

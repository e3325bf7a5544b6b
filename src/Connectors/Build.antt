-- ===== src/Connectors/Build.antt =====
-- connectors/connectors.go: services with the text of their status, the other constructors, and names
-- made of clean characters.
use Prim.Native.String.{[] as empty, ◌∷◌ as after}
use Prim.Native.Char.{Char, char, code}
use tcg.Common.{
  ℕ, Bool, true, false, ◌&&◌, ◌||◌, Option, none, some, List, [], ◌∷◌, map, String, Outcome,
  returns, panics, ◌>>=◌, leb, ltb, ◌==◌, if◌then◌else◌,
}
use tcg.Transit.Value.{Timestamp}
use tcg.Transit.Status.{MonitorStatus}
use tcg.Transit.Monitored.{
  BaseInfo, InventoryService, InventoryResource, ResourceRef, ResourceGroup, MonitoredService,
}
use tcg.Connectors.Metric.{MetricBuilder}
use tcg.Connectors.Service.{metrics_arg, create_service, build_metrics, build_service_for_metric}
use tcg.Connectors.Text.{Format, add_service_status_text}

module _ (fmt : Format) (now : Timestamp) (interval : ℕ) where
  -- `messages` is the map of the texts for the statuses, empty where it has none.
  unfoldable pub build_service_for_metric_with_status_text :
      String → MetricBuilder → (MonitorStatus → String) → Outcome (Option MonitoredService)
  unfolding build_service_for_metric add_service_status_text
  build_service_for_metric_with_status_text host_name mb messages =
      build_service_for_metric fmt.fp now interval host_name mb >>= λ r. elim r [
        | none ↦ returns none
        | some svc ↦
            (add_service_status_text fmt interval (messages svc.monitored.status) svc >>= λ s.
            returns (some s))
      ]

  unfoldable pub build_service_for_metrics :
      String → String → List MetricBuilder → Outcome (Option MonitoredService)
  unfolding build_metrics create_service add_service_status_text
  build_service_for_metrics service_name host_name mbs =
      build_metrics fmt.fp now interval mbs >>= λ r. elim r [
        | none ↦ returns none
        | some ms ↦
            (create_service fmt.fp now interval service_name host_name (metrics_arg ms ∷ [])
              >>= λ c. elim c [
                | none ↦ returns none
                | some svc ↦ (add_service_status_text fmt interval "" svc >>= λ s. returns (some s))
              ])
      ]

abbrev inventory_info : String → String → String → BaseInfo
inventory_info name type owner = record {
  name = name;
  type = type;
  owner = owner;
  category = "";
  description = "";
  properties = [];
}

unfoldable pub create_inventory_service : String → String → InventoryService
create_inventory_service name owner = record { info = inventory_info name "service" owner }

unfoldable pub create_inventory_resource : String → List InventoryService → InventoryResource
create_inventory_resource name services = record {
  info = inventory_info name "host" "";
  device = "";
  services = services;
}

unfoldable pub create_resource_ref : String → String → String → ResourceRef
create_resource_ref name owner type = record { name = name; type = type; owner = owner }

unfoldable pub create_resource_group : String → String → String → List ResourceRef → ResourceGroup
create_resource_group name description type resources = record {
  group_name = name;
  type = type;
  description = description;
  resources = resources;
}

unfoldable pub fill_group_with_resources : ResourceGroup → List InventoryResource → ResourceGroup
fill_group_with_resources group resources = record group {
  resources = map (λ r. record { name = r.info.name; type = r.info.type; owner = "" }) resources;
}

-- MaxDuration
unfoldable pub max_duration : ℕ → List ℕ → ℕ
max_duration m [] = m
max_duration m (y ∷ ys) = max_duration (if ltb m y then y else m) ys

-- `[^\w-_.:]`: what is no ASCII letter, digit or one of - _ . : becomes _.
unfoldable pub is_clean : ℕ → Bool
is_clean n =
    ((leb 48 n && leb n 57) || (leb 65 n && leb n 90))
    || ((leb 97 n && leb n 122) || ((n == 95 || n == 45) || (n == 46 || n == 58)))

abbrev pub underscore : Char
underscore = char 95 tt

unfoldable pub clean : String → String
unfolding is_clean
clean empty = empty
clean (after c s) =
    let rest = clean s in if is_clean (code c) then after c rest else after underscore rest

-- removeUnderscoreDuplicates; `last` tells whether the last character was an underscore.
unfoldable pub remove_underscore_duplicates : Bool → String → String
remove_underscore_duplicates last empty = empty
remove_underscore_duplicates last (after c s) =
    let rest = remove_underscore_duplicates (code c == 95) s in
    if last && code c == 95 then rest else after c rest

abbrev pub has_no_text : String → Bool
has_no_text empty = true
has_no_text (after c s) = false

-- The text without its last character where that is an underscore; of the empty text, where the code
-- asks for the last character, it panics.
unfoldable pub trim_underscore : String → String
trim_underscore empty = empty
trim_underscore (after c s) =
    let rest = trim_underscore s in if has_no_text s && code c == 95 then empty else after c rest

unfoldable pub drop_last_underscore : String → Outcome String
unfolding trim_underscore
drop_last_underscore s = if has_no_text s then panics else returns (trim_underscore s)

unfoldable pub sanitize_string : String → Outcome String
unfolding clean remove_underscore_duplicates drop_last_underscore
sanitize_string s = drop_last_underscore (remove_underscore_duplicates false (clean s))

-- ===== src/Config/Load.antt =====
-- config/config.go: GetConfig and LoadConnectorDTO. The tests of GWEncode compare with ASCII text whose
-- letters no other letter is lowered to.
use tcg.Common.{
  Bool, true, false, not, ◌&&◌, ◌||◌, Option, none, some, List, [], ◌∷◌, String, ℤ, eq_ℤ, Bytes,
  map, str_eq, equal_fold, Outcome, returns, ◌>>=◌, if◌then◌else◌,
}
use tcg.Config.{Connector, GwConnection, Config, ConnectorDto, no_connection, defaults}
use tcg.Config.Logs.{init_logger}
use tcg.Logger.Writers.{Globals}

-- A pair of the advanced part of a connector: groundworkConnectionId and prefix.
pub record Prefix : Type 0 where
  pub gw_connection_id : ℤ
  pub prefix : String

-- `parse_yaml` sets what the text of a file gives, also where it fails, and `apply_env` what the
-- variables of the environment give. `read_config` is none where the file cannot be read, `is_pmc` the
-- test of INSTALLATION_MODE and `parent` PARENT_INSTANCE_NAME.
pub record Env : Type 0 where
  pub read_config : Option Bytes
  pub parse_yaml : Bytes → Config → Config
  pub marshal_yaml : Config → Option Bytes
  pub write_config : Bool
  pub apply_env : Config → Config
  pub decode_dto : Bytes → Option ConnectorDto
  pub decode_prefixes : Bytes → Option (List Prefix)
  pub is_pmc : Bool
  pub parent : String

-- GWConnections.UnmarshalYAML: a node is decoded into the item at its place, or into an empty one; what
-- is beyond the nodes stays.
unfoldable pub unmarshal_connections :
    List (GwConnection → Option GwConnection) → List GwConnection → Option (List GwConnection)
unmarshal_connections [] cc = some cc
unmarshal_connections (node ∷ nodes) [] = elim (node no_connection) [
  | none ↦ none
  | some c ↦ elim (unmarshal_connections nodes []) [ none ↦ none | some rest ↦ some (c ∷ rest) ]
]
unmarshal_connections (node ∷ nodes) (old ∷ cc) = elim (node old) [
  | none ↦ none
  | some c ↦ elim (unmarshal_connections nodes cc) [ none ↦ none | some rest ↦ some (c ∷ rest) ]
]

-- What GetConfig and LoadConnectorDTO do to every connection.
abbrev pub http_encoded : String → GwConnection → Bool
http_encoded gw_encode c =
    equal_fold gw_encode "FORCE" || (not (equal_fold gw_encode "OFF") && c.is_child)

unfoldable pub prepare : Connector → GwConnection → GwConnection
prepare conn c = record c {
  is_dynamic_inventory = conn.is_dynamic_inventory;
  http_encode = http_encoded conn.gw_encode c;
}

unfoldable pub prepare_all : Config → Config
unfolding prepare
prepare_all c = record c { gw_connections = map (prepare c.connector) c.gw_connections }

-- loadConnector, of what the data decode to.
unfoldable pub load_connector : ConnectorDto → Config → Config
load_connector dto c = record {
  connector = record (c.connector) {
    agent_id = dto.agent_id;
    app_name = dto.app_name;
    app_type = dto.app_type;
    log_level = dto.log_level;
    enabled = dto.enabled;
  };
  ds_host = if str_eq dto.ds_host "" then c.ds_host else dto.ds_host;
  gw_connections = dto.gw_connections;
}

abbrev pub fits : ℤ → Prefix → Bool
fits id p = eq_ℤ id p.gw_connection_id && not (str_eq p.prefix "")

-- loadAdvancedPrefixes, of what the data decode to.
unfoldable pub take_prefixes : List Prefix → GwConnection → GwConnection
take_prefixes [] c = c
take_prefixes (p ∷ ps) c = take_prefixes ps (
    if fits c.id p
    then record c { prefix_resource_names = true; resource_name_prefix = p.prefix }
    else c)

unfoldable pub load_prefix : List Prefix → GwConnection → GwConnection
unfolding take_prefixes
load_prefix ps c =
    take_prefixes ps (record c { prefix_resource_names = false; resource_name_prefix = "" })

unfoldable pub load_advanced_prefixes : List Prefix → Config → Config
unfolding load_prefix
load_advanced_prefixes ps c = record c { gw_connections = map (load_prefix ps) c.gw_connections }

unfoldable pub is_dynamic : String → Bool
is_dynamic app_type =
    str_eq app_type "CHECKER"
    || str_eq app_type "APM"
    || str_eq app_type "EVENTS"
    || str_eq app_type "TCGAZURE"
    || str_eq app_type "ORACLE"

unfoldable pub load_dynamic_inventory_flag : Config → Config
unfolding is_dynamic
load_dynamic_inventory_flag c = record c {
  connector = record (c.connector) { is_dynamic_inventory = is_dynamic c.connector.app_type };
}

-- What LoadConnectorDTO returns, the configuration, and the file where it was written.
pub record Loaded : Type 0 where
  pub dto : Option ConnectorDto
  pub config : Config
  pub written : Option Bytes
  pub globals : Globals

module _ (env : Env) where
  -- The defaults with what the file gives.
  unfoldable pub from_file : Config
  unfolding defaults
  from_file = elim env.read_config [ none ↦ defaults | some b ↦ env.parse_yaml b defaults ]

  unfoldable pub process_pmc : Config → Config
  process_pmc c =
      if env.is_pmc
      then record c {
        connector = record (c.connector) { installation_mode = "PARENT_MANAGED_CHILD" };
        ds_host = env.parent;
      }
      else c

  -- The configuration of GetConfig.
  unfoldable pub merged : Config
  unfolding from_file process_pmc prepare_all
  merged = prepare_all (process_pmc (env.apply_env from_file))

  -- GetConfig, the first time: it panics where initLogger does.
  unfoldable pub get_config : Globals → Outcome (Config × Globals)
  unfolding merged init_logger
  get_config g = init_logger merged g >>= λ h. returns (merged, h)

  -- The configuration that LoadConnectorDTO writes.
  unfoldable pub new_config : ConnectorDto → List Prefix → Config
  unfolding from_file load_connector load_advanced_prefixes load_dynamic_inventory_flag
  new_config dto ps =
      load_dynamic_inventory_flag (load_advanced_prefixes ps (load_connector dto from_file))

  -- The environment is read only where the configuration could be marshalled.
  unfoldable pub finished : Option Bytes → Config → Config
  unfolding process_pmc prepare_all
  finished output c =
      prepare_all (process_pmc (elim output [ none ↦ c | some b ↦ env.apply_env c ]))

  abbrev pub kept_output : Option Bytes → Option Bytes
  kept_output output = if env.write_config then output else none

  -- LoadConnectorDTO: it panics where initLogger does, on the new configuration.
  unfoldable pub load_connector_dto : Bytes → Config → Globals → Outcome Loaded
  unfolding new_config finished init_logger
  load_connector_dto text c g = elim (env.decode_dto text) [
    | none ↦ returns (record { dto = none; config = c; written = none; globals = g })
    | some dto ↦ elim (env.decode_prefixes text) [
      | none ↦ returns (record { dto = none; config = c; written = none; globals = g })
      | some ps ↦
          (let fresh = new_config dto ps in
            let output = env.marshal_yaml fresh in
            let new = finished output fresh in
            init_logger new g >>= λ h.
            returns
              (record { dto = some dto; config = new; written = kept_output output; globals = h }))
    ]
  ]

-- ===== src/Config/Tests.antt =====
-- config/config.go on given data.
use tcg.Common.{
  ◌≡◌, refl, true, none, some, List, [], ◌∷◌, map, pos, negsuc, str_eq, if◌then◌else◌, returns,
  panics, Outcome,
}
use tcg.Config.{Config, ConnectorDto, GwConnection, no_connection, defaults}
use tcg.Config.Load.{
  Env, Prefix, Loaded, load_connector_dto, is_dynamic, from_file, unmarshal_connections,
}
use tcg.Config.Logs.{init_logger}
use tcg.Config.Loaded.{IsOf, load_connector_dto_lem}
use tcg.Config.Prefixes.{loaded_connection}
use tcg.Logger.Recent.{held_history}
use tcg.Logger.Writers.{Globals}

abbrev child : GwConnection
child = record no_connection { id = pos 7; is_child = true }

abbrev dto : ConnectorDto
dto = record {
  agent_id = "agent";
  app_name = "name";
  app_type = "APM";
  tcg_url = "";
  log_level = pos 2;
  enabled = true;
  ds_host = "";
  gw_connections = child ∷ no_connection ∷ [];
}

abbrev prefixes : List Prefix
prefixes =
    (record { gw_connection_id = pos 7; prefix = "a" })
    ∷ (record { gw_connection_id = pos 7; prefix = "b" })
    ∷ (record { gw_connection_id = pos 7; prefix = "" })
    ∷ []

-- A file that cannot be read, and an environment that sets nothing.
abbrev env : Env
env = record {
  read_config = none;
  parse_yaml = λ b c. c;
  marshal_yaml = λ c. none;
  write_config = true;
  apply_env = λ c. c;
  decode_dto = λ b. some dto;
  decode_prefixes = λ b. some prefixes;
  is_pmc = true;
  parent = "parent";
}

-- The buffer of the last errors as the logger before left it, with no error.
abbrev globals : Globals
globals = record {
  err_buffer = held_history (pos 3) (record { size = 10; kept = [] });
  log_file = none;
  condense = pos 0;
  global_level = pos 1;
  no_color = true;
  time_format = "";
  to_file = none;
}

load_connector_dto_lem_example :
    (l : Loaded) × (load_connector_dto env [] defaults globals ≡ returns l)
    × (l.dto ≡ some dto)
    × IsOf dto l.config.connector
    × (l.config.gw_connections
        ≡ map
            (loaded_connection l.config.connector (is_dynamic "APM") prefixes)
            (child ∷ no_connection ∷ []))
    × (l.config.ds_host
        ≡ (if true then "parent" else if str_eq "" "" then (from_file env).ds_host else ""))
load_connector_dto_lem_example =
    load_connector_dto_lem env [] defaults globals dto prefixes 2 (pos 3)
      (record { size = 10; kept = [] }) (λ d. refl) refl refl refl refl tt

-- The configuration that is loaded, and that of the next start.
abbrev load_of : Outcome Loaded → Loaded
load_of (returns l) = l
load_of panics = record { dto = none; config = defaults; written = none; globals = globals }

abbrev start_of : Outcome (Config × Globals) → Config × Globals
start_of (returns r) = r
start_of panics = (defaults, globals)

-- A file with fewer connections keeps the others of the defaults.
two_left :
    unmarshal_connections
      ((λ c. some (record c { enabled = true })) ∷ [])
      (no_connection ∷ no_connection ∷ [])
    ≡ some ((record no_connection { enabled = true }) ∷ no_connection ∷ [])
unfolding unmarshal_connections
two_left = refl

-- A negative level is not an index of the levels.
negative_level_panics :
    init_logger
      (record defaults { connector = record (defaults.connector) { log_level = negsuc 0 } })
      globals
    ≡ panics
unfolding init_logger
negative_level_panics = refl

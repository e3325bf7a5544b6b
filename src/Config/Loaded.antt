-- ===== src/Config/Loaded.antt =====
-- config/config.go: the configuration that LoadConnectorDTO leaves, and the one after a restart.
use tcg.Common.{
  ℕ, pos, Outcome, returns, ◌>>=◌, ◌≡◌, refl, ap, ◌∙◌, Bool, true, false, Option, none, some, List,
  String, Bytes, All, map, str_eq, if◌then◌else◌,
}
use tcg.Config.{Connector, Config, ConnectorDto}
use tcg.Config.Load.{
  Prefix, Env, prepare, prepare_all, load_connector, load_advanced_prefixes, is_dynamic,
  load_dynamic_inventory_flag, from_file, process_pmc, new_config, finished, kept_output,
  load_connector_dto, Loaded,
}
use tcg.Config.Logs.{init_logger}
use tcg.Config.Logged.{init_logger_total}
use tcg.Logger.{Level}
use tcg.Logger.Recent.{History, recent, held_history}
use tcg.Logger.Kept.{IsAtLeast}
use tcg.Logger.Writers.{Globals}
use tcg.Config.Prefixes.{loaded_connection, loaded_all}

-- The identity of a connector.
pub record IsOf (dto : ConnectorDto) (c : Connector) : Type 0 where
  pub agent_id : c.agent_id ≡ dto.agent_id
  pub app_name : c.app_name ≡ dto.app_name
  pub app_type : c.app_type ≡ dto.app_type
  pub log_level : c.log_level ≡ dto.log_level
  pub enabled : c.enabled ≡ dto.enabled
  pub dynamic : c.is_dynamic_inventory ≡ is_dynamic dto.app_type

-- The configuration of the parent, for a managed child.
abbrev with_parent : Bool → String → Config → Config
with_parent t parent c =
    if t
    then record c {
      connector = record (c.connector) { installation_mode = "PARENT_MANAGED_CHILD" };
      ds_host = parent;
    }
    else c

IsOf-with_parent :
    (dto : ConnectorDto) (t : Bool) (parent : String) (c : Config)
    → IsOf dto c.connector
    → IsOf dto (with_parent t parent c).connector
IsOf-with_parent dto true parent c h = record {
  agent_id = h.agent_id;
  app_name = h.app_name;
  app_type = h.app_type;
  log_level = h.log_level;
  enabled = h.enabled;
  dynamic = h.dynamic;
}
IsOf-with_parent dto false parent c h = h

ds_host-with_parent :
    (t : Bool) (parent : String) (c : Config)
    → (with_parent t parent c).ds_host ≡ (if t then parent else c.ds_host)
ds_host-with_parent true parent c = refl
ds_host-with_parent false parent c = refl

connections-with_parent :
    (t : Bool) (parent : String) (c : Config)
    → (with_parent t parent c).gw_connections ≡ c.gw_connections
connections-with_parent true parent c = refl
connections-with_parent false parent c = refl

abbrev with_globals : Config → Globals → Outcome (Config × Globals)
with_globals c g = returns (c, g)

module _ (env : Env) where
  finished_lem :
      (output : Option Bytes) (c : Config)
      → ((d : Config) → env.apply_env d ≡ d)
      → finished env output c ≡ prepare_all (with_parent env.is_pmc env.parent c)
  unfolding finished process_pmc
  finished_lem none c a = refl
  finished_lem (some b) c a = ap (λ d. prepare_all (with_parent env.is_pmc env.parent d)) (a c)

  -- What both decodings give.
  abbrev loaded_config : ConnectorDto → List Prefix → Config
  loaded_config dto ps =
      finished env (env.marshal_yaml (new_config env dto ps)) (new_config env dto ps)

  abbrev loaded : ConnectorDto → List Prefix → Globals → Loaded
  loaded dto ps h = record {
    dto = some dto;
    config = loaded_config dto ps;
    written = kept_output env (env.marshal_yaml (new_config env dto ps));
    globals = h;
  }

  loaded_with :
      (text : Bytes) (c : Config) (g : Globals) (dto : ConnectorDto) (ps : List Prefix)
      → env.decode_dto text ≡ some dto
      → env.decode_prefixes text ≡ some ps
      → load_connector_dto env text c g
        ≡ (init_logger (loaded_config dto ps) g >>= λ h. returns (loaded dto ps h))
  unfolding load_connector_dto
  loaded_with text c g dto ps d p = rw (d, p, load_connector_dto) refl

  new_config-IsOf :
      (dto : ConnectorDto) (ps : List Prefix) → IsOf dto (new_config env dto ps).connector
  unfolding new_config load_connector load_dynamic_inventory_flag
  new_config-IsOf dto ps = record {
    agent_id = refl;
    app_name = refl;
    app_type = refl;
    log_level = refl;
    enabled = refl;
    dynamic = refl;
  }

  -- Where the environment sets nothing, the data decode with a level of the log that is not negative,
  -- and the buffer of the last errors has a history of records of its level or above:
  -- LoadConnectorDTO returns, gives the data, and leaves a connector with their identity, whether the
  -- configuration can be marshalled or not. It has the connections of the data in their order, each
  -- with the last prefix for its id that is not empty, if there is one, encoded and dynamic as the
  -- connector says. Its host of DalekServices is the parent of a managed child, and else that of the
  -- data, or of the file where the data give none.
  pub load_connector_dto_lem :
      (text : Bytes) (c : Config) (g : Globals) (dto : ConnectorDto) (ps : List Prefix)
      → (n : ℕ) (level : Level) (hist : History) → ((d : Config) → env.apply_env d ≡ d)
      → env.decode_dto text ≡ some dto
      → env.decode_prefixes text ≡ some ps
      → dto.log_level ≡ pos n
      → g.err_buffer ≡ held_history level hist
      → All (IsAtLeast level) (recent hist)
      → (l : Loaded) × (load_connector_dto env text c g ≡ returns l)
        × (l.dto ≡ some dto)
        × IsOf dto l.config.connector
        × (l.config.gw_connections
            ≡ map
                (loaded_connection l.config.connector (is_dynamic dto.app_type) ps)
                dto.gw_connections)
        × (l.config.ds_host ≡ (
            if env.is_pmc
            then env.parent
            else if str_eq dto.ds_host ""
            then (from_file env).ds_host
            else dto.ds_host))
  unfolding new_config load_connector load_advanced_prefixes load_dynamic_inventory_flag prepare_all
  load_connector_dto_lem text c g dto ps n level hist a d p lv e h =
      let fresh = new_config env dto ps in
      let pmc = with_parent env.is_pmc env.parent fresh in
      let same = IsOf-with_parent dto env.is_pmc env.parent fresh (new_config-IsOf dto ps) in
      let is = finished_lem (env.marshal_yaml fresh) fresh a in
      let (f, made) =
        init_logger_total (prepare_all pmc) g n level hist (same.log_level ∙ lv) e h in
      let new : Loaded = record {
        dto = some dto;
        config = prepare_all pmc;
        written = kept_output env (env.marshal_yaml fresh);
        globals = f;
      } in
      (
        new,
        loaded_with text c g dto ps d p
            ∙ ap
                (λ x. init_logger x g >>= λ y. returns (record {
                  dto = some dto;
                  config = x;
                  written = kept_output env (env.marshal_yaml fresh);
                  globals = y;
                }))
                is
            ∙ ap (λ o. o >>= λ y. returns (record new { globals = y })) made,
        refl,
        same,
        ap (map (prepare pmc.connector)) (connections-with_parent env.is_pmc env.parent fresh)
            ∙ loaded_all pmc.connector ps dto.gw_connections
            ∙ ap (λ b. map (loaded_connection pmc.connector b ps) dto.gw_connections) same.dynamic,
        ds_host-with_parent env.is_pmc env.parent fresh,
      )

  -- Whether every connection sends to the dynamic inventory as a flag says.
  abbrev pub AllDynamic : Bool → Config → Type 0
  AllDynamic b c = All (λ conn. conn.is_dynamic_inventory ≡ b) c.gw_connections

  -- Reading a file leaves the flag alone, whose tag keeps it out of the file, and so do the variables of
  -- the environment where ISDYNAMICINVENTORY is not among them.
  abbrev pub LeavesFlag : (Config → Config) → Type 0
  LeavesFlag f =
      (d : Config) → (f d).connector.is_dynamic_inventory ≡ d.connector.is_dynamic_inventory

-- ===== src/Config.antt =====
-- config/config.go: the configuration. Files, YAML, JSON and the variables of the environment answer as
-- the argument `Env`. A duration is its nanoseconds.
pub mod Load
pub mod Logs
pub mod Logged
pub mod Prefixes
pub mod Loaded
mod Tests
use tcg.Common.{
  ℕ, suc, ◌+◌, ◌*◌, Bool, true, false, not, ◌&&◌, ◌||◌, Option, none, some, List, [], ◌∷◌, String,
  ℤ, pos, eq_ℤ, Bytes, str_eq, if◌then◌else◌,
}

pub record Nats : Type 0 where
  pub nats_ack_wait : ℤ
  pub nats_max_inflight : ℤ
  pub nats_max_pub_acks_inflight : ℤ
  pub nats_max_payload : ℤ
  pub nats_monitor_port : ℤ
  pub nats_store_dir : String
  pub nats_store_type : String
  pub nats_store_max_age : ℤ
  pub nats_store_max_bytes : ℤ
  pub nats_store_max_msgs : ℤ
  pub nats_server_config_file : String

-- The embedded AgentIdentity is the first three fields.
pub record Connector : Type 0 where
  pub agent_id : String
  pub app_name : String
  pub app_type : String
  pub batch_events : ℤ
  pub batch_metrics : ℤ
  pub batch_max_bytes : ℤ
  pub controller_addr : String
  pub controller_cert_file : String
  pub controller_key_file : String
  pub controller_pin : String
  pub controller_read_timeout : ℤ
  pub controller_write_timeout : ℤ
  pub controller_start_timeout : ℤ
  pub controller_stop_timeout : ℤ
  pub enabled : Bool
  pub installation_mode : String
  pub is_dynamic_inventory : Bool
  pub gw_encode : String
  pub log_condense : ℤ
  pub log_file : String
  pub log_file_max_size : ℤ
  pub log_file_rotate : ℤ
  pub log_level : ℤ
  pub log_colors : Bool
  pub log_time_format : String
  pub nats : Nats
  pub retry_delays : List ℤ
  pub transport_start_rnd_delay : ℤ
  pub export_prom : Bool
  pub export_transit_dir : String

pub record GwConnection : Type 0 where
  pub id : ℤ
  pub host_name : String
  pub user_name : String
  pub password : String
  pub enabled : Bool
  pub is_child : Bool
  pub display_name : String
  pub merge_hosts : Bool
  pub local_connection : Bool
  pub defer_ownership : String
  pub prefix_resource_names : Bool
  pub resource_name_prefix : String
  pub send_all_inventory : Bool
  pub is_dynamic_inventory : Bool
  pub http_encode : Bool

-- `ds_host` is the one field of DSConnection.
pub record Config : Type 0 where
  pub connector : Connector
  pub ds_host : String
  pub gw_connections : List GwConnection

pub record ConnectorDto : Type 0 where
  pub agent_id : String
  pub app_name : String
  pub app_type : String
  pub tcg_url : String
  pub log_level : ℤ
  pub enabled : Bool
  pub ds_host : String
  pub gw_connections : List GwConnection

abbrev pub no_connection : GwConnection
no_connection = record {
  id = pos 0;
  host_name = "";
  user_name = "";
  password = "";
  enabled = false;
  is_child = false;
  display_name = "";
  merge_hosts = false;
  local_connection = false;
  defer_ownership = "";
  prefix_resource_names = false;
  resource_name_prefix = "";
  send_all_inventory = false;
  is_dynamic_inventory = false;
  http_encode = false;
}

abbrev pub second : ℕ
second = 1000000000

abbrev pub minute : ℕ
minute = 60000000000

abbrev pub default_nats : Nats
default_nats = record {
  nats_ack_wait = pos (second * 30);
  nats_max_inflight = pos 4;
  nats_max_pub_acks_inflight = pos 4;
  nats_max_payload = pos 8388608;
  nats_monitor_port = pos 0;
  nats_store_dir = "natsstore";
  nats_store_type = "FILE";
  nats_store_max_age = pos (minute * 60 * 24 * 10);
  nats_store_max_bytes = pos (1073741824 * 20);
  nats_store_max_msgs = pos 1000000;
  nats_server_config_file = "";
}

abbrev half_minutes : ℕ → List ℤ → List ℤ
half_minutes ℕ.zero rest = rest
half_minutes (suc n) rest = pos (second * 30) ∷ half_minutes n rest

unfoldable pub defaults : Config
defaults = record {
  connector = record {
    agent_id = "";
    app_name = "";
    app_type = "";
    batch_events = pos 0;
    batch_metrics = pos 0;
    batch_max_bytes = pos 1048576;
    controller_addr = ":8099";
    controller_cert_file = "";
    controller_key_file = "";
    controller_pin = "";
    controller_read_timeout = pos (second * 10);
    controller_write_timeout = pos (second * 20);
    controller_start_timeout = pos (second * 4);
    controller_stop_timeout = pos (second * 4);
    enabled = false;
    installation_mode = "";
    is_dynamic_inventory = false;
    gw_encode = "";
    log_condense = pos 0;
    log_file = "";
    log_file_max_size = pos 10485760;
    log_file_rotate = pos 5;
    log_level = pos 1;
    log_colors = false;
    log_time_format = "2006-01-02T15:04:05Z07:00";
    nats = default_nats;
    retry_delays = half_minutes 8 (pos minute ∷ pos (minute * 5) ∷ pos (minute * 20) ∷ []);
    transport_start_rnd_delay = pos 60;
    export_prom = false;
    export_transit_dir = "";
  };
  ds_host = "";
  gw_connections = no_connection ∷ no_connection ∷ no_connection ∷ no_connection ∷ [];
}

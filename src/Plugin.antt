-- ===== src/Plugin.antt =====
-- Plugin types, Meta and the start functions (src/snap/plugin.h and plugin.cc).
pub mod Stopwatch
pub mod Diagnostics
pub mod Starts
pub mod Interface
use snap_plugin_lib_cpp.Base.{
  ℕ, Bool, true, false, not, ◌&&◌, Option, none, some, String, if◌then◌else◌,
}
use snap_plugin_lib_cpp.Base.Int.{ℤ, pos}
use snap_plugin_lib_cpp.Flags.{
  Flags, is_parsed_flag, is_config_from_framework, get_flag_str_value, get_flag_int_value,
  get_flag_int64_value,
}

pub data PluginType : Type 0 where
  collector processor publisher stream_collector : PluginType

pub data RpcType : Type 0 where
  grpc grpc_stream : RpcType

pub data Strategy : Type 0 where
  lru sticky config_based : Strategy

pub record Meta : Type 0 where
  pub type : PluginType
  pub name : String
  pub version : ℤ
  pub rpc_version : ℤ
  pub rpc_type : RpcType
  pub concurrency_count : ℤ
  pub exclusive : Bool
  pub unsecure : Bool
  -- in milliseconds
  pub cache_ttl : ℤ
  pub strategy : Strategy
  pub listen_port : String
  pub listen_addr : String
  pub pprof_enabled : Bool
  pub tls_enabled : Bool
  pub tls_certificate_crt_path : String
  pub tls_certificate_key_path : String
  pub tls_certificate_authority_paths : String
  pub stand_alone : Bool
  pub diagnostic_enabled : Bool
  -- `none`: not initialised, since the constructor copies the member to itself
  pub stand_alone_port : Option ℤ

unfoldable pub new_meta : PluginType → String → ℤ → RpcType → Meta
new_meta type name version rpc_type = record {
  type = type;
  name = name;
  version = version;
  rpc_version = pos 1;
  rpc_type = rpc_type;
  concurrency_count = pos 5;
  exclusive = false;
  unsecure = true;
  cache_ttl = pos 500;
  strategy = lru;
  listen_port = "";
  listen_addr = "127.0.0.1";
  pprof_enabled = false;
  tls_enabled = false;
  tls_certificate_crt_path = "";
  tls_certificate_key_path = "";
  tls_certificate_authority_paths = "";
  stand_alone = false;
  diagnostic_enabled = false;
  stand_alone_port = none;
}

unfoldable pub use_cli_args : Flags → Meta → Meta
use_cli_args flags m = record m {
  listen_port = get_flag_str_value "port" flags;
  listen_addr = get_flag_str_value "addr" flags;
  pprof_enabled = is_parsed_flag "pprof" flags;
  tls_enabled = is_parsed_flag "tls" flags;
  tls_certificate_crt_path = get_flag_str_value "cert-path" flags;
  tls_certificate_key_path = get_flag_str_value "key-path" flags;
  tls_certificate_authority_paths = get_flag_str_value "root-cert-paths" flags;
  stand_alone = is_parsed_flag "stand-alone" flags;
  stand_alone_port = some (get_flag_int_value "stand-alone-port" flags);
  diagnostic_enabled =
      not (is_parsed_flag "stand-alone" flags) && not (is_config_from_framework flags);
}

-- What a start function does once the flags are parsed: it prints the version and exits, it exports
-- the plugin with the meta data and waits for the server, or it shows the diagnostics.
pub data Start : Type 0 where
  prints_version : String → ℤ → Start
  exports : Meta → Start
  diagnoses : Meta → Start

unfoldable pub start_collector : Flags → Meta → Start
start_collector cli meta =
    let m = use_cli_args cli meta in
    if is_parsed_flag "version" cli
    then prints_version m.name m.version
    else if not m.diagnostic_enabled
    then exports m
    else diagnoses m

unfoldable pub start_processor : Flags → Meta → Start
start_processor cli meta =
    let m = use_cli_args cli meta in
    if is_parsed_flag "version" cli then prints_version m.name m.version else exports m

unfoldable pub start_publisher : Flags → Meta → Start
start_publisher cli meta =
    let m = use_cli_args cli meta in
    if is_parsed_flag "version" cli then prints_version m.name m.version else exports m

-- The limits of StreamCollectorInterface: `_max_collect_duration`, in seconds, and
-- `_max_metrics_buffer`.
pub record StreamLimits : Type 0 where
  pub max_collect_duration : ℤ
  pub max_metrics_buffer : ℤ

unfoldable pub start_stream_collector : Flags → StreamLimits → Meta → Start × StreamLimits
start_stream_collector cli limits meta =
    let m = use_cli_args cli meta in
    if is_parsed_flag "version" cli then (prints_version m.name m.version, limits) else (
      exports m,
      record {
        max_collect_duration = get_flag_int_value "max-collect-duration" cli;
        max_metrics_buffer = get_flag_int64_value "max-metrics-buffer" cli;
      },
    )

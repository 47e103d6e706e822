-- ===== src/Export/Server.antt =====
-- The steps of `DoExport` in src/snap/grpc_export.cc. The gRPC server is the parameter `bind`: the
-- port that it listens on, from the address and the credentials. `to_string` prints a number.
pub mod Secure
use snap_plugin_lib_cpp.Base.{
  ℕ, Bool, true, false, Option, none, some, List, [], ◌∷◌, ◌++◌, String, ◌<>◌, str_eq,
  if◌then◌else◌,
}
use snap_plugin_lib_cpp.Base.Int.{ℤ, pos}
use snap_plugin_lib_cpp.Plugin.{
  PluginType, collector, processor, publisher, stream_collector, RpcType, grpc, grpc_stream,
  Strategy, lru, sticky, config_based, Meta,
}
use snap_plugin_lib_cpp.Export.Certificates.{Files, Load, loaded, throws, load_key, load_tls_ca}

pub data Credentials : Type 0 where
  insecure : Credentials
  -- the key, the certificate, and the root certificates
  ssl : String → String → String → Credentials

-- A PluginException ends the export.
pub data Secured : Type 0 where
  secured : Credentials → Secured
  fails : String → Secured

unfoldable pub configure_credentials : Files → Meta → Secured × List String
configure_credentials fs meta =
    let (ca, logged) = load_tls_ca fs meta.tls_certificate_authority_paths in
    let with_keys : String → String → Secured × List String = λ key crt. elim ca [
      | throws e ↦ (fails e, logged)
      | loaded roots ↦ (secured (ssl key crt roots), logged)
    ] in
    let with_key : String → Secured × List String = λ key.
      elim (load_key fs meta.tls_certificate_crt_path) [
        | throws e ↦ (fails e, [])
        | loaded crt ↦ with_keys key crt
      ] in
    let with_tls : Secured × List String = elim (load_key fs meta.tls_certificate_key_path) [
      | throws e ↦ (fails e, [])
      | loaded key ↦ with_key key
    ] in
    if meta.tls_enabled then with_tls else (secured insecure, [])

pub data Service : Type 0 where
  collector_impl processor_impl publisher_impl stream_collector_impl : Service

-- The text of the address and the service of `doConfigure`, whose `switch` is over `GetType()`.
unfoldable pub listening_address : Meta → String
listening_address meta =
    meta.listen_addr <> (":" <> (if str_eq meta.listen_port "" then "0" else meta.listen_port))

unfoldable pub service_of : PluginType → Service
service_of collector = collector_impl
service_of processor = processor_impl
service_of publisher = publisher_impl
service_of stream_collector = stream_collector_impl

-- The numbers of the enumerators, as JSON shows them.
unfoldable pub type_number : PluginType → ℕ
type_number collector = 0
type_number processor = 1
type_number publisher = 2
type_number stream_collector = 3

unfoldable pub rpc_type_number : RpcType → ℕ
rpc_type_number grpc = 2
rpc_type_number grpc_stream = 3

unfoldable pub strategy_number : Strategy → ℕ
strategy_number lru = 0
strategy_number sticky = 1
strategy_number config_based = 2

-- The JSON of `printPreamble`, by its members; those of "Meta" come first.
pub record Preamble : Type 0 where
  pub type : ℕ
  pub name : String
  pub version : ℤ
  pub rpc_type : ℕ
  pub rpc_version : ℤ
  pub concurrency_count : ℤ
  pub exclusive : Bool
  pub unsecure : Bool
  pub cache_ttl : ℤ
  pub routing_strategy : ℕ
  pub pprof_enabled : Bool
  pub tls_enabled : Bool
  pub cert_path : String
  pub key_path : String
  pub root_cert_paths : String
  pub stand_alone_enabled : Bool
  -- `none`: not initialised
  pub stand_alone_port : Option ℤ
  pub listen_address : String
  pub state : ℕ
  pub err_message : String

unfoldable pub print_preamble : (ℤ → String) → Meta → ℤ → Preamble
print_preamble to_string meta port = record {
  type = type_number meta.type;
  name = meta.name;
  version = meta.version;
  rpc_type = rpc_type_number meta.rpc_type;
  rpc_version = pos 1;
  concurrency_count = meta.concurrency_count;
  exclusive = meta.exclusive;
  unsecure = meta.unsecure;
  cache_ttl = meta.cache_ttl;
  routing_strategy = strategy_number meta.strategy;
  pprof_enabled = meta.pprof_enabled;
  tls_enabled = meta.tls_enabled;
  cert_path = meta.tls_certificate_crt_path;
  key_path = meta.tls_certificate_key_path;
  root_cert_paths = meta.tls_certificate_authority_paths;
  stand_alone_enabled = meta.stand_alone;
  stand_alone_port = meta.stand_alone_port;
  listen_address = meta.listen_addr <> (":" <> to_string port);
  state = 0;
  err_message = "";
}

-- How the preamble is shown: on the standard output, or by an HTTP server on the port.
pub data Announcement : Type 0 where
  prints : Announcement
  serves : Option ℤ → Announcement

-- The server that was started, and what was announced of it.
pub record Exported : Type 0 where
  pub credentials : Credentials
  pub address : String
  pub service : Service
  pub port : ℤ
  pub announcement : Announcement
  pub preamble : Preamble

-- What `DoExport` has done when it returns the future; `none`: an exception left it.
unfoldable pub do_export :
    Files → (String → Credentials → ℤ) → (ℤ → String) → PluginType → Meta → Option Exported
unfolding listening_address service_of print_preamble
do_export fs bind to_string plugin_type meta = elim (configure_credentials fs meta).0 [
  | fails e ↦ none
  | secured c ↦
      let port = bind (listening_address meta) c in
      some (record {
        credentials = c;
        address = listening_address meta;
        service = service_of plugin_type;
        port = port;
        announcement = if meta.stand_alone then serves meta.stand_alone_port else prints;
        preamble = print_preamble to_string meta port;
      })
]

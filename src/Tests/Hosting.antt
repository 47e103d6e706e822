-- ===== src/Tests/Hosting.antt =====
-- The start of a plugin, its diagnostics and its export at concrete values.
use snap_plugin_lib_cpp.Base.{
  Bool, str_eq, str_dec, ◌≡◌, refl, true, false, none, some, [], ◌∷◌, map, String, ◌<>◌,
  if◌then◌else◌,
}
use snap_plugin_lib_cpp.Base.Int.{ℤ, pos, negsuc}
use snap_plugin_lib_cpp.Flags.{
  Flags, of_nothing, of_string, is_parsed_flag, get_flag_int_value, get_flag_str_value,
}
use snap_plugin_lib_cpp.Plugin.{collector, grpc, lru, Meta, use_cli_args}
use snap_plugin_lib_cpp.Export.Certificates.{Files, need, load_tls_ca}
use snap_plugin_lib_cpp.Export.Certificates.Chain.{chain, contribution, load_tls_ca_lem}
use snap_plugin_lib_cpp.Export.Server.{
  Credentials, insecure, ssl, configure_credentials, collector_impl, processor_impl, service_of,
  prints, serves, type_number, Exported, listening_address, print_preamble, do_export,
}
use snap_plugin_lib_cpp.Plugin.Interface.{processor_interface, get_type}
use snap_plugin_lib_cpp.Export.Launch.{launch}
use snap_plugin_lib_cpp.Export.Launch.Program.{
  no_flags, construct, program, has_tls, program-refused,
}
use snap_plugin_lib_cpp.Examples.Mains
use snap_plugin_lib_cpp.Flags.Json.{Libraries, parse_command_line_flags}
use snap_plugin_lib_cpp.Export.Launch.Secure.{with_limits, launch-IsAsked}
use snap_plugin_lib_cpp.Export.Server.Secure.{IsAsked, is_ssl, do_export_lem}

abbrev flags : Flags
flags = record {
  flags = ("tls", of_nothing) ∷ ("port", of_string "80") ∷ [];
  framework_json_parsed = false;
}

abbrev meta : Meta
meta = record {
  type = collector;
  name = "rando";
  version = pos 1;
  rpc_version = pos 1;
  rpc_type = grpc;
  concurrency_count = pos 5;
  exclusive = false;
  unsecure = true;
  cache_ttl = pos 500;
  strategy = lru;
  listen_port = "";
  listen_addr = "127.0.0.1";
  pprof_enabled = false;
  tls_enabled = true;
  tls_certificate_crt_path = "a.crt";
  tls_certificate_key_path = "a.key";
  tls_certificate_authority_paths = "ca";
  stand_alone = false;
  diagnostic_enabled = false;
  stand_alone_port = none;
}

abbrev show : ℤ → String
show (pos n) = "n"
show (negsuc n) = "-n"

-- Every file holds the same text, and every path is a regular file.
abbrev disk : Files
disk = record {
  contents = λ path. some "PEM";
  stat = λ path. some 32768;
  is_directory = λ path. false;
  entries = λ path. [];
  split = λ paths. paths ∷ [];
}

load_tls_ca_lem_example :
    (load_tls_ca disk "ca").0 ≡ need disk (chain (map (contribution disk) ("ca" ∷ [])))
load_tls_ca_lem_example = load_tls_ca_lem disk "ca"

abbrev bind : String → Credentials → ℤ
bind address credentials = pos 8181

abbrev exported : Exported
exported = record {
  credentials = ssl "PEM" "PEM" "PEM";
  address = listening_address meta;
  service = collector_impl;
  port = pos 8181;
  announcement = prints;
  preamble = print_preamble show meta (pos 8181);
}

do_export_lem_example :
    IsAsked disk meta exported.credentials
    × (exported.preamble.tls_enabled ≡ is_ssl exported.credentials)
    × (exported.preamble.listen_address
        ≡ meta.listen_addr <> (":" <> show (bind (listening_address meta) exported.credentials)))
unfolding do_export configure_credentials load_tls_ca print_preamble
do_export_lem_example = do_export_lem disk bind show collector meta exported refl

abbrev launched : Exported
launched = record {
  credentials = ssl "PEM" "PEM" "PEM";
  address = listening_address (use_cli_args flags meta);
  service = processor_impl;
  port = pos 8181;
  announcement = prints;
  preamble = print_preamble show (use_cli_args flags meta) (pos 8181);
}

launch-IsAsked_example :
    (is_ssl launched.credentials ≡ is_parsed_flag "tls" flags)
    × IsAsked disk (use_cli_args flags meta) launched.credentials
    × (launched.address ≡ (
        let port = get_flag_str_value "port" flags in
        get_flag_str_value "addr" flags <> (":" <> (if str_eq port "" then "0" else port))))
    × (launched.service ≡ service_of (get_type processor_interface))
    × (some processor_interface ≡ some (with_limits flags processor_interface))
unfolding launch do_export configure_credentials load_tls_ca print_preamble use_cli_args str_dec
    is_parsed_flag
launch-IsAsked_example =
    launch-IsAsked disk bind show flags processor_interface meta launched (some processor_interface)
      refl

-- No text is JSON, and no command line is stored.
abbrev refusing : Libraries
refusing = record {
  Json = Bool;
  parse = λ text. none;
  items = λ j. none;
  is_false = λ j. false;
  print = λ j. "";
  store_command_line = λ argv stored. (stored, false);
  store_config_file = λ path stored. (stored, true);
}

abbrev unprotected : Exported
unprotected = record {
  credentials = insecure;
  address = listening_address (use_cli_args no_flags meta);
  service = processor_impl;
  port = pos 8181;
  announcement = prints;
  preamble = print_preamble show (use_cli_args no_flags meta) (pos 8181);
}

program-refused_example :
    (program refusing disk bind show ("rando" ∷ "--tls" ∷ "--wrong" ∷ []) processor_interface meta
      ≡ some (some (launch disk bind show no_flags processor_interface meta)))
    × (has_tls (launch disk bind show no_flags processor_interface meta) ≡ false)
program-refused_example =
    program-refused refusing disk bind show "rando" "--tls" ("--wrong" ∷ []) processor_interface
      meta refl refl

abbrev tagger : Exported
tagger = record unprotected {
  address = listening_address (use_cli_args no_flags (Mains.meta Mains.graffiti));
  preamble = print_preamble show (use_cli_args no_flags (Mains.meta Mains.graffiti)) (pos 8181);
}

main-runs_example :
    (cli : Flags) × (construct refusing ("graffiti" ∷ "--wrong" ∷ []) ≡ some (some cli))
    × (tagger.service ≡ service_of (get_type (Mains.plugin Mains.graffiti)))
    × (tagger.preamble.type ≡ type_number (get_type (Mains.plugin Mains.graffiti)))
    × (tagger.preamble.name ≡ (Mains.meta Mains.graffiti).name)
    × (tagger.preamble.version ≡ pos 1)
    × (tagger.preamble.listen_address
        ≡ get_flag_str_value "addr" cli <> (":" <> show (bind tagger.address tagger.credentials)))
    × (tagger.announcement ≡ (
        if is_parsed_flag "stand-alone" cli
        then serves (some (get_flag_int_value "stand-alone-port" cli))
        else prints))
    × (some processor_interface ≡ some (with_limits cli (Mains.plugin Mains.graffiti)))
unfolding Mains.main program parse_command_line_flags launch do_export configure_credentials
    print_preamble use_cli_args is_parsed_flag Mains.plugin Mains.meta
main-runs_example =
    Mains.main-runs refusing disk bind show ("graffiti" ∷ "--wrong" ∷ []) Mains.graffiti tagger
      (some processor_interface) refl

-- ===== src/Examples/Mains.antt =====
-- The `main` functions of the four examples: the meta data, the plugin and its start function.
use snap_plugin_lib_cpp.Base.{◌≡◌, refl, ap, ◌∙◌, Option, some, List, String, ◌<>◌, if◌then◌else◌}
use snap_plugin_lib_cpp.Base.Int.{ℤ, pos}
use snap_plugin_lib_cpp.Flags.{Flags, is_parsed_flag, get_flag_int_value, get_flag_str_value}
use snap_plugin_lib_cpp.Flags.Json.{Libraries}
use snap_plugin_lib_cpp.Plugin.{
  collector, processor, publisher, stream_collector, grpc, grpc_stream, StreamLimits, Meta,
  new_meta, use_cli_args,
}
use snap_plugin_lib_cpp.Plugin.Interface.{
  PluginInterface, collector_interface, processor_interface, publisher_interface,
  stream_collector_interface, get_type,
}
use snap_plugin_lib_cpp.Export.Certificates.{Files}
use snap_plugin_lib_cpp.Export.Server.{
  Credentials, Exported, prints, serves, print_preamble, service_of, type_number,
}
use snap_plugin_lib_cpp.Export.Server.Secure.{do_export-announces}
use snap_plugin_lib_cpp.Export.Launch.{Launch, runs}
use snap_plugin_lib_cpp.Export.Launch.Secure.{
  with_limits, launch-IsAsked, launch-runs, start_plugin-runs,
}
use snap_plugin_lib_cpp.Export.Launch.Program.{construct, program, program-runs}

pub data Example : Type 0 where
  rando graffiti log : Example
  -- the members of its StreamCollectorInterface have no value before the start
  streaming_rando : StreamLimits → Example

unfoldable pub plugin : Example → PluginInterface
plugin rando = collector_interface
plugin graffiti = processor_interface
plugin log = publisher_interface
plugin (streaming_rando limits) = stream_collector_interface limits

unfoldable pub meta : Example → Meta
unfolding new_meta
meta rando = new_meta collector "rando" (pos 1) grpc
meta graffiti = new_meta processor "graffiti" (pos 1) grpc
meta log = new_meta publisher "log" (pos 1) grpc
meta (streaming_rando limits) = record (new_meta stream_collector "rando" (pos 1) grpc_stream) {
  concurrency_count = pos 1;
}

module _ (lib : Libraries) (fs : Files) (bind : String → Credentials → ℤ)
    (to_string : ℤ → String) where
  -- The start function for the plugin's type is the one that `start_by_type` takes.
  unfoldable pub main : List String → Example → Option (Option Launch)
  unfolding program plugin meta
  main argv example = program lib fs bind to_string argv (plugin example) (meta example)

meta-get_type : (example : Example) → (meta example).type ≡ get_type (plugin example)
unfolding meta plugin get_type
meta-get_type rando = refl
meta-get_type graffiti = refl
meta-get_type log = refl
meta-get_type (streaming_rando limits) = refl

meta_version : (example : Example) → (meta example).version ≡ pos 1
unfolding meta
meta_version rando = refl
meta_version graffiti = refl
meta_version log = refl
meta_version (streaming_rando limits) = refl

-- If the main function of an example runs a server, then flags were parsed from its command line, the
-- service is the one for the type that the preamble announces, beside the example's name and version
-- 1 and the address of the flag `addr` with the port that the server got; the preamble is served on the
-- port of the flag `stand-alone-port` with the flag `stand-alone`, and printed without it; and the
-- service holds the example's plugin, with the limits of the flags if it is the streaming one.
pub main-runs :
    (lib : Libraries) (fs : Files) (bind : String → Credentials → ℤ) (to_string : ℤ → String)
    (argv : List String) (example : Example) (x : Exported) (served : Option PluginInterface)
    → main lib fs bind to_string argv example ≡ some (some (runs x served))
    → (cli : Flags) × (construct lib argv ≡ some (some cli))
      × (x.service ≡ service_of (get_type (plugin example)))
      × (x.preamble.type ≡ type_number (get_type (plugin example)))
      × (x.preamble.name ≡ (meta example).name)
      × (x.preamble.version ≡ pos 1)
      × (x.preamble.listen_address
          ≡ get_flag_str_value "addr" cli <> (":" <> to_string (bind x.address x.credentials)))
      × (x.announcement ≡ (
          if is_parsed_flag "stand-alone" cli
          then serves (some (get_flag_int_value "stand-alone-port" cli))
          else prints))
      × (served ≡ some (with_limits cli (plugin example)))
unfolding main use_cli_args print_preamble
main-runs lib fs bind to_string argv example x served e =
    let m = meta example in
    let (cli, parsed, launched) =
      program-runs lib fs bind to_string argv (plugin example) m x served e in
    let (_, _, _, service, held) =
      launch-IsAsked fs bind to_string cli (plugin example) m x served launched in
    let (exported, _) =
      start_plugin-runs fs bind to_string (with_limits cli (plugin example)) (use_cli_args cli m) x
        served (launch-runs fs bind to_string cli (plugin example) m x served launched) in
    let (preamble, port, announced) =
      do_export-announces fs bind to_string (get_type (with_limits cli (plugin example)))
        (use_cli_args cli m) x exported in
    (
      cli,
      parsed,
      service,
      ap (λ p. p.type) preamble ∙ ap type_number (meta-get_type example),
      ap (λ p. p.name) preamble,
      ap (λ p. p.version) preamble ∙ meta_version example,
      ap (λ p. p.listen_address) preamble
          ∙ ap (λ n. get_flag_str_value "addr" cli <> (":" <> to_string n)) port,
      announced,
      held,
    )

-- ===== src/Export/Launch.antt =====
-- From the parsed flags to the server: the start functions and `start_plugin` of src/snap/plugin.cc, with
-- the export of src/snap/grpc_export.cc behind it.
pub mod Secure
pub mod Program
use snap_plugin_lib_cpp.Base.{Option, none, some, String}
use snap_plugin_lib_cpp.Base.Int.{ℤ}
use snap_plugin_lib_cpp.Flags.{Flags}
use snap_plugin_lib_cpp.Plugin.{
  collector, processor, publisher, stream_collector, Meta, Start, prints_version, exports,
  diagnoses,
}
use snap_plugin_lib_cpp.Plugin.Interface.{
  PluginInterface, get_type, is_collector, is_processor, is_publisher, is_stream_collector,
  start_by_type,
}
use snap_plugin_lib_cpp.Export.Certificates.{Files}
use snap_plugin_lib_cpp.Export.Server.{Credentials, Exported, do_export}

-- The pointer that `doConfigure` hands the service.
unfoldable pub proxied : PluginInterface → Option PluginInterface
unfolding get_type is_collector is_processor is_publisher is_stream_collector
proxied plugin = elim (get_type plugin) [
  | collector ↦ is_collector plugin
  | processor ↦ is_processor plugin
  | publisher ↦ is_publisher plugin
  | stream_collector ↦ is_stream_collector plugin
]

-- How a start ends: `crashes` is an exception that nothing catches.
pub data Launch : Type 0 where
  versions : String → ℤ → Launch
  shows_diagnostics : Meta → Launch
  crashes : Launch
  runs : Exported → Option PluginInterface → Launch

module _ (fs : Files) (bind : String → Credentials → ℤ) (to_string : ℤ → String) where
  unfoldable pub start_plugin : PluginInterface → Meta → Launch
  unfolding do_export proxied
  start_plugin plugin meta = elim (do_export fs bind to_string (get_type plugin) meta) [
    | none ↦ crashes
    | some x ↦ runs x (proxied plugin)
  ]

  unfoldable pub launch : Flags → PluginInterface → Meta → Launch
  unfolding start_by_type start_plugin
  launch cli plugin meta =
      let (start, plugin') = start_by_type cli plugin meta in
      elim start [
        | prints_version name version ↦ versions name version
        | exports m ↦ start_plugin plugin' m
        | diagnoses m ↦ shows_diagnostics m
      ]

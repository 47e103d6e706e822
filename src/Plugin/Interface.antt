-- ===== src/Plugin/Interface.antt =====
-- PluginInterface and its four implementations (src/snap/plugin.h and plugin.cc), as far as the library
-- tells them apart: a null pointer is `none`, and `this` is the plugin itself.
use snap_plugin_lib_cpp.Base.{Option, none, some}
use snap_plugin_lib_cpp.Flags.{Flags}
use snap_plugin_lib_cpp.Plugin.{
  PluginType, collector, processor, publisher, stream_collector, StreamLimits, Meta, Start,
  start_collector, start_processor, start_publisher, start_stream_collector,
}

pub data PluginInterface : Type 0 where
  collector_interface processor_interface publisher_interface : PluginInterface
  -- with its two private members
  stream_collector_interface : StreamLimits → PluginInterface

unfoldable pub get_type : PluginInterface → PluginType
get_type collector_interface = collector
get_type processor_interface = processor
get_type publisher_interface = publisher
get_type (stream_collector_interface limits) = stream_collector

unfoldable pub is_collector : PluginInterface → Option PluginInterface
is_collector collector_interface = some collector_interface
is_collector _ = none

unfoldable pub is_processor : PluginInterface → Option PluginInterface
is_processor processor_interface = some processor_interface
is_processor _ = none

unfoldable pub is_publisher : PluginInterface → Option PluginInterface
is_publisher publisher_interface = some publisher_interface
is_publisher _ = none

unfoldable pub is_stream_collector : PluginInterface → Option PluginInterface
is_stream_collector (stream_collector_interface limits) = some (stream_collector_interface limits)
is_stream_collector _ = none

-- The start function for the plugin, and the plugin as it leaves it.
unfoldable pub start_by_type : Flags → PluginInterface → Meta → Start × PluginInterface
unfolding start_collector start_processor start_publisher start_stream_collector
start_by_type cli collector_interface meta = (start_collector cli meta, collector_interface)
start_by_type cli processor_interface meta = (start_processor cli meta, processor_interface)
start_by_type cli publisher_interface meta = (start_publisher cli meta, publisher_interface)
start_by_type cli (stream_collector_interface limits) meta =
    let (start, limits') = start_stream_collector cli limits meta in
    (start, stream_collector_interface limits')

-- ===== src/Plugin/Starts.antt =====
-- Which of its modes a plugin starts in.
use snap_plugin_lib_cpp.Base.{◌≡◌, ◌||◌, if◌then◌else◌, arith}
use snap_plugin_lib_cpp.Flags.{
  Flags, is_parsed_flag, is_config_from_framework, get_flag_int_value, get_flag_int64_value,
}
use snap_plugin_lib_cpp.Plugin.{
  Meta, use_cli_args, prints_version, exports, diagnoses, start_collector, start_processor,
  start_publisher, StreamLimits, start_stream_collector,
}

-- With the flag `version` a plugin of any type only prints its name and version. Without it, a
-- processor, a publisher and a streaming collector are exported always, and a collector if it
-- stands alone or its config came from the framework; otherwise a collector shows its diagnostics.
-- A streaming collector takes its limits from the flags, unless it prints its version.
start_collector_lem :
    (cli : Flags) (m : Meta) (limits : StreamLimits)
    → let version = is_parsed_flag "version" cli in
      let served =
        if version then prints_version m.name m.version else exports (use_cli_args cli m) in
      (start_collector cli m ≡ (
        if version || is_parsed_flag "stand-alone" cli || is_config_from_framework cli
        then served
        else diagnoses (use_cli_args cli m)))
      × (start_processor cli m ≡ served)
      × (start_publisher cli m ≡ served)
      × ((start_stream_collector cli limits m).0 ≡ served)
      × ((start_stream_collector cli limits m).1 ≡ (
          if version then limits else record {
            max_collect_duration = get_flag_int_value "max-collect-duration" cli;
            max_metrics_buffer = get_flag_int64_value "max-metrics-buffer" cli;
          }))
unfolding start_collector start_processor start_publisher start_stream_collector use_cli_args
start_collector_lem cli m limits = ground arith

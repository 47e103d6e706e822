-- ===== src/Plugin/Diagnostics/Started.antt =====
-- The diagnosis from the parsed flags on: the constructor of DiagnosticPrinter and the end of
-- `start_collector` (src/snap/plugin.cc).
use snap_plugin_lib_cpp.Base.{
  ◌≡◌, refl, ap, false, ◌||◌, Option, none, some, Option-cases, inl, inr, [], String, arith,
}
use snap_plugin_lib_cpp.Base.Int.{ℤ}
use snap_plugin_lib_cpp.Rpc.{ConfigMap}
use snap_plugin_lib_cpp.Flags.{Flags, is_parsed_flag, is_config_from_framework}
use snap_plugin_lib_cpp.Flags.Config.{JsonObjects, generate_config_map_from_command_json}
use snap_plugin_lib_cpp.Plugin.{Meta, use_cli_args, diagnoses, start_collector}
use snap_plugin_lib_cpp.Plugin.Diagnostics.{Printer}
use snap_plugin_lib_cpp.Plugin.Diagnostics.Platform.{Platform}
use snap_plugin_lib_cpp.Plugin.Diagnostics.Show.{Collector, Report, show}
use snap_plugin_lib_cpp.Plugin.Diagnostics.Shown.{Summary, summary, asked, summary-show}

-- `none`: the exception of a config that is no JSON object leaves the constructor.
diagnostic_printer : JsonObjects → Flags → Option Printer
diagnostic_printer json cli = elim (generate_config_map_from_command_json json cli) [
  | none ↦ none
  | some config ↦ some (record { cfgmap = config; missing = ""; rows = [] })
]

module _ {S : Type 0} (json : JsonObjects) (platform : Platform) (to_string : ℤ → String)
    (collector : Collector S) where
  -- `DiagnosticPrinter diagnostics(collector, meta, cli); diagnostics.show();`
  unfoldable pub diagnose : Flags → Meta → S → Option (Report S)
  unfolding diagnostic_printer show
  diagnose cli meta s = elim (diagnostic_printer json cli) [
    | none ↦ none
    | some printer ↦ some (show collector platform meta to_string printer s)
  ]

  abbrev pub summarised : Option (Report S) → Option (Summary × S)
  summarised none = none
  summarised (some r) = some (summary r)

  -- What is to come of the diagnosis in a config, if there is one.
  abbrev pub expected : Option ConfigMap → S → Option (Summary × S)
  expected none s = none
  expected (some config) s = some (asked collector config (collector.get_config_policy s))

  -- If the start of a collector comes to the diagnosis, none of the flags `version` and `stand-alone` was
  -- given, the config is not the framework's, and the diagnosis runs in the config that the flag `config`
  -- holds: it shows the catalog and the metrics that the collector offers and collects, as its answers
  -- call for; or it ends, for a required setting, also one of an integer or a Boolean, that has no
  -- string in this config with the defaults, or by an exception of the collector where it is thrown; or it does not begin, since the flag holds no such config.
  pub start_collector-diagnose :
      (cli : Flags) (m m' : Meta) (s : S)
      → start_collector cli m ≡ diagnoses m'
      → (m' ≡ use_cli_args cli m)
        × ((is_parsed_flag "version" cli
              || (is_parsed_flag "stand-alone" cli || is_config_from_framework cli))
            ≡ false)
        × (summarised (diagnose cli m' s)
            ≡ expected (generate_config_map_from_command_json json cli) s)
  unfolding start_collector use_cli_args diagnose diagnostic_printer
  start_collector-diagnose cli m m' s begun = (
    ground arith,
    ground arith,
    elim (Option-cases (generate_config_map_from_command_json json cli)) [
      | inl broken ↦ rw (broken, diagnose, diagnostic_printer) refl
      | inr (config, made) ↦
          rw (made, diagnose, diagnostic_printer)
            (ap some (summary-show collector platform m' to_string _ s refl))
    ],
  )

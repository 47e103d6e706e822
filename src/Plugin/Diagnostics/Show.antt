-- ===== src/Plugin/Diagnostics/Show.antt =====
-- What `DiagnosticPrinter::show` prints around the table of the policy (src/snap/plugin.cc): a line
-- is its parts, and a value is what the getter returned. The times that the stopwatches print, the
-- padding and the closing words are left out. Nothing catches an exception of the collector, so it
-- ends the process.
use snap_plugin_lib_cpp.Base.{
  ℕ, Option, none, some, List, [], ◌∷◌, map, get_elem?, String, ◌==◌, if◌then◌else◌,
}
use snap_plugin_lib_cpp.Base.Int.{ℤ}
use snap_plugin_lib_cpp.Rpc.{ConfigMap}
use snap_plugin_lib_cpp.Rpc.Policy.{GetConfigPolicyReply}
use snap_plugin_lib_cpp.Namespace
use snap_plugin_lib_cpp.Metric
use snap_plugin_lib_cpp.Metric.{
  Metric, number, string, float32, float64, int32, int64, uint32, uint64, bool, type_name, copy,
}
use snap_plugin_lib_cpp.Metric.Data.{
  Value, of_float, of_double, of_int32, of_int64, of_uint32, of_uint64, of_bool, of_string,
  data_type, get_int_data, get_int64_data, get_uint32_data, get_uint64_data, get_float32_data,
  get_float64_data, get_bool_data, get_string_data,
}
use snap_plugin_lib_cpp.Proxy.Handlers.{Outcome, returns, throws_plugin_exception, throws_other}
use snap_plugin_lib_cpp.Plugin.{Meta, RpcType, grpc, grpc_stream}
use snap_plugin_lib_cpp.Plugin.Diagnostics.Platform.{Platform, get_os_name, get_architecture_name}
use snap_plugin_lib_cpp.Plugin.Diagnostics.{Printer, Diagnosis, ends, goes_on, print_config_policy}

pub record RuntimeDetails : Type 0 where
  pub plugin_name : String
  pub version : ℤ
  -- `none`: an index beyond the vector of names
  pub rpc_type : Option String
  pub rpc_version : ℤ
  pub operating_system : String
  pub architecture : String
  pub gcc_version : String

-- `RPCTypeString[meta.rpc_type]`
rpc_type_index : RpcType → ℕ
rpc_type_index grpc = 2
rpc_type_index grpc_stream = 3

unfoldable pub print_runtime_details : Platform → Meta → RuntimeDetails
unfolding rpc_type_index get_os_name get_architecture_name
print_runtime_details platform meta = record {
  plugin_name = meta.name;
  version = meta.version;
  rpc_type = get_elem? ("" ∷ "" ∷ "GRPC" ∷ "GRPCStream" ∷ []) (rpc_type_index meta.rpc_type);
  rpc_version = meta.rpc_version;
  operating_system = get_os_name platform.macros;
  architecture = get_architecture_name platform.macros;
  gcc_version = platform.gcc_version;
}

-- CollectorInterface, over the plugin's own state. The metrics of `collect_metrics` come with the
-- config that `set_diagnostic_config` gave each of them.
pub record Collector (S : Type 0) : Type 0 where
  pub get_config_policy : S → Outcome GetConfigPolicyReply × S
  pub get_metric_types : ConfigMap → S → Outcome (List Metric) × S
  pub collect_metrics : List (ConfigMap × Metric) → S → Outcome (List Metric) × S

-- A line of the catalog is the metric's namespace; `ns` fills the cache of the metric.
unfoldable pub print_metric_types : List Metric → List String × List Metric
unfolding Metric.ns Namespace.get_string
print_metric_types [] = ([], [])
print_metric_types (metric ∷ metrics) =
    let (ns, m) = Metric.ns metric in
    let (lines, ms) = print_metric_types metrics in (Namespace.get_string ns ∷ lines, m ∷ ms)

pub record MetricRow : Type 0 where
  pub namespace : String
  pub type : String
  -- `none`: no case of the switch, and the line does not end
  pub value : Option Value

unfoldable pub print_value : Metric → Option Value
unfolding data_type number get_int_data get_int64_data get_uint32_data get_uint64_data
    get_float32_data get_float64_data get_bool_data get_string_data
print_value m =
    let type = data_type m in
    if type == number int32
    then some (of_int32 (get_int_data m))
    else if type == number uint32
    then some (of_uint32 (get_uint32_data m))
    else if type == number string
    then some (of_string (get_string_data m))
    else if type == number bool
    then some (of_bool (get_bool_data m))
    else if type == number float32
    then some (of_float (get_float32_data m))
    else if type == number float64
    then some (of_double (get_float64_data m))
    else if type == number int64
    then some (of_int64 (get_int64_data m))
    else if type == number uint64
    then some (of_uint64 (get_uint64_data m))
    else none

-- The loop over the metrics that were collected; `ns` fills the cache of the metric.
unfoldable pub print_metric_rows : List Metric → List MetricRow
unfolding print_value Metric.ns Namespace.get_string data_type type_name
print_metric_rows [] = []
print_metric_rows (metric ∷ mts) =
    let (ns, m) = Metric.ns metric in
    let row : MetricRow = record {
      namespace = Namespace.get_string ns;
      type = type_name (data_type m);
      value = print_value m;
    } in
    row ∷ print_metric_rows mts

-- After the details and the table: `exit(0)`, or the catalog and the rows; or an exception of the
-- collector, behind the table and the catalog as far as they were printed.
pub data Report (S : Type 0) : Type 0 where
  exits : RuntimeDetails → Printer → S → Report S
  shows : RuntimeDetails → Printer → List String → List MetricRow → S → Report S
  crashes : RuntimeDetails → Option Printer → Option (List String) → S → Report S

unfoldable pub show_rows :
    {S : Type 0} → RuntimeDetails → Printer → List String → Outcome (List Metric) → S → Report S
unfolding print_metric_rows
show_rows details p catalog (returns mts) s = shows details p catalog (print_metric_rows mts) s
show_rows details p catalog (throws_plugin_exception e) s =
    crashes details (some p) (some catalog) s
show_rows details p catalog throws_other s = crashes details (some p) (some catalog) s

module _ {S : Type 0} (collector : Collector S) where
  -- `print_collect_metrics`, whose argument is a copy of the vector, and so of each metric.
  unfoldable pub print_collect_metrics :
      RuntimeDetails → Printer → List String → List Metric → S → Report S
  unfolding show_rows
  print_collect_metrics details p catalog metric_types s =
      let (mts, s') =
        collector.collect_metrics (map (λ m. (p.cfgmap, m)) (map copy metric_types)) s in
      show_rows details p catalog mts s'

  -- `print_metric_types`, and what follows it.
  unfoldable pub show_types : RuntimeDetails → Printer → Outcome (List Metric) → S → Report S
  unfolding print_metric_types print_collect_metrics
  show_types details p (returns metrics) s =
      let (catalog, mts) = print_metric_types metrics in
      print_collect_metrics details p catalog mts s
  show_types details p (throws_plugin_exception e) s = crashes details (some p) none s
  show_types details p throws_other s = crashes details (some p) none s

  -- `show` behind the table.
  unfoldable pub show_metrics : RuntimeDetails → Diagnosis → S → Report S
  unfolding show_types
  show_metrics details (ends p) s = exits details p s
  show_metrics details (goes_on p) s =
      let (types, s') = collector.get_metric_types p.cfgmap s in show_types details p types s'

  unfoldable pub show_policy :
      (ℤ → String) → RuntimeDetails → Printer → Outcome GetConfigPolicyReply → S → Report S
  unfolding print_config_policy show_metrics
  show_policy to_string details printer (returns cpolicy) s =
      show_metrics details (print_config_policy to_string cpolicy printer) s
  show_policy to_string details printer (throws_plugin_exception e) s = crashes details none none s
  show_policy to_string details printer throws_other s = crashes details none none s

  unfoldable pub show : Platform → Meta → (ℤ → String) → Printer → S → Report S
  unfolding print_runtime_details show_policy
  show platform meta to_string printer s =
      let (cpolicy, s') = collector.get_config_policy s in
      show_policy to_string (print_runtime_details platform meta) printer cpolicy s'

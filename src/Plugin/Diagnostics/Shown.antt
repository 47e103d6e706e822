-- ===== src/Plugin/Diagnostics/Shown.antt =====
-- What the diagnosis asks of the collector, and what it shows of the answers.
use snap_plugin_lib_cpp.Base.{
  ◌≡◌, refl, ap, ◌∙◌, Bool, true, ◌||◌, Option, none, some, List, [], ◌∷◌, map, String, text_empty,
  arith, if◌then◌else◌,
}
use snap_plugin_lib_cpp.Base.Int.{ℤ}
use snap_plugin_lib_cpp.Rpc
use snap_plugin_lib_cpp.Rpc.{ConfigMap}
use snap_plugin_lib_cpp.Namespace
use snap_plugin_lib_cpp.Metric
use snap_plugin_lib_cpp.Metric.{Metric, type_name, copy}
use snap_plugin_lib_cpp.Metric.Data.{
  Value, of_float, of_double, of_int32, of_int64, of_uint32, of_uint64, of_bool, of_string,
  data_type,
}
use snap_plugin_lib_cpp.Rpc.Policy.{GetConfigPolicyReply}
use snap_plugin_lib_cpp.Proxy.Handlers.{Outcome, returns, throws_plugin_exception, throws_other}
use snap_plugin_lib_cpp.Config.{apply_defaults}
use snap_plugin_lib_cpp.Plugin.{Meta}
use snap_plugin_lib_cpp.Plugin.Diagnostics.{Printer, Diagnosis, ends, goes_on, print_config_policy}
use snap_plugin_lib_cpp.Plugin.Diagnostics.Requirements.{
  lacks_any, has_ended, printer_of, print_config_policy_lem, cfgmap-print_config_policy,
}
use snap_plugin_lib_cpp.Plugin.Diagnostics.Platform.{Platform}
use snap_plugin_lib_cpp.Plugin.Diagnostics.Show.{
  Collector, MetricRow, print_value, print_metric_rows, print_metric_types, Report, exits, shows,
  crashes, show_rows, show_types, show_policy, RuntimeDetails, print_runtime_details,
  print_collect_metrics, show_metrics, show,
}

-- The value that a message carries, if it is of one of the eight types.
abbrev pub value_of : Rpc.Datum → Option Value
value_of Rpc.data_not_set = none
value_of (Rpc.k_string_data v) = some (of_string v)
value_of (Rpc.k_float32_data v) = some (of_float v)
value_of (Rpc.k_float64_data v) = some (of_double v)
value_of (Rpc.k_int32_data v) = some (of_int32 v)
value_of (Rpc.k_int64_data v) = some (of_int64 v)
value_of (Rpc.k_bytes_data v) = none
value_of (Rpc.k_bool_data v) = some (of_bool v)
value_of (Rpc.k_uint32_data v) = some (of_uint32 v)
value_of (Rpc.k_uint64_data v) = some (of_uint64 v)

print_value-with :
    (d : Rpc.Datum) (m : Metric)
    → print_value (record m { rpc = record m.rpc { datum = d } }) ≡ value_of d
unfolding print_value
print_value-with Rpc.data_not_set m = refl
print_value-with (Rpc.k_string_data v) m = refl
print_value-with (Rpc.k_float32_data v) m = refl
print_value-with (Rpc.k_float64_data v) m = refl
print_value-with (Rpc.k_int32_data v) m = refl
print_value-with (Rpc.k_int64_data v) m = refl
print_value-with (Rpc.k_bytes_data v) m = refl
print_value-with (Rpc.k_bool_data v) m = refl
print_value-with (Rpc.k_uint32_data v) m = refl
print_value-with (Rpc.k_uint64_data v) m = refl

abbrev pub make_row : String → Rpc.Metric → Option Value → MetricRow
make_row namespace m value = record {
  namespace = namespace;
  type = type_name (Rpc.data_case m.datum);
  value = value;
}

-- The row of a metric: its namespace as `ns` gives it, the name of its type, and the value.
abbrev pub row_of : Metric → MetricRow
row_of m = make_row (Namespace.get_string (Metric.ns m).0) m.rpc (value_of m.rpc.datum)

rpc-ns : (m : Metric) → (Metric.ns m).1.rpc ≡ m.rpc
unfolding Metric.ns
rpc-ns m = ground arith

print_metric_rows-map : (ms : List Metric) → print_metric_rows ms ≡ map row_of ms
unfolding print_metric_rows data_type
print_metric_rows-map [] = refl
print_metric_rows-map (m ∷ ms) =
    let namespace = Namespace.get_string (Metric.ns m).0 in
    let m' = (Metric.ns m).1 in
    ap (λ v. make_row namespace m'.rpc v ∷ print_metric_rows ms) (print_value-with m'.rpc.datum m')
    ∙ ap (λ x. make_row namespace x (value_of x.datum) ∷ print_metric_rows ms) (rpc-ns m)
    ∙ ap (λ rows. row_of m ∷ rows) (print_metric_rows-map ms)

abbrev pub namespace_text : Metric → String
namespace_text m = Namespace.get_string (Metric.ns m).0

-- A copy has none of what the catalog left in the caches.
copies : (ms : List Metric) → map copy (map (λ m. (Metric.ns m).1) ms) ≡ map copy ms
unfolding copy
copies [] = refl
copies (m ∷ ms) =
    ap
      (λ x.
        record { rpc = x; memo_ns = Namespace.empty; memo_tags = []; type = none }
        ∷ map copy (map (λ m. (Metric.ns m).1) ms))
      (rpc-ns m)
    ∙ ap (λ xs. copy m ∷ xs) (copies ms)

print_metric_types-map :
    (ms : List Metric)
    → print_metric_types ms ≡ (map namespace_text ms, map (λ m. (Metric.ns m).1) ms)
unfolding print_metric_types
print_metric_types-map [] = refl
print_metric_types-map (m ∷ ms) =
    ap (λ r. (namespace_text m ∷ r.0, (Metric.ns m).1 ∷ r.1)) (print_metric_types-map ms)

-- What came of the diagnosis: it ended for a missing requirement; it showed the catalog and the rows; or
-- an exception ended it, at the policy, or behind the catalog if there was one.
pub data Summary : Type 0 where
  refuses breaks_at_policy : Summary
  tells : List String → List MetricRow → Summary
  breaks : Option (List String) → Summary

abbrev pub summary : {S : Type 0} → Report S → Summary × S
summary (exits details p s) = (refuses, s)
summary (shows details p catalog rows s) = (tells catalog rows, s)
summary (crashes details none catalog s) = (breaks_at_policy, s)
summary (crashes details (some p) catalog s) = (breaks catalog, s)

abbrev pub collected : {S : Type 0} → List String → Outcome (List Metric) × S → Summary × S
collected catalog (returns mts, s) = (tells catalog (map row_of mts), s)
collected catalog (throws_plugin_exception e, s) = (breaks (some catalog), s)
collected catalog (throws_other, s) = (breaks (some catalog), s)

-- The collector is asked to collect copies of the metrics that it offered, in the config.
abbrev pub offered :
    {S : Type 0} → Collector S → ConfigMap → Outcome (List Metric) × S → Summary × S
offered collector config (returns types, s) =
    collected (map namespace_text types)
      (collector.collect_metrics (map (λ m. (config, m)) (map copy types)) s)
offered collector config (throws_plugin_exception e, s) = (breaks none, s)
offered collector config (throws_other, s) = (breaks none, s)

-- What is asked of the collector and shown, by whether a requirement is missing, in a config.
abbrev pub diagnosed : {S : Type 0} → Collector S → Bool → ConfigMap → S → Summary × S
diagnosed collector lacking config s =
    let rest = offered collector config (collector.get_metric_types config s) in
    if lacking then (refuses, s) else rest

-- Whether a required setting has no string in the config, be it one of a string, an integer or a
-- Boolean.
abbrev pub lacks : GetConfigPolicyReply → ConfigMap → Bool
lacks policy config =
    lacks_any (λ r. r.required) config.stringmap policy.string_policy
    || (lacks_any (λ r. r.required) config.stringmap policy.integer_policy
        || lacks_any (λ r. r.required) config.stringmap policy.bool_policy)

-- The same from the policy that the collector gives.
abbrev pub asked :
    {S : Type 0} → Collector S → ConfigMap → Outcome GetConfigPolicyReply × S → Summary × S
asked collector config (returns policy, s) =
    let config' = apply_defaults policy config in
    diagnosed collector (lacks policy config') config' s
asked collector config (throws_plugin_exception e, s) = (breaks_at_policy, s)
asked collector config (throws_other, s) = (breaks_at_policy, s)

module _ {S : Type 0} (collector : Collector S) (details : RuntimeDetails) where
  show_rows_lem :
      (p : Printer) (catalog : List String) (o : Outcome (List Metric)) (s : S)
      → summary (show_rows details p catalog o s) ≡ collected catalog (o, s)
  unfolding show_rows
  show_rows_lem p catalog (returns mts) s =
      ap (λ rows. (tells catalog rows, s)) (print_metric_rows-map mts)
  show_rows_lem p catalog (throws_plugin_exception e) s = refl
  show_rows_lem p catalog throws_other s = refl

  show_types_lem :
      (p : Printer) (o : Outcome (List Metric)) (s : S)
      → summary (show_types collector details p o s) ≡ offered collector p.cfgmap (o, s)
  unfolding show_types print_collect_metrics
  show_types_lem p (returns types) s =
      let ask : List Metric → Outcome (List Metric) × S =
        λ ms. collector.collect_metrics (map (λ m. (p.cfgmap, m)) ms) s in
      rw (print_metric_types-map types, copies types)
        (show_rows_lem p (map namespace_text types) (ask (map copy types)).0
          (ask (map copy types)).1)
  show_types_lem p (throws_plugin_exception e) s = refl
  show_types_lem p throws_other s = refl

  show_metrics_lem :
      (d : Diagnosis) (s : S)
      → summary (show_metrics collector details d s)
        ≡ diagnosed collector (has_ended d) (printer_of d).cfgmap s
  unfolding show_metrics
  show_metrics_lem (ends p) s = refl
  show_metrics_lem (goes_on p) s =
      let (types, s') = collector.get_metric_types p.cfgmap s in show_types_lem p types s'

  show_policy_lem :
      (to_string : ℤ → String) (p : Printer) (o : Outcome GetConfigPolicyReply) (s : S)
      → text_empty p.missing ≡ true
      → summary (show_policy collector to_string details p o s) ≡ asked collector p.cfgmap (o, s)
  unfolding show_policy
  show_policy_lem to_string p (returns policy) s e =
      let d = print_config_policy to_string policy p in
      show_metrics_lem d s
      ∙ ap (λ b. diagnosed collector b (printer_of d).cfgmap s)
          (print_config_policy_lem to_string policy p e)
      ∙ ap (λ config. diagnosed collector (lacks policy (apply_defaults policy p.cfgmap)) config s)
          (cfgmap-print_config_policy to_string policy p)
  show_policy_lem to_string p (throws_plugin_exception x) s e = refl
  show_policy_lem to_string p throws_other s e = refl

-- If nothing was missing before, the diagnosis of a collector of which a required setting has no string
-- in its config with the defaults ends without asking it for anything but its policy. Otherwise it asks the
-- collector for its metric types in that config and to collect copies of these, each in that config, and
-- shows the namespaces of the types and, of each metric that was collected, the namespace, the name
-- of its type and its value, which only a metric without data or with bytes has not. An exception of
-- the collector ends it where it is thrown, after what was shown up to there.
pub summary-show :
    {S : Type 0} (collector : Collector S) (platform : Platform) (meta : Meta)
    (to_string : ℤ → String) (p : Printer) (s : S)
    → text_empty p.missing ≡ true
    → summary (show collector platform meta to_string p s)
      ≡ asked collector p.cfgmap (collector.get_config_policy s)
unfolding show
summary-show collector platform meta to_string p s e =
    let (policy, s') = collector.get_config_policy s in
    show_policy_lem collector (print_runtime_details platform meta) to_string p policy s' e

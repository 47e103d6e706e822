-- ===== src/Examples/Collector.antt =====
-- The collector of examples/collector/src/rando.cc. Its undefined behaviour, an index beyond the
-- namespace, is `none`.
pub mod Collected
pub mod Produced
use snap_plugin_lib_cpp.Base.{
  ℕ, zero, suc, ◌+◌, Bool, true, false, Option, none, some, List, [], ◌∷◌, ◌++◌, String,
  if◌then◌else◌,
}
use snap_plugin_lib_cpp.Base.Int.{ℤ, pos, negsuc}
use snap_plugin_lib_cpp.Base.Dict.{Dict}
use snap_plugin_lib_cpp.Rpc
use snap_plugin_lib_cpp.Rpc.{ConfigMap}
use snap_plugin_lib_cpp.Rpc.Policy.{GetConfigPolicyReply, new_policy_reply}
use snap_plugin_lib_cpp.Namespace
use snap_plugin_lib_cpp.Namespace.{Namespace, from_strings, add_static_element, add_dynamic_element}
use snap_plugin_lib_cpp.Namespace.Element
use snap_plugin_lib_cpp.Namespace.Element.{NamespaceElement, set_value}
use snap_plugin_lib_cpp.Metric
use snap_plugin_lib_cpp.Metric.{Metric, wrap, copy, set_ns}
use snap_plugin_lib_cpp.Metric.Clock.{set_timestamp}
use snap_plugin_lib_cpp.Metric.Data.{set_data, of_uint64}
use snap_plugin_lib_cpp.Config.{add_string_rule, add_integer_rule, get_int}
use snap_plugin_lib_cpp.Config.Rule.{
  create, create_required, rule_with_default, rule_bounded_default, string_fields,
}
use snap_plugin_lib_cpp.Proxy.Handlers.{Outcome, returns, throws_plugin_exception, throws_other}
use snap_plugin_lib_cpp.Examples.Types.{Conversions, index, random_data}

unfoldable pub get_config_policy : GetConfigPolicyReply
unfolding add_string_rule add_integer_rule create create_required rule_with_default
    rule_bounded_default
get_config_policy =
    let named =
      add_string_rule ("intel" ∷ "cpp" ∷ [])
        (create "username" (rule_with_default {T = String} "root" false)) new_policy_reply in
    let secret =
      add_string_rule ("intel" ∷ "cpp" ∷ "mock" ∷ "randomnumber" ∷ "float32" ∷ [])
        (create_required String "password" true) named in
    add_integer_rule ("intel" ∷ "cpp" ∷ "mock" ∷ "dynamic" ∷ "dynamo" ∷ "int64" ∷ [])
      (create "dynamic_count" (rule_bounded_default (pos 2) false (pos 0) (pos 10))) secret

rando : Namespace
unfolding from_strings
rando = from_strings ("intel" ∷ "cpp" ∷ "mock" ∷ "rando" ∷ [])

unfoldable pub get_metric_types : List Metric
unfolding rando add_static_element add_dynamic_element Metric.create from_strings
get_metric_types =
    Metric.create (add_static_element "int32" rando) "example_unit" "example_description"
    ∷ Metric.create (add_static_element "int64" rando) "" ""
    ∷ Metric.create (add_static_element "string" rando) "" ""
    ∷ Metric.create (add_static_element "boolean" rando) "" ""
    ∷ Metric.create
        (add_static_element "int64" (
          add_dynamic_element "dynamo" ""
            (from_strings ("intel" ∷ "cpp" ∷ "mock" ∷ "dynamic" ∷ []))))
        "" ""
    ∷ []

-- `ns[i].set_value(value)`, where the index is in range
set_value_at : ℕ → String → List NamespaceElement → List NamespaceElement
unfolding set_value
set_value_at i value [] = []
set_value_at zero value (e ∷ es) = set_value value e ∷ es
set_value_at (suc i) value (e ∷ es) = e ∷ set_value_at i value es

-- The global map, the readings of the clock so far, and `result_metrics`.
pub record State : Type 0 where
  pub types : Dict ℕ
  pub readings : ℕ
  pub result_metrics : List Metric

-- The config of a message, or that of the protocol's default instance.
abbrev pub config_of : Rpc.Metric → ConfigMap
config_of m = elim m.config [ none ↦ Rpc.empty_config | some c ↦ c ]

module _ (c : Conversions) (clock : ℕ → ℤ) (random_value : ℕ) where
  push_result : Metric → State → State
  unfolding set_timestamp copy
  push_result m s = record s {
    readings = s.readings + 1;
    result_metrics = s.result_metrics ++ (copy (set_timestamp (clock s.readings) m) ∷ []);
  }

  pub collect_static : Metric → ℕ → State → State
  unfolding random_data set_data push_result
  collect_static m mts_type s = elim (random_data c random_value mts_type) [
    | none ↦ push_result m s
    | some v ↦ push_result (set_data v m) s
  ]

  dynamic_metric : ℕ → Namespace → Metric
  unfolding set_value_at set_ns set_data wrap
  dynamic_metric i ns =
      let dynamic_namespace = record ns {
        namespace_elements = set_value_at 4 (c.to_string i) ns.namespace_elements;
      } in
      set_data (of_uint64 random_value) (set_ns dynamic_namespace (wrap Rpc.new_metric))

  -- The loop from `i`, with the rounds that the setting leaves; it reads the same value each time.
  pub collect_dynamic : ℕ → ℕ → Namespace → State → State
  unfolding dynamic_metric push_result
  collect_dynamic zero i ns s = s
  collect_dynamic (suc rounds) i ns s =
      collect_dynamic rounds (i + 1) ns (push_result (dynamic_metric i ns) s)

  -- Without the setting `get_int` throws `std::out_of_range`.
  collect_repeated : Namespace → Rpc.Metric → State → Outcome State
  unfolding get_int collect_dynamic
  collect_repeated ns m s = elim (get_int "dynamic_count" (config_of m)) [
    | none ↦ throws_other
    | some (pos count) ↦ returns (collect_dynamic count 0 ns s)
    | some (negsuc _) ↦ returns s
  ]

  -- The body of the loop at the metric's namespace.
  collect_named : Namespace → Metric → State → Option (Outcome State)
  unfolding Namespace.at Namespace.is_dynamic index collect_static collect_repeated
  collect_named ns m s = elim (Namespace.at ns 4) [
    | none ↦ none
    | some element ↦
        let (mts_type, types) = index element.value s.types in
        let s' : State = record s { types = types } in
        some (
          if Namespace.is_dynamic ns
          then collect_repeated ns m.rpc s'
          else returns (collect_static m mts_type s'))
  ]

  collect_metric : Metric → State → Option (Outcome State)
  unfolding Metric.ns collect_named
  collect_metric m s = let (ns, m') = Metric.ns m in collect_named ns m' s

  collect_loop : List Metric → State → Option (Outcome State)
  unfolding collect_metric
  collect_loop [] s = some (returns s)
  collect_loop (m ∷ ms) s = elim (collect_metric m s) [
    | none ↦ none
    | some (returns s') ↦ collect_loop ms s'
    | some (throws_plugin_exception e) ↦ some (throws_plugin_exception e)
    | some throws_other ↦ some throws_other
  ]

  unfoldable pub collect_metrics : List Metric → Dict ℕ → ℕ → Option (Outcome State)
  unfolding collect_loop
  collect_metrics metrics types readings =
      collect_loop metrics (record { types = types; readings = readings; result_metrics = [] })

-- ===== src/Examples/Streamer.antt =====
-- The streaming collector of examples/streaming-collector/src/rando.cc and rando.h, but for
-- its two threads, which are in Race.
pub mod Filled
pub mod Race
use snap_plugin_lib_cpp.Base.{
  ℕ, ◌+◌, ◌≡◌, Bool, true, false, not, ◌&&◌, Option, none, some, List, [], ◌∷◌, ◌++◌, map, String,
  is_empty, if◌then◌else◌,
}
use snap_plugin_lib_cpp.Base.Int.{ℤ, pos}
use snap_plugin_lib_cpp.Base.Dict.{Dict}
use snap_plugin_lib_cpp.Rpc.Policy.{GetConfigPolicyReply, new_policy_reply}
use snap_plugin_lib_cpp.Namespace
use snap_plugin_lib_cpp.Namespace.{Namespace, from_strings, add_static_element}
use snap_plugin_lib_cpp.Namespace.Element
use snap_plugin_lib_cpp.Metric
use snap_plugin_lib_cpp.Metric.{Metric, copy}
use snap_plugin_lib_cpp.Metric.Clock.{set_timestamp}
use snap_plugin_lib_cpp.Metric.Data.{set_data}
use snap_plugin_lib_cpp.Config.{add_string_rule, add_integer_rule}
use snap_plugin_lib_cpp.Config.Rule.{create, rule_with_default, string_fields, integer_fields}
use snap_plugin_lib_cpp.Stream.Channel
use snap_plugin_lib_cpp.Stream.Channel.{Channel}
use snap_plugin_lib_cpp.Stream.Receive.{Plugin, Exchange, send_part, err_part, recv_part}
use snap_plugin_lib_cpp.Examples.Types.{Conversions, metric_types, index, random_data}

unfoldable pub get_config_policy : GetConfigPolicyReply
unfolding add_string_rule add_integer_rule create rule_with_default
get_config_policy =
    let rando = "intel" ∷ "cpp" ∷ "mock" ∷ "rando" ∷ [] in
    let named =
      add_string_rule ("intel" ∷ "cpp" ∷ [])
        (create "username" (rule_with_default {T = String} "root" false)) new_policy_reply in
    let secret =
      add_string_rule rando (create "password" (rule_with_default {T = String} "h4ck3r" true))
        named in
    let timed =
      add_integer_rule rando (create "MaxCollectDuration" (rule_with_default (pos 10) true))
        secret in
    add_integer_rule rando (create "MaxMetricsBuffer" (rule_with_default (pos 0) true)) timed

rando : Namespace
unfolding from_strings
rando = from_strings ("intel" ∷ "cpp" ∷ "mock" ∷ "rando" ∷ [])

unfoldable pub get_metric_types : List Metric
unfolding rando add_static_element Metric.create
get_metric_types =
    Metric.create (add_static_element "int32" rando) "example_unit" "example_description"
    ∷ Metric.create (add_static_element "int64" rando) "" ""
    ∷ Metric.create (add_static_element "string" rando) "" ""
    ∷ Metric.create (add_static_element "boolean" rando) "" ""
    ∷ []

-- The members, and the global map of types.
pub record Rando : Type 0 where
  pub metrics_out : List Metric
  pub metrics_in : List Metric
  pub err_msg : String
  pub put_mets : Bool
  pub put_err : Bool
  pub get_mets : Bool
  pub context_cancelled : Bool
  pub types : Dict ℕ

-- `Rando()`
abbrev pub new_rando : Rando
new_rando = record {
  metrics_out = [];
  metrics_in = [];
  err_msg = "";
  put_mets = false;
  put_err = false;
  get_mets = false;
  context_cancelled = false;
  types = metric_types;
}

-- What rando.h implements of StreamCollectorInterface; a vector is handed over as a copy.
abbrev pub rando_plugin : Plugin Rando
rando_plugin = record {
  put_mets = λ s. s.put_mets;
  put_metrics_out = λ s. (map copy s.metrics_out, s);
  set_put_mets = λ b s. record s { put_mets = b };
  put_err = λ s. s.put_err;
  put_err_msg = λ s. (s.err_msg, s);
  set_put_err = λ b s. record s { put_err = b };
  get_metrics_in = λ mets s. (mets, record s { metrics_in = map copy mets; get_mets = true });
  set_context_cancelled = λ b s. record s { context_cancelled = b };
}

module _ (c : Conversions) (clock : ℕ → ℤ) (random_value : ℕ) where
  -- The body of the loop in `stream_it` for the metric at `i`: the metric is stamped in each case.
  -- An index beyond the namespace is undefined behaviour, `none`.
  unfoldable pub fill : ℕ → Metric → Rando → Option (Metric × Rando)
  unfolding Metric.ns Namespace.at index random_data set_data set_timestamp
  fill i m s =
      let (ns, m') = Metric.ns m in
      elim (Namespace.at ns 4) [
        | none ↦ none
        | some element ↦
            let (mts_type, types) = index element.value s.types in
            let s' : Rando = record s { types = types } in
            elim (random_data c random_value mts_type) [
              | none ↦ some (
                set_timestamp (clock i) m',
                record s' { err_msg = "Invalid type"; put_err = true },
              )
              | some v ↦ some (set_timestamp (clock i) (set_data v m'), s')
            ]
      ]

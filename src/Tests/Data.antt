-- ===== src/Tests/Data.antt =====
-- Namespaces, metrics and configs at concrete values.
use mathlib.Core.Option.{or_else}
use snap_plugin_lib_cpp.Base.{
  str_dec, ℕ, zero, suc, ◌≡◌, refl, not, true, false, Option, none, some, List, [], ◌∷◌, is_empty,
  String, arith,
}
use snap_plugin_lib_cpp.Base.Int.{pos, negsuc}
use snap_plugin_lib_cpp.Base.Dict.{lookup, contains}
use snap_plugin_lib_cpp.Rpc
use snap_plugin_lib_cpp.Rpc.{ConfigMap, empty_config}
use snap_plugin_lib_cpp.Rpc.Policy.{
  StringRule, IntegerRule, BoolRule, Policy, GetConfigPolicyReply, new_integer_rule, new_bool_rule,
  new_policy_reply,
}
use snap_plugin_lib_cpp.Namespace.{Namespace, empty, at, is_dynamic, get_dynamic_indexes}
use snap_plugin_lib_cpp.Namespace.Laws.{listed, is_dynamic_at, Ascending, get_dynamic_indexes_lem}
use snap_plugin_lib_cpp.Metric.{Metric, number, type_name, copy, set_ns, ns, add_tag, tags}
use snap_plugin_lib_cpp.Metric.Memo.{ns-set_ns, tags-add_tag_stale}
use snap_plugin_lib_cpp.Metric.Data.{
  of_int32, set_data, data_type, readings, only, kind, readings-set_data,
}
use snap_plugin_lib_cpp.Metric.Clock.{set_timestamp, timestamp, timestamp-set_timestamp}
use snap_plugin_lib_cpp.Metric.Store
use snap_plugin_lib_cpp.Metric.Store.{
  Heap, Object, construct, wrap, free, set_diagnostic_config, get_config, map_at, config_of,
  copy_dangles,
}
use snap_plugin_lib_cpp.Config.{apply_defaults}
use snap_plugin_lib_cpp.Config.Defaults.{
  want_string, want_int, want_bool, default_in, apply_defaults_lem,
}

abbrev two_elements : Namespace
two_elements = record {
  namespace_elements =
      record { value = "intel"; name = ""; description = "" }
      ∷ record { value = "*"; name = "host"; description = "the host" }
      ∷ [];
}

abbrev blank_metric : Metric
blank_metric = record { rpc = Rpc.new_metric; memo_ns = empty; memo_tags = []; type = some 0 }

abbrev tagged_metric : Metric
tagged_metric = record blank_metric { rpc = record Rpc.new_metric { tags = ("rack", "7") ∷ [] } }

get_dynamic_indexes_lem_example :
    ((k : ℕ) → listed k (get_dynamic_indexes two_elements) ≡ is_dynamic_at (at two_elements k))
    × Ascending 0 (get_dynamic_indexes two_elements)
    × (is_dynamic two_elements ≡ not (is_empty (get_dynamic_indexes two_elements)))
get_dynamic_indexes_lem_example = get_dynamic_indexes_lem two_elements

ns-set_ns_example : (ns (set_ns two_elements blank_metric)).0 ≡ two_elements
ns-set_ns_example = ns-set_ns two_elements blank_metric

-- The tags come in the order of their keys.
tags_ordered :
    (tags (record blank_metric {
      rpc = record Rpc.new_metric { tags = ("rack", "7") ∷ ("host", "a") ∷ [] };
    })).0
    ≡ ("host", "a") ∷ ("rack", "7") ∷ []
unfolding tags contains str_dec
tags_ordered = refl

tags-add_tag_stale_example :
    ((tags (add_tag "host" "a" (tags tagged_metric).1)).0 ≡ (tags tagged_metric).0)
    × (lookup "host" (add_tag "host" "a" (tags tagged_metric).1).rpc.tags ≡ some "a")
unfolding tags contains
tags-add_tag_stale_example = tags-add_tag_stale "host" "a" tagged_metric refl

readings-set_data_example :
    (readings (copy (set_data (of_int32 (negsuc 4)) blank_metric)) ≡ only (of_int32 (negsuc 4)))
    × (data_type (copy (set_data (of_int32 (negsuc 4)) blank_metric))
        ≡ number (kind (of_int32 (negsuc 4))))
    × ((set_data (of_int32 (negsuc 4)) blank_metric).type
        ≡ some (data_type (set_data (of_int32 (negsuc 4)) blank_metric)))
    × (type_name (data_type (set_data (of_int32 (negsuc 4)) blank_metric)) ≡ "int32")
readings-set_data_example = readings-set_data (of_int32 (negsuc 4)) blank_metric

timestamp-set_timestamp_example :
    timestamp (set_timestamp (pos 1_500_000_000_123) blank_metric) ≡ some (pos 1_500_000_000_123)
timestamp-set_timestamp_example =
    timestamp-set_timestamp (pos 1_500_000_000_123) blank_metric (omega arith, omega arith)

abbrev diagnostic : ConfigMap
diagnostic = record empty_config { stringmap = ("user", "root") ∷ [] }

abbrev if_first : ℕ → Option Rpc.Metric → Option Rpc.Metric → Option Rpc.Metric
if_first zero a b = a
if_first (suc n) a b = b

abbrev heap : Heap
heap = record {
  default_config = empty_config;
  messages = λ p. if_first p (some (record Rpc.new_metric { config = some diagnostic })) none;
  maps = λ p. some diagnostic;
  next = 1;
}

abbrev wrapped : Object
wrapped = record { rpc_metric_ptr = 0; config = config_of 0; delete_metric_ptr = false }

copy_dangles_example :
    (c : Object) × (h₁ : Heap) × (Store.copy wrapped heap ≡ some (c, h₁))
    × (get_config c h₁ ≡ some diagnostic)
    × (get_config c (free 0 h₁) ≡ none)
    × ((free 0 h₁).messages c.rpc_metric_ptr
        ≡ some (record Rpc.new_metric { config = some diagnostic }))
unfolding wrap
copy_dangles_example =
    copy_dangles heap 0 (record Rpc.new_metric { config = some diagnostic }) diagnostic wrapped refl
      refl refl (omega arith)

abbrev string_default : Policy StringRule
string_default = record {
  rules = ("user", record { required = false; default = "root"; has_default = true }) ∷ [];
}

abbrev integer_default : Policy IntegerRule
integer_default = record {
  rules = ("port", record new_integer_rule { default = pos 80; has_default = true }) ∷ [];
}

abbrev bool_required : Policy BoolRule
bool_required = record { rules = ("flag", record new_bool_rule { required = true }) ∷ [] }

abbrev node : List String
node = "intel" ∷ "cpu" ∷ []

abbrev policies : GetConfigPolicyReply
policies = record new_policy_reply {
  string_policy = ("a", string_default) ∷ [];
  integer_policy = ("b", integer_default) ∷ [];
}

apply_defaults_lem_example :
    let d = apply_defaults policies empty_config in
    (lookup "port" d.stringmap
      ≡ or_else
          (lookup "port" empty_config.stringmap)
          (default_in want_string "port" policies.string_policy))
    × (lookup "port" d.intmap
        ≡ or_else
            (lookup "port" empty_config.intmap)
            (default_in want_int "port" policies.integer_policy))
    × (lookup "port" d.boolmap
        ≡ or_else
            (lookup "port" empty_config.boolmap)
            (default_in want_bool "port" policies.bool_policy))
apply_defaults_lem_example = apply_defaults_lem "port" policies empty_config

-- ===== src/Examples/Log.antt =====
-- The publisher of examples/publisher/src/log.cc, which appends a line for each metric to a file.
-- The calls of the standard library that print a time or a number are parameters; a file is its
-- content under its path, and one that does not open takes no text. The tags of a metric stand in the
-- order of their keys, in which a std::map is iterated.
pub mod Lines
use snap_plugin_lib_cpp.Base.{
  ℕ, ◌+◌, Bool, true, Option, none, some, List, [], ◌∷◌, String, ◌<>◌, ◌==◌, length, if◌then◌else◌,
}
use snap_plugin_lib_cpp.Base.Int.{ℤ}
use snap_plugin_lib_cpp.Base.Dict.{Dict, lookup, insert}
use snap_plugin_lib_cpp.Rpc.{ConfigMap}
use snap_plugin_lib_cpp.Rpc.Policy.{StringRule, GetConfigPolicyReply}
use snap_plugin_lib_cpp.Namespace.Element.{NamespaceElement}
use snap_plugin_lib_cpp.Metric
use snap_plugin_lib_cpp.Metric.{
  Metric, number, float32, float64, int32, int64, uint32, uint64, bool, string, not_set,
}
use snap_plugin_lib_cpp.Metric.Clock.{timestamp}
use snap_plugin_lib_cpp.Metric.Data.{
  data_type, get_int_data, get_int64_data, get_uint32_data, get_uint64_data, get_float32_data,
  get_float64_data, get_bool_data, get_string_data,
}
use snap_plugin_lib_cpp.Config.{string_config_policy, get_string}
use snap_plugin_lib_cpp.Config.Rule.{create_required, string_fields}
use snap_plugin_lib_cpp.Proxy.Handlers.{Outcome, returns, throws_other}

-- `strftime` of `gmtime` of a time point, `none` where it returns 0, and what `<<` prints.
pub record Format : Type 0 where
  pub format_time : ℤ → Option String
  pub float_text : ℕ → String
  pub double_text : ℕ → String
  pub int_text : ℤ → String
  pub unsigned_text : ℕ → String
  -- whether the path opens for appending
  pub opens : String → Bool

unfoldable pub get_config_policy : GetConfigPolicyReply
unfolding string_config_policy create_required
get_config_policy = string_config_policy (create_required String "path" true)

-- `<<` of a `bool`
abbrev pub bool_text : Bool → String
bool_text b = if b then "1" else "0"

namespace_loop : List NamespaceElement → String → String
namespace_loop [] out = out
namespace_loop (nse ∷ elements) out = namespace_loop elements (out <> ("/" <> nse.value))

tags_loop : ℕ → ℕ → Dict String → String → String
tags_loop idx tags_size [] out = out
tags_loop idx tags_size ((tag, _) ∷ tags) out =
    let written = out <> tag in
    tags_loop (idx + 1) tags_size tags (if idx == tags_size then written else written <> ", ")

-- The switch, whose cases end the line; a metric of another type writes nothing.
data_switch : Format → Metric → String
unfolding data_type number get_int_data get_int64_data get_uint32_data get_uint64_data
    get_float32_data get_float64_data get_bool_data get_string_data
data_switch f m =
    let type = data_type m in
    if type == number float32
    then f.float_text (get_float32_data m) <> "\n"
    else if type == number float64
    then f.double_text (get_float64_data m) <> "\n"
    else if type == number int32
    then f.int_text (get_int_data m) <> "\n"
    else if type == number int64
    then f.int_text (get_int64_data m) <> "\n"
    else if type == number uint32
    then f.unsigned_text (get_uint32_data m) <> "\n"
    else if type == number uint64
    then f.unsigned_text (get_uint64_data m) <> "\n"
    else if type == number bool
    then bool_text (get_bool_data m) <> "\n"
    else if type == number string
    then get_string_data m <> "\n"
    else if type == number not_set
    then "not set\n"
    else ""

write_time : Format → ℤ → String → String
write_time f ts out = elim (f.format_time ts) [ none ↦ out | some text ↦ out <> (text <> " ") ]

write_fields : Format → ℤ → Metric → String → String
unfolding namespace_loop tags_loop data_switch write_time Metric.ns Metric.tags
write_fields f ts m out =
    let (ns, m₁) = Metric.ns m in
    let named = namespace_loop ns.namespace_elements (write_time f ts out) in
    let (tags, m₂) = Metric.tags m₁ in
    let tagged = tags_loop 1 (length tags) tags (named <> " tags: [") in
    (tagged <> ("] " <> "data: ")) <> data_switch f m₂

-- The body of the loop; `none`: the time stamp overflows, which is undefined behaviour.
write_metric : Format → Metric → String → Option String
unfolding write_fields timestamp
write_metric f m out = elim (timestamp m) [ none ↦ none | some ts ↦ some (write_fields f ts m out) ]

metrics_loop : Format → List Metric → String → Option String
unfolding write_metric
metrics_loop f [] out = some out
metrics_loop f (m ∷ ms) out = elim (write_metric f m out) [
  | none ↦ none
  | some out' ↦ metrics_loop f ms out'
]

-- Opening to append creates the file.
abbrev pub content : String → Dict String → String
content path files = elim (lookup path files) [ none ↦ "" | some text ↦ text ]

-- `get_string` throws `std::out_of_range` without the setting.
unfoldable pub publish_metrics :
    Format → List Metric → ConfigMap → Dict String → Option (Outcome (Unit {0}) × Dict String)
unfolding get_string metrics_loop
publish_metrics f metrics config files = elim (get_string "path" config) [
  | none ↦ some (throws_other, files)
  | some path ↦ elim (metrics_loop f metrics (content path files)) [
    | none ↦ none
    | some text ↦ some (returns tt, if f.opens path then insert path text files else files)
  ]
]

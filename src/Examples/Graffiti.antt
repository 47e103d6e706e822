-- ===== src/Examples/Graffiti.antt =====
-- The processor of examples/processor/src/graffiti.cc, which adds tags to metrics.
pub mod Tags
pub mod Answer
use Prim.Native.Char.{code}
use snap_plugin_lib_cpp.Base.{
  ℕ, Bool, true, false, Option, none, some, List, [], ◌∷◌, String, ◌<>◌, ◌==◌, text_empty,
  if◌then◌else◌,
}
use snap_plugin_lib_cpp.Rpc.{ConfigMap}
use snap_plugin_lib_cpp.Rpc.Policy.{StringRule, GetConfigPolicyReply}
use snap_plugin_lib_cpp.Metric.{Metric, add_tag}
use snap_plugin_lib_cpp.Config.{string_config_policy, get_string}
use snap_plugin_lib_cpp.Config.Rule.{create_required, string_fields}
use snap_plugin_lib_cpp.Proxy.Handlers.{Outcome, returns, throws_other}

unfoldable pub get_config_policy : GetConfigPolicyReply
unfolding string_config_policy create_required
get_config_policy = string_config_policy (create_required String "tags" true)

-- `tags.push_back(elem)` unless it is empty
abbrev pub push_elem : String → List String → List String
push_elem elem tags = if text_empty elem then tags else elem ∷ tags

-- The loop over `getline(tag_stream, elem, ',')`, character by character; at the end of the stream
-- `getline` fails if it read nothing.
split_loop : String → String → List String
split_loop elem String.[] = push_elem elem []
split_loop elem (String.◌∷◌ c s) = elim (code c == b',') [
  | true ↦ push_elem elem (split_loop "" s)
  | false ↦ split_loop (elem <> String.◌∷◌ c String.[]) s
]

unfoldable pub split_tags : String → List String
unfolding split_loop
split_tags tags_str = split_loop "" tags_str

-- The loop over the tags of one metric.
add_tags : List String → Metric → Metric
unfolding add_tag
add_tags [] m = m
add_tags (tag ∷ tags) m = add_tags tags (add_tag tag "present" m)

metrics_loop : List String → List Metric → List Metric
unfolding add_tags
metrics_loop tags [] = []
metrics_loop tags (m ∷ ms) = add_tags tags m ∷ metrics_loop tags ms

-- `config.get_string` throws `std::out_of_range`, which is no PluginException.
unfoldable pub process_metrics : List Metric → ConfigMap → Outcome (List Metric)
unfolding get_string split_tags metrics_loop
process_metrics metrics config = elim (get_string "tags" config) [
  | none ↦ throws_other
  | some tags_str ↦ returns (metrics_loop (split_tags tags_str) metrics)
]

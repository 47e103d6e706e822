-- ===== src/Examples/Graffiti/Answer.antt =====
-- What the call `Process` answers when the plugin is the processor.
use snap_plugin_lib_cpp.Base.{
  ◌≡◌, refl, ap, ◌∙◌, ite, Bool, true, false, if◌then◌else◌, none, some, List, [], ◌∷◌, All, map,
  String, str_dec, intersperse, arith,
}
use snap_plugin_lib_cpp.Base.Dict.{Dict, lookup, insert, lookup-insert}
use snap_plugin_lib_cpp.Rpc
use snap_plugin_lib_cpp.Rpc.{ConfigMap}
use snap_plugin_lib_cpp.Metric.{Metric, wrap, add_tag}
use snap_plugin_lib_cpp.Config.{get_string}
use snap_plugin_lib_cpp.Proxy.Handlers.{
  Outcome, returns, throws_other, answers, status_ok, escapes, process,
}
use snap_plugin_lib_cpp.Proxy.Replies.{new_reply, expected, collect_metrics-process}
use snap_plugin_lib_cpp.Examples.Graffiti.{add_tags, metrics_loop, process_metrics}
use snap_plugin_lib_cpp.Examples.Graffiti.Tags.{IsTag, split_tags-intersperse}

-- The method of the plugin, which keeps no state.
abbrev pub graffiti : List Metric → ConfigMap → Unit {0} → Outcome (List Metric) × Unit {0}
graffiti metrics config s = (process_metrics metrics config, s)

-- The tags with each of the listed ones present.
abbrev pub tagged : List String → Dict String → Dict String
tagged [] d = d
tagged (t ∷ ts) d = tagged ts (insert t "present" d)

add_tags_lem :
    (ts : List String) (m : Metric)
    → (add_tags ts m).rpc ≡ record m.rpc { tags = tagged ts m.rpc.tags }
unfolding add_tags
add_tags_lem [] m = refl
add_tags_lem (t ∷ ts) m = add_tags_lem ts (add_tag t "present" m)

-- The message with each of the listed tags present.
abbrev pub tag_message : List String → Rpc.Metric → Rpc.Metric
tag_message ts m = record m { tags = tagged ts m.tags }

metrics_loop-map :
    (ts : List String) (ms : List Rpc.Metric)
    → map (λ m. m.rpc) (metrics_loop ts (map wrap ms)) ≡ map (tag_message ts) ms
unfolding metrics_loop wrap
metrics_loop-map ts [] = refl
metrics_loop-map ts (m ∷ ms) =
    ap (λ r. r ∷ map (λ m. m.rpc) (metrics_loop ts (map wrap ms))) (add_tags_lem ts (wrap m))
    ∙ ap (λ rs. tag_message ts m ∷ rs) (metrics_loop-map ts ms)

abbrev pub is_listed : String → List String → Bool
is_listed k [] = false
is_listed k (t ∷ ts) = ite (str_dec t k) true (is_listed k ts)

-- A listed tag has the value "present", whatever it was before; another is as it was.
pub lookup-tagged :
    (k : String) (ts : List String) (d : Dict String)
    → lookup k (tagged ts d) ≡ (if is_listed k ts then some "present" else lookup k d)
lookup-tagged k [] d = refl
lookup-tagged k (t ∷ ts) d =
    ground (arith, lookup-tagged k ts (insert t "present" d), lookup-insert t k "present" d)

process_metrics_set :
    (ts : List String) (ms : List Metric) (config : ConfigMap)
    → All IsTag ts
    → get_string "tags" config ≡ some (intersperse "," ts)
    → process_metrics ms config ≡ returns (metrics_loop ts ms)
unfolding process_metrics
process_metrics_set ts ms config hs e = rw (e, process_metrics, split_tags-intersperse ts hs) refl

process_metrics_unset :
    (ms : List Metric) (config : ConfigMap)
    → get_string "tags" config ≡ none
    → process_metrics ms config ≡ throws_other
unfolding process_metrics
process_metrics_unset ms config e = rw (e, process_metrics) refl

-- The processor whose setting "tags" names tags that are not empty and have no comma, separated by
-- commas, answers `Process` with the metrics of the request, all and in order, and status OK: each
-- with the listed tags set to "present", its other tags and its other fields as they came.
pub process-graffiti :
    (ts : List String) (req : List Rpc.Metric) (config : ConfigMap) (k : String) (d : Dict String)
    → All IsTag ts
    → get_string "tags" config ≡ some (intersperse "," ts)
    → (process graffiti req config new_reply tt
        ≡ (answers (record { metrics = map (tag_message ts) req; error = "" }) status_ok, tt))
      × (lookup k (tagged ts d) ≡ (if is_listed k ts then some "present" else lookup k d))
unfolding process_metrics
process-graffiti ts req config k d hs e = (
  (collect_metrics-process (λ ms s. (returns ms, s)) graffiti req config tt).1
      ∙ ap (λ o. (expected o, tt)) (process_metrics_set ts (map wrap req) config hs e)
      ∙ ap (λ ms. (answers (record { metrics = ms; error = "" }) status_ok, tt))
          (metrics_loop-map ts req),
  lookup-tagged k ts d,
)

-- Without the setting, `at` throws an exception that the handler does not catch.
process-graffiti_unset :
    (req : List Rpc.Metric) (config : ConfigMap)
    → get_string "tags" config ≡ none
    → process graffiti req config new_reply tt ≡ (escapes, tt)
unfolding process_metrics
process-graffiti_unset req config e =
    (collect_metrics-process (λ ms s. (returns ms, s)) graffiti req config tt).1
    ∙ ap (λ o. (expected o, tt)) (process_metrics_unset (map wrap req) config e)

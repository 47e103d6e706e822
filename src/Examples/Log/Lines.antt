-- ===== src/Examples/Log/Lines.antt =====
-- The text that the publisher appends.
use text.Mathlib.TextLemmas.{append-nil, append_assoc}
use snap_plugin_lib_cpp.Base.{
  ℕ, ◌+◌, suc, ◌≡◌, refl, sym, ap, ◌∙◌, true, none, some, List, [], ◌∷◌, map, String, ◌<>◌, ◌==◌,
  All, ite, str_dec, length, intersperse, arith, if◌then◌else◌,
}
use snap_plugin_lib_cpp.Base.Int.{ℤ}
use snap_plugin_lib_cpp.Base.Sorted.{from_range, IsAscending, from_range-IsAscending}
use snap_plugin_lib_cpp.Base.Dict.{Dict, lookup, insert, lookup-insert}
use snap_plugin_lib_cpp.Rpc
use snap_plugin_lib_cpp.Rpc.{ConfigMap}
use snap_plugin_lib_cpp.Namespace.Element.{NamespaceElement}
use snap_plugin_lib_cpp.Metric
use snap_plugin_lib_cpp.Metric.{Metric, wrap}
use snap_plugin_lib_cpp.Metric.Memo.{map-value-rpc_namespace, ns_lem, blank}
use snap_plugin_lib_cpp.Metric.Clock.{timestamp}
use snap_plugin_lib_cpp.Config.{get_string}
use snap_plugin_lib_cpp.Proxy.Handlers.{returns}
use snap_plugin_lib_cpp.Examples.Log.{
  Format, bool_text, namespace_loop, tags_loop, data_switch, write_time, write_fields, write_metric,
  metrics_loop, content, publish_metrics,
}

-- Each name after a slash.
abbrev pub path_text : List String → String
path_text [] = ""
path_text (name ∷ names) = ("/" <> name) <> path_text names

namespace_loop_lem :
    (es : List NamespaceElement) (out : String)
    → namespace_loop es out ≡ out <> path_text (map (λ e. e.value) es)
unfolding namespace_loop
namespace_loop_lem [] out = sym (append-nil out)
namespace_loop_lem (e ∷ es) out =
    namespace_loop_lem es (out <> ("/" <> e.value))
    ∙ append_assoc out ("/" <> e.value) (path_text (map (λ e. e.value) es))

abbrev pub keys : Dict String → List String
keys = map (λ entry. entry.0)

tags_loop_lem :
    (idx n : ℕ) (tags : Dict String) (out : String)
    → suc n ≡ idx + length tags
    → tags_loop idx n tags out ≡ out <> intersperse ", " (keys tags)
unfolding tags_loop
tags_loop_lem idx n [] out h = sym (append-nil out)
tags_loop_lem idx n (t ∷ []) out h = ground arith
tags_loop_lem idx n (t ∷ u ∷ tags) out h =
    tags_loop_lem (idx + 1) n (u ∷ tags) (if idx == n then out <> t.0 else (out <> t.0) <> ", ")
      (omega arith)
    ∙ ground (
      arith,
      append_assoc (out <> t.0) ", " (intersperse ", " (keys (u ∷ tags))),
      append_assoc out t.0 (", " <> intersperse ", " (keys (u ∷ tags))),
    )

-- The datum as text, with the end of the line; of bytes neither is written.
abbrev pub datum_text : Format → Rpc.Datum → String
datum_text f Rpc.data_not_set = "not set\n"
datum_text f (Rpc.k_string_data v) = v <> "\n"
datum_text f (Rpc.k_float32_data v) = f.float_text v <> "\n"
datum_text f (Rpc.k_float64_data v) = f.double_text v <> "\n"
datum_text f (Rpc.k_int32_data v) = f.int_text v <> "\n"
datum_text f (Rpc.k_int64_data v) = f.int_text v <> "\n"
datum_text f (Rpc.k_bytes_data v) = ""
datum_text f (Rpc.k_bool_data v) = bool_text v <> "\n"
datum_text f (Rpc.k_uint32_data v) = f.unsigned_text v <> "\n"
datum_text f (Rpc.k_uint64_data v) = f.unsigned_text v <> "\n"

with_datum :
    (f : Format) (d : Rpc.Datum) (m : Metric)
    → data_switch f (record m { rpc = record m.rpc { datum = d } }) ≡ datum_text f d
unfolding data_switch
with_datum f Rpc.data_not_set m = refl
with_datum f (Rpc.k_string_data v) m = refl
with_datum f (Rpc.k_float32_data v) m = refl
with_datum f (Rpc.k_float64_data v) m = refl
with_datum f (Rpc.k_int32_data v) m = refl
with_datum f (Rpc.k_int64_data v) m = refl
with_datum f (Rpc.k_bytes_data v) m = refl
with_datum f (Rpc.k_bool_data v) m = refl
with_datum f (Rpc.k_uint32_data v) m = refl
with_datum f (Rpc.k_uint64_data v) m = refl

data_switch_lem : (f : Format) (m : Metric) → data_switch f m ≡ datum_text f m.rpc.datum
data_switch_lem f m = with_datum f m.rpc.datum m

abbrev pub time_text : Format → ℤ → String
time_text f ts = elim (f.format_time ts) [ none ↦ "" | some text ↦ text <> " " ]

write_time_lem : (f : Format) (ts : ℤ) (out : String) → write_time f ts out ≡ out <> time_text f ts
unfolding write_time
write_time_lem f ts out = ground (arith, append-nil out)

-- The tags in the order of their keys.
abbrev pub sorted_tags : Rpc.Metric → Dict String
sorted_tags m = from_range m.tags

-- The line of a metric that a client sent, at its time.
abbrev pub line : Format → ℤ → Rpc.Metric → String
line f ts m =
    time_text f ts
    <> (path_text (map (λ e. e.value) m.namespace)
        <> (" tags: ["
            <> (intersperse ", " (keys (sorted_tags m)) <> ("] data: " <> datum_text f m.datum))))

regroup :
    (out t n a l b d : String)
    → (((((out <> t) <> n) <> a) <> l) <> b) <> d ≡ out <> (t <> (n <> (a <> (l <> (b <> d)))))
regroup out t n a l b d = simp (append_assoc)

write_fields_lem :
    (f : Format) (ts : ℤ) (m : Rpc.Metric) (out : String)
    → write_fields f ts (wrap m) out ≡ out <> line f ts m
unfolding write_fields wrap
write_fields_lem f ts m out =
    let (found, _, _, _) = ns_lem (wrap m) (blank refl) in
    let elements = (Metric.ns (wrap m)).0.namespace_elements in
    let timed = write_time f ts out in
    let listing = intersperse ", " (keys (sorted_tags m)) in
    let m' = (Metric.tags (Metric.ns (wrap m)).1).1 in
    ap (λ x. (x <> ("] " <> "data: ")) <> data_switch f m')
      (tags_loop_lem 1 (length (sorted_tags m)) (sorted_tags m)
        (namespace_loop elements timed <> " tags: [") (omega arith))
    ∙ ap (λ x. (((x <> " tags: [") <> listing) <> "] data: ") <> data_switch f m')
        (namespace_loop_lem elements timed
          ∙ ap (λ names. timed <> path_text names)
              (ap (map (λ e. e.value)) found ∙ map-value-rpc_namespace (wrap m))
          ∙ ap (λ x. x <> path_text (map (λ e. e.value) m.namespace)) (write_time_lem f ts out))
    ∙ ap
        (λ d.
          (((((out <> time_text f ts) <> path_text (map (λ e. e.value) m.namespace)) <> " tags: [")
              <> listing)
            <> "] data: ")
          <> d)
        (data_switch_lem f m')
    ∙ regroup out (time_text f ts) (path_text (map (λ e. e.value) m.namespace)) " tags: [" listing
        "] data: " (datum_text f m.datum)

write_metric_lem :
    (f : Format) (ts : ℤ) (m : Rpc.Metric) (out : String)
    → timestamp (wrap m) ≡ some ts
    → write_metric f (wrap m) out ≡ some (out <> line f ts m)
unfolding write_metric
write_metric_lem f ts m out e = rw (e, write_metric) (ap some (write_fields_lem f ts m out))

-- The lines of the metrics, at their times.
abbrev pub lines : Format → List (ℤ × Rpc.Metric) → String
lines f [] = ""
lines f ((ts, m) ∷ rest) = line f ts m <> lines f rest

metrics_loop_lem :
    (f : Format) (ms : List (ℤ × Rpc.Metric)) (out : String)
    → All (λ entry. timestamp (wrap entry.1) ≡ some entry.0) ms
    → metrics_loop f (map (λ entry. wrap entry.1) ms) out ≡ some (out <> lines f ms)
unfolding metrics_loop
metrics_loop_lem f [] out h = ap some (sym (append-nil out))
metrics_loop_lem f ((ts, m) ∷ ms) out (e, es) =
    rw (write_metric_lem f ts m out e, metrics_loop)
      (metrics_loop_lem f ms (out <> line f ts m) es
        ∙ ap some (append_assoc out (line f ts m) (lines f ms)))

sorted : (ms : List (ℤ × Rpc.Metric)) → All (λ entry. IsAscending (sorted_tags entry.1)) ms
sorted [] = tt
sorted ((ts, m) ∷ ms) = (from_range-IsAscending m.tags, sorted ms)

-- The publisher whose setting "path" names a file that opens appends to that file one text for each
-- metric, in their order, if their time stamps lie in the clock's range: the time, the names of the
-- namespace after slashes, the tags' keys in ascending order with ", " between them, and the datum with
-- the end of the line, neither of which is written for bytes. It changes no other file.
pub publish_metrics-lines :
    (f : Format) (ms : List (ℤ × Rpc.Metric)) (config : ConfigMap) (files : Dict String)
    (path other : String)
    → get_string "path" config ≡ some path
    → f.opens path ≡ true
    → All (λ entry. timestamp (wrap entry.1) ≡ some entry.0) ms
    → (files' : Dict String) × (publish_metrics f (map (λ entry. wrap entry.1) ms) config files
        ≡ some (returns tt, files'))
      × (lookup other files'
          ≡ ite (str_dec path other) (some (content path files <> lines f ms)) (lookup other files))
      × All (λ entry. IsAscending (sorted_tags entry.1)) ms
unfolding publish_metrics
publish_metrics-lines f ms config files path other e opened times = (
  insert path (content path files <> lines f ms) files,
  rw (e, publish_metrics, metrics_loop_lem f ms (content path files) times, opened) refl,
  lookup-insert path other (content path files <> lines f ms) files,
  sorted ms,
)

-- ===== src/Examples/Collector/Collected.antt =====
-- What the steps of the collector add to its results.
use snap_plugin_lib_cpp.Base.{
  map-append, ℕ, zero, suc, ◌+◌, ◌≡◌, refl, sym, ap, ◌∙◌, List, [], ◌∷◌, ◌++◌, append-nil,
  append_assoc, map, String,
}
use snap_plugin_lib_cpp.Base.Int.{ℤ}
use snap_plugin_lib_cpp.Base.Dict.{Dict}
use snap_plugin_lib_cpp.Rpc
use snap_plugin_lib_cpp.Namespace.{Namespace}
use snap_plugin_lib_cpp.Namespace.Element.{NamespaceElement}
use snap_plugin_lib_cpp.Metric.{Metric, wrap, copy, set_ns}
use snap_plugin_lib_cpp.Metric.Clock.{set_timestamp}
use snap_plugin_lib_cpp.Metric.Memo.{map-value-rpc_namespace, set_ns_lem}
use snap_plugin_lib_cpp.Metric.Data.{set_data}
use snap_plugin_lib_cpp.Examples.Entries.{Entry, entry, datum_of, set_data_lem}
use snap_plugin_lib_cpp.Examples.Types.{
  Conversions, random_data_lem, value_for, meaning, metric_types,
}
use snap_plugin_lib_cpp.Examples.Collector.{
  State, set_value_at, push_result, collect_static, dynamic_metric, collect_dynamic,
}

-- The list with another element at an index.
abbrev pub replace_at : ℕ → String → List String → List String
replace_at i x [] = []
replace_at zero x (y ∷ ys) = x ∷ ys
replace_at (suc i) x (y ∷ ys) = y ∷ replace_at i x ys

set_value_at_lem :
    (i : ℕ) (x : String) (es : List NamespaceElement)
    → map (λ e. e.value) (set_value_at i x es) ≡ replace_at i x (map (λ e. e.value) es)
unfolding set_value_at
set_value_at_lem i x [] = refl
set_value_at_lem zero x (e ∷ es) = refl
set_value_at_lem (suc i) x (e ∷ es) = ap (λ ys. e.value ∷ ys) (set_value_at_lem i x es)

module _ (c : Conversions) (clock : ℕ → ℤ) (r : ℕ) where
  unfoldable pub entries : State → List Entry
  entries s = map (λ m. entry m.rpc) s.result_metrics

  pub entries-types :
      (types : Dict ℕ) (s : State) → entries (record s { types = types }) ≡ entries s
  unfolding entries
  entries-types types s = refl

  push_result_lem :
      (m : Metric) (s : State)
      → (entries (push_result c clock r m s) ≡ entries s ++ (entry m.rpc ∷ []))
        × ((push_result c clock r m s).types ≡ s.types)
  unfolding push_result entries
  push_result_lem m s = (
    map-append (λ m'. entry m'.rpc) s.result_metrics
        (copy (set_timestamp (clock s.readings) m) ∷ []),
    refl,
  )

  dynamic_metric_lem :
      (i : ℕ) (ns : Namespace)
      → entry (dynamic_metric c clock r i ns).rpc ≡ (
        replace_at 4 (c.to_string i) (map (λ e. e.value) ns.namespace_elements),
        Rpc.k_uint64_data r,
      )
  unfolding dynamic_metric
  dynamic_metric_lem i ns =
      let moved = record ns {
        namespace_elements = set_value_at 4 (c.to_string i) ns.namespace_elements;
      } in
      let m = set_ns moved (wrap Rpc.new_metric) in
      ap (λ names. (names, Rpc.k_uint64_data r))
        (sym (map-value-rpc_namespace m)
          ∙ ap (map (λ e. e.value)) (set_ns_lem moved (wrap Rpc.new_metric)).0
          ∙ set_value_at_lem 4 (c.to_string i) ns.namespace_elements)

  -- What the loop for a dynamic metric produces from round `i`.
  pub copies : ℕ → ℕ → List String → List Entry
  copies zero i names = []
  copies (suc rounds) i names =
      (replace_at 4 (c.to_string i) names, Rpc.k_uint64_data r) ∷ copies rounds (i + 1) names

  pub collect_dynamic_lem :
      (rounds i : ℕ) (ns : Namespace) (s : State)
      → (entries (collect_dynamic c clock r rounds i ns s)
          ≡ entries s ++ copies rounds i (map (λ e. e.value) ns.namespace_elements))
        × ((collect_dynamic c clock r rounds i ns s).types ≡ s.types)
  unfolding collect_dynamic copies
  collect_dynamic_lem zero i ns s = (sym (append-nil (entries s)), refl)
  collect_dynamic_lem (suc rounds) i ns s =
      let (pushed, typed) = push_result_lem (dynamic_metric c clock r i ns) s in
      let (rest, typed') =
        collect_dynamic_lem rounds (i + 1) ns
          (push_result c clock r (dynamic_metric c clock r i ns) s) in
      (
        rest
            ∙ ap (λ es. es ++ copies rounds (i + 1) (map (λ e. e.value) ns.namespace_elements))
                (pushed ∙ ap (λ x. entries s ++ (x ∷ [])) (dynamic_metric_lem i ns))
            ∙ append_assoc (entries s)
                ((
                  replace_at 4 (c.to_string i) (map (λ e. e.value) ns.namespace_elements),
                  Rpc.k_uint64_data r,
                )
                  ∷ [])
                (copies rounds (i + 1) (map (λ e. e.value) ns.namespace_elements)),
        typed' ∙ typed,
      )

  pub collect_static_lem :
      (m : Metric) (name : String) (n : ℕ) (s : State)
      → n ≡ meaning name metric_types
      → (entries (collect_static c clock r m n s)
          ≡ entries s ++ (((entry m.rpc).0, datum_of (value_for c r name)) ∷ []))
        × ((collect_static c clock r m n s).types ≡ s.types)
  unfolding collect_static
  collect_static_lem m name n s e =
      let (pushed, typed) = push_result_lem (set_data (value_for c r name) m) s in
      rw (e, collect_static, random_data_lem c r name)
        (pushed ∙ ap (λ x. entries s ++ (x ∷ [])) (set_data_lem (value_for c r name) m), typed)

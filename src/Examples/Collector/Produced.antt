-- ===== src/Examples/Collector/Produced.antt =====
-- What the collector returns, metric by metric.
use snap_plugin_lib_cpp.Base.{
  ℕ, ◌≡◌, refl, sym, ap, ◌∙◌, inl, inr, Bool, Option, none, some, Option-cases, Bool-cases, List,
  [], ◌∷◌, ◌++◌, append-nil, map, get_elem?, if◌then◌else◌,
}
use snap_plugin_lib_cpp.Base.Int.{ℤ, pos, negsuc}
use snap_plugin_lib_cpp.Base.Dict.{Dict}
use snap_plugin_lib_cpp.Rpc
use snap_plugin_lib_cpp.Namespace
use snap_plugin_lib_cpp.Namespace.{Namespace}
use snap_plugin_lib_cpp.Metric
use snap_plugin_lib_cpp.Metric.{Metric, wrap}
use snap_plugin_lib_cpp.Metric.Memo.{rpc_namespace, map-value-rpc_namespace, ns_lem, blank}
use snap_plugin_lib_cpp.Config.{get_int}
use snap_plugin_lib_cpp.Proxy.Handlers.{Outcome, returns, throws_plugin_exception, throws_other}
use snap_plugin_lib_cpp.Examples.Types.{Conversions, index, value_for, IsTyping, index-IsTyping}
use snap_plugin_lib_cpp.Examples.Collector.{
  State, config_of, collect_static, collect_dynamic, collect_repeated, collect_named,
  collect_metric, collect_loop, collect_metrics,
}
use snap_plugin_lib_cpp.Examples.Collector.Collected.{
  entries, copies, entries-types, collect_dynamic_lem, collect_static_lem,
}
use snap_plugin_lib_cpp.Examples.Entries.{Entry, datum_of, names_of, fifth}

-- Whether some element of the message's namespace has a name.
abbrev pub is_dynamic_message : Rpc.Metric → Bool
is_dynamic_message m = Namespace.is_dynamic (record { namespace_elements = rpc_namespace (wrap m) })

module _ (c : Conversions) (clock : ℕ → ℤ) (r : ℕ) where
  -- An entry for each number below the setting, with that number as fifth name.
  pub repeated : Rpc.Metric → Outcome (List Entry)
  repeated m = elim (get_int "dynamic_count" (config_of m)) [
    | none ↦ throws_other
    | some (pos count) ↦ returns (copies c clock r count 0 (names_of m))
    | some (negsuc _) ↦ returns []
  ]

  -- What one metric of a request calls for: undefined behaviour without a fifth element; else, for a
  -- static metric, its names with a value of the type that the fifth one names; for a dynamic one,
  -- as many entries as the setting says, which must be there.
  pub produced : Rpc.Metric → Option (Outcome (List Entry))
  produced m = elim (get_elem? (names_of m) 4) [
    | none ↦ none
    | some name ↦ some (
        if is_dynamic_message m
        then repeated m
        else returns ((names_of m, datum_of (value_for c r name)) ∷ []))
  ]

  -- The entries of all of them, up to the first that fails.
  pub produced_all : List Entry → List Rpc.Metric → Option (Outcome (List Entry))
  produced_all es [] = some (returns es)
  produced_all es (m ∷ ms) = elim (produced m) [
    | none ↦ none
    | some (returns es') ↦ produced_all (es ++ es') ms
    | some (throws_plugin_exception e) ↦ some (throws_plugin_exception e)
    | some throws_other ↦ some throws_other
  ]

  -- The entries of an outcome.
  pub results : Option (Outcome State) → Option (Outcome (List Entry))
  results none = none
  results (some (returns s)) = some (returns (entries c clock r s))
  results (some (throws_plugin_exception e)) = some (throws_plugin_exception e)
  results (some throws_other) = some throws_other

  -- The three ways in which a metric ends, alike in the code and in the description.
  data Agrees (s : State) (x : Option (Outcome State)) (y : Option (Outcome (List Entry)))
      : Type 0 where
    undefined : x ≡ none → y ≡ none → Agrees s x y
    escapes : x ≡ some throws_other → y ≡ some throws_other → Agrees s x y
    goes_on :
        (s' : State) (es : List Entry)
        → x ≡ some (returns s')
        → y ≡ some (returns es)
        → entries c clock r s' ≡ entries c clock r s ++ es
        → IsTyping s'.types
        → Agrees s x y

  collect_dynamic-Agrees :
      (ns : Namespace) (m : Rpc.Metric) (s s' : State)
      → map (λ e. e.value) ns.namespace_elements ≡ names_of m
      → entries c clock r s' ≡ entries c clock r s
      → IsTyping s'.types
      → Agrees s (some (collect_repeated c clock r ns m s')) (some (repeated m))
  unfolding collect_repeated repeated
  collect_dynamic-Agrees ns m s s' names kept h =
      elim (Option-cases (get_int "dynamic_count" (config_of m))) [
        | inl unset ↦ escapes (rw (unset, collect_repeated) refl) (rw (unset, repeated) refl)
        | inr (pos count, set) ↦
            let (added, typed) = collect_dynamic_lem c clock r count 0 ns s' in
            goes_on (collect_dynamic c clock r count 0 ns s')
              (copies c clock r count 0 (names_of m)) (rw (set, collect_repeated) refl)
              (rw (set, repeated) refl)
              (added
                ∙ ap
                    (λ es.
                      es ++ copies c clock r count 0 (map (λ e. e.value) ns.namespace_elements))
                    kept
                ∙ ap (λ xs. entries c clock r s ++ copies c clock r count 0 xs) names)
              (rw typed h)
        | inr (negsuc n, set) ↦
            goes_on s' [] (rw (set, collect_repeated) refl) (rw (set, repeated) refl)
              (kept ∙ sym (append-nil (entries c clock r s))) h
      ]

  collect_named-Agrees :
      (ns : Namespace) (m' : Metric) (m : Rpc.Metric) (s : State)
      → map (λ e. e.value) ns.namespace_elements ≡ names_of m
      → Namespace.is_dynamic ns ≡ is_dynamic_message m
      → m'.rpc ≡ m
      → IsTyping s.types
      → Agrees s (collect_named c clock r ns m' s) (produced m)
  unfolding collect_named produced
  collect_named-Agrees ns m' m s names dynamic same h = elim (Option-cases (Namespace.at ns 4)) [
    | inl missing ↦
        undefined (rw (missing, collect_named) refl) (rw (produced, fifth ns m names missing) refl)
    | inr (element, found) ↦
        let types = (index element.value s.types).1 in
        let s' : State = record s { types = types } in
        let (numbered, typed) = index-IsTyping element.value s.types h in
        elim (Bool-cases (is_dynamic_message m)) [
          | inl moving ↦
              rw (found, collect_named, fifth ns m names found, produced, dynamic, moving, same)
                (collect_dynamic-Agrees ns m s s' names (entries-types c clock r types s) typed)
          | inr still ↦
              let (added, typed') =
                collect_static_lem c clock r m' element.value (index element.value s.types).0 s'
                  numbered in
              goes_on (collect_static c clock r m' (index element.value s.types).0 s')
                ((names_of m, datum_of (value_for c r element.value)) ∷ [])
                (rw (found, collect_named, dynamic, still) refl)
                (rw (fifth ns m names found, produced, still) refl)
                (added
                  ∙ ap
                      (λ es. es ++ ((names_of m'.rpc, datum_of (value_for c r element.value)) ∷ []))
                      (entries-types c clock r types s)
                  ∙ ap
                      (λ x.
                        entries c clock r s
                        ++ ((names_of x, datum_of (value_for c r element.value)) ∷ []))
                      same)
                (rw typed' typed)
        ]
  ]

  collect_metric-Agrees :
      (m : Rpc.Metric) (s : State)
      → IsTyping s.types
      → Agrees s (collect_metric c clock r (wrap m) s) (produced m)
  unfolding collect_metric
  collect_metric-Agrees m s h =
      let (found, _, same, _) = ns_lem (wrap m) (blank refl) in
      collect_named-Agrees (Metric.ns (wrap m)).0 (Metric.ns (wrap m)).1 m s
        (ap (map (λ e. e.value)) found ∙ map-value-rpc_namespace (wrap m))
        (ap (λ es. Namespace.is_dynamic (record { namespace_elements = es })) found) same h

  collect_loop_lem :
      (ms : List Rpc.Metric) (s : State)
      → IsTyping s.types
      → results (collect_loop c clock r (map wrap ms) s) ≡ produced_all (entries c clock r s) ms
  unfolding collect_loop produced_all results
  collect_loop_lem [] s h = refl
  collect_loop_lem (m ∷ ms) s h = elim (collect_metric-Agrees m s h) [
    | undefined e e' ↦ rw (e, e', collect_loop, produced_all) refl
    | escapes e e' ↦ rw (e, e', collect_loop, produced_all) refl
    | goes_on s' es e e' adds h' ↦
        rw (e, e', collect_loop, produced_all)
          (collect_loop_lem ms s' h' ∙ ap (λ es'. produced_all es' ms) adds)
  ]

  -- If its map of types means what it was declared to mean, the collector answers a request with what
  -- its metrics call for, metric by metric and in their order, whatever number was drawn and whatever
  -- the clock reads; it fails exactly where a metric calls for that.
  pub collect_metrics-produced :
      (req : List Rpc.Metric) (types : Dict ℕ) (readings : ℕ)
      → IsTyping types
      → results (collect_metrics c clock r (map wrap req) types readings) ≡ produced_all [] req
  unfolding collect_metrics entries
  collect_metrics-produced req types readings h =
      collect_loop_lem req (record { types = types; readings = readings; result_metrics = [] }) h

-- ===== src/Examples/Streamer/Filled.antt =====
-- What the loop of `stream_it` leaves in a metric.
use snap_plugin_lib_cpp.Base.{
  ℕ, ◌≡◌, ◌⊎◌, refl, sym, ap, ◌∙◌, inl, inr, none, some, Option-cases, map, get_elem?, String,
}
use snap_plugin_lib_cpp.Base.Int.{ℤ}
use snap_plugin_lib_cpp.Base.Dict.{Dict}
use snap_plugin_lib_cpp.Rpc
use snap_plugin_lib_cpp.Namespace
use snap_plugin_lib_cpp.Metric
use snap_plugin_lib_cpp.Metric.{Metric, copy}
use snap_plugin_lib_cpp.Metric.Clock.{set_timestamp}
use snap_plugin_lib_cpp.Metric.Data.{Value, set_data}
use snap_plugin_lib_cpp.Metric.Memo.{
  IsCoherent, kept-IsCoherent, ns-IsCoherent, ns_lem, map-value-rpc_namespace,
}
use snap_plugin_lib_cpp.Examples.Types.{
  Conversions, index, random_data, random_data_lem, value_for, IsTyping, index-IsTyping,
}
use snap_plugin_lib_cpp.Examples.Entries.{
  entry, datum_of, set_data_lem, set_data_kept, names_of, fifth,
}
use snap_plugin_lib_cpp.Examples.Streamer.{Rando, fill}

-- The datum is of the type that the fifth name of the namespace asks for.
abbrev pub IsFilled : Conversions → Rpc.Metric → Type 0
IsFilled c m =
    (name : String) × (r : ℕ) × (get_elem? (entry m).0 4 ≡ some name)
    × (m.datum ≡ datum_of (value_for c r name))

-- A metric in the vector behind the loop.
abbrev pub IsDone : Conversions → Metric → Type 0
IsDone c m = IsFilled c m.rpc × IsCoherent m

module _ (c : Conversions) (clock : ℕ → ℤ) (r : ℕ) where
  written : ℕ → Value → Metric → Metric
  written i v m = set_timestamp (clock i) (set_data v m)

  written-IsDone :
      (i : ℕ) (name : String) (m : Metric)
      → get_elem? (entry m.rpc).0 4 ≡ some name
      → IsCoherent m
      → IsDone c (written i (value_for c r name) m)
  unfolding written set_timestamp
  written-IsDone i name m e h =
      let v = value_for c r name in
      let m' = set_data v m in
      (
        (
          name,
          r,
          ap (λ x. get_elem? x.0 4) (set_data_lem v m) ∙ e,
          ap (λ x. x.1) (set_data_lem v m),
        ),
        kept-IsCoherent m (written i v m) (set_data_kept v m).0 (set_data_kept v m).1 h,
      )

  pub fill_cases :
      (i : ℕ) (m : Metric) (s : Rando)
      → IsCoherent m
      → IsTyping s.types
      → (fill c clock r i m s ≡ none)
        ⊎ ((m' : Metric) × (types : Dict ℕ) × (fill c clock r i m s
              ≡ some (m', record s { types = types }))
            × IsDone c m'
            × IsTyping types)
  unfolding fill written
  fill_cases i m s coherent h = elim (Option-cases (Namespace.at (Metric.ns m).0 4)) [
    | inl missing ↦ inl (rw (missing, fill) refl)
    | inr (element, found) ↦
        let (numbered, typed) = index-IsTyping element.value s.types h in
        let (same_names, _, same, _) = ns_lem m coherent in
        let names : map (λ e. e.value) (Metric.ns m).0.namespace_elements
            ≡ names_of (Metric.ns m).1.rpc =
          ap (map (λ e. e.value)) same_names ∙ map-value-rpc_namespace m ∙ ap names_of (sym same) in
        let known = ap (random_data c r) numbered ∙ random_data_lem c r element.value in
        inr (
          written i (value_for c r element.value) (Metric.ns m).1,
          (index element.value s.types).1,
          (rw (found, known, fill) refl),
          written-IsDone i element.value (Metric.ns m).1
              (fifth (Metric.ns m).0 (Metric.ns m).1.rpc names found) (ns-IsCoherent m coherent),
          typed,
        )
  ]

-- ===== src/Examples/Entries.antt =====
-- The part of a metric that the two collectors named Rando write: its names and its datum.
use snap_plugin_lib_cpp.Base.{
  ◌≡◌, refl, sym, ap, ◌∙◌, ℕ, zero, suc, Option, none, some, List, [], ◌∷◌, map, get_elem?, String,
}
use snap_plugin_lib_cpp.Rpc
use snap_plugin_lib_cpp.Namespace
use snap_plugin_lib_cpp.Namespace.{Namespace}
use snap_plugin_lib_cpp.Namespace.Element
use snap_plugin_lib_cpp.Namespace.Element.{NamespaceElement}
use snap_plugin_lib_cpp.Metric.{Metric}
use snap_plugin_lib_cpp.Metric.Data.{
  Value, of_float, of_double, of_int32, of_int64, of_uint32, of_uint64, of_bool, of_string,
  set_data,
}

-- The values of the namespace and the datum.
abbrev pub Entry : Type 0
Entry = List String × Rpc.Datum

abbrev pub entry : Rpc.Metric → Entry
entry m = (map (λ e. e.value) m.namespace, m.datum)

abbrev pub datum_of : Value → Rpc.Datum
datum_of (of_float v) = Rpc.k_float32_data v
datum_of (of_double v) = Rpc.k_float64_data v
datum_of (of_int32 v) = Rpc.k_int32_data v
datum_of (of_int64 v) = Rpc.k_int64_data v
datum_of (of_uint32 v) = Rpc.k_uint32_data v
datum_of (of_uint64 v) = Rpc.k_uint64_data v
datum_of (of_bool v) = Rpc.k_bool_data v
datum_of (of_string v) = Rpc.k_string_data v

pub set_data_lem :
    (v : Value) (m : Metric) → entry (set_data v m).rpc ≡ ((entry m.rpc).0, datum_of v)
unfolding set_data
set_data_lem (of_float v) m = refl
set_data_lem (of_double v) m = refl
set_data_lem (of_int32 v) m = refl
set_data_lem (of_int64 v) m = refl
set_data_lem (of_uint32 v) m = refl
set_data_lem (of_uint64 v) m = refl
set_data_lem (of_bool v) m = refl
set_data_lem (of_string v) m = refl

get_elem?-map :
    (i : ℕ) (es : List NamespaceElement)
    → get_elem? (map (λ e. e.value) es) i
      ≡ (elim (get_elem? es i) as (λ _. Option String) [ none ↦ none | some e ↦ some e.value ])
get_elem?-map i [] = refl
get_elem?-map zero (e ∷ es) = refl
get_elem?-map (suc i) (e ∷ es) = get_elem?-map i es

abbrev pub names_of : Rpc.Metric → List String
names_of m = map (λ e. e.value) m.namespace

-- What the message has as its fifth name.
pub fifth :
    (ns : Namespace) (m : Rpc.Metric) {o : Option Namespace.Element.NamespaceElement}
    → map (λ e. e.value) ns.namespace_elements ≡ names_of m
    → Namespace.at ns 4 ≡ o
    → get_elem? (names_of m) 4
      ≡ (elim o as (λ _. Option String) [ none ↦ none | some e ↦ some e.value ])
unfolding Namespace.at
fifth ns m names e =
    ap (λ xs. get_elem? xs 4) (sym names)
    ∙ get_elem?-map 4 ns.namespace_elements
    ∙ ap (λ o. elim o as (λ _. Option String) [ none ↦ none | some e ↦ some e.value ]) e

-- The overloads of `set_data` write neither the cache nor the message's namespace.
pub set_data_kept :
    (v : Value) (m : Metric)
    → ((set_data v m).memo_ns ≡ m.memo_ns) × ((set_data v m).rpc.namespace ≡ m.rpc.namespace)
unfolding set_data
set_data_kept (of_float v) m = (refl, refl)
set_data_kept (of_double v) m = (refl, refl)
set_data_kept (of_int32 v) m = (refl, refl)
set_data_kept (of_int64 v) m = (refl, refl)
set_data_kept (of_uint32 v) m = (refl, refl)
set_data_kept (of_uint64 v) m = (refl, refl)
set_data_kept (of_bool v) m = (refl, refl)
set_data_kept (of_string v) m = (refl, refl)

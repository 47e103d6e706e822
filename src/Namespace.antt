-- ===== src/Namespace.antt =====
-- Namespace (src/snap/metric.h and metric.cc): a vector of elements. `reserve` changes no content
-- and is left out; the counters of the loops are unbounded numbers.
pub mod Element
pub mod Laws
use snap_plugin_lib_cpp.Base.{
  ℕ, ◌+◌, Bool, true, false, Option, List, [], ◌∷◌, ◌++◌, String, map, length, get_elem?, join_loop,
  if◌then◌else◌,
}
use Element
use Element.{NamespaceElement, create}

pub record Namespace : Type 0 where
  pub namespace_elements : List NamespaceElement

-- `Namespace()`
abbrev pub empty : Namespace
empty = record { namespace_elements = [] }

-- `push_back`, for an lvalue and for an rvalue
unfoldable pub push_back : NamespaceElement → Namespace → Namespace
push_back e ns = record { namespace_elements = ns.namespace_elements ++ (e ∷ []) }

-- `Namespace(std::vector<std::string> ns)`
from_strings_loop : List String → Namespace → Namespace
from_strings_loop [] ns = ns
from_strings_loop (s ∷ strings) ns = from_strings_loop strings (push_back (create s "" "") ns)

unfoldable pub from_strings : List String → Namespace
unfolding from_strings_loop push_back create
from_strings strings = from_strings_loop strings empty

unfoldable pub add_static_element : String → Namespace → Namespace
unfolding push_back create
add_static_element value ns = push_back (create value "" "") ns

unfoldable pub add_dynamic_element : String → String → Namespace → Namespace
unfolding push_back create
add_dynamic_element name description ns = push_back (create "*" name description) ns

-- `operator[]`; out of range is undefined behaviour, `none` here
unfoldable pub at : Namespace → ℕ → Option NamespaceElement
at ns i = get_elem? ns.namespace_elements i

unfoldable pub size : Namespace → ℕ
size ns = length ns.namespace_elements

unfoldable pub clear : Namespace → Namespace
clear ns = record ns { namespace_elements = [] }

unfoldable pub get_string : Namespace → String
unfolding join_loop
get_string ns =
    join_loop "/" 1 (length ns.namespace_elements) (map (λ e. e.value) ns.namespace_elements) ""

is_dynamic_loop : List NamespaceElement → Bool
unfolding Element.is_dynamic
is_dynamic_loop [] = false
is_dynamic_loop (e ∷ es) =
    let rest = is_dynamic_loop es in if Element.is_dynamic e then true else rest

unfoldable pub is_dynamic : Namespace → Bool
unfolding is_dynamic_loop
is_dynamic ns = is_dynamic_loop ns.namespace_elements

indexes_loop : ℕ → List NamespaceElement → List ℕ → List ℕ
unfolding Element.is_dynamic
indexes_loop i [] indexes = indexes
indexes_loop i (e ∷ es) indexes =
    indexes_loop (i + 1) es (if Element.is_dynamic e then indexes ++ (i ∷ []) else indexes)

unfoldable pub get_dynamic_indexes : Namespace → List ℕ
unfolding indexes_loop
get_dynamic_indexes ns = indexes_loop 0 ns.namespace_elements []

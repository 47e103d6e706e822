-- ===== src/Namespace/Laws.antt =====
-- Which elements of a namespace are dynamic, and what its printed form is.
use mathlib.Core.Bool.{◌||◌}
use snap_plugin_lib_cpp.Base.{
  ℕ, zero, suc, ◌+◌, ◌≤◌, ◌<◌, ◌≡◌, refl, ap, ◌∙◌, sym, Bool, false, not, Option, none, some, List,
  [], ◌∷◌, ◌++◌, str_dec, str_eq, append-nil, append_assoc, String, map, length-map, get_elem?,
  is_empty, intersperse, join_loop_all, ◌==◌, arith, if◌then◌else◌,
}
use snap_plugin_lib_cpp.Namespace.Element
use snap_plugin_lib_cpp.Namespace.Element.{NamespaceElement, create}
use snap_plugin_lib_cpp.Namespace.{
  Namespace, empty, push_back, from_strings, from_strings_loop, add_static_element,
  add_dynamic_element, at, get_string, is_dynamic, is_dynamic_loop, get_dynamic_indexes,
  indexes_loop,
}

-- Whether the number is listed.
abbrev pub listed : ℕ → List ℕ → Bool
listed n [] = false
listed n (i ∷ is) = (i == n) || listed n is

abbrev pub is_dynamic_at : Option NamespaceElement → Bool
is_dynamic_at none = false
is_dynamic_at (some e) = Element.is_dynamic e

-- The indexes of the dynamic elements, the first element having the number `i`.
indexes_from : ℕ → List NamespaceElement → List ℕ
indexes_from i [] = []
indexes_from i (e ∷ es) =
    let rest = indexes_from (i + 1) es in if Element.is_dynamic e then i ∷ rest else rest

indexes_loop-from :
    (i : ℕ) (es : List NamespaceElement) (acc : List ℕ)
    → indexes_loop i es acc ≡ acc ++ indexes_from i es
unfolding indexes_loop indexes_from
indexes_loop-from i [] acc = sym (append-nil acc)
indexes_loop-from i (e ∷ es) acc = ground (
  arith,
  indexes_loop-from (i + 1) es acc,
  indexes_loop-from (i + 1) es (acc ++ (i ∷ [])),
  append_assoc acc (i ∷ []) (indexes_from (i + 1) es),
)

listed-indexes_from_below :
    (n i : ℕ) (es : List NamespaceElement) → n < i → listed n (indexes_from i es) ≡ false
unfolding indexes_from
listed-indexes_from_below n i [] h = refl
listed-indexes_from_below n i (e ∷ es) h = ground (arith, listed-indexes_from_below n (i + 1) es)

shift : (i k : ℕ) → i + 1 + k ≡ i + suc k
shift i k = omega arith

listed-indexes_from :
    (i k : ℕ) (es : List NamespaceElement)
    → listed (i + k) (indexes_from i es) ≡ is_dynamic_at (get_elem? es k)
unfolding indexes_from
listed-indexes_from i k [] = refl
listed-indexes_from i zero (e ∷ es) = ground (arith, listed-indexes_from_below (i + 0) (i + 1) es)
listed-indexes_from i (suc k) (e ∷ es) = ground (
  arith,
  listed-indexes_from (i + 1) k es,
  ap (λ n. listed n (indexes_from (i + 1) es)) (shift i k),
)

-- The indexes ascend.
abbrev pub Ascending : ℕ → List ℕ → Type 0
Ascending n [] = Unit {0}
Ascending n (i ∷ is) = (n ≤ i) × Ascending (suc i) is

indexes_from-Ascending :
    (n i : ℕ) (es : List NamespaceElement) → n ≤ i → Ascending n (indexes_from i es)
unfolding indexes_from
indexes_from-Ascending n i [] h = tt
indexes_from-Ascending n i (e ∷ es) h =
    ground (arith, indexes_from-Ascending (suc i) (i + 1) es, indexes_from-Ascending n (i + 1) es)

is_dynamic_loop-indexes :
    (i : ℕ) (es : List NamespaceElement) → is_dynamic_loop es ≡ not (is_empty (indexes_from i es))
unfolding is_dynamic_loop indexes_from
is_dynamic_loop-indexes i [] = refl
is_dynamic_loop-indexes i (e ∷ es) = ground (arith, is_dynamic_loop-indexes (i + 1) es)

-- `get_dynamic_indexes` lists an index exactly when the element there is dynamic, in ascending
-- order, and `is_dynamic` holds exactly when the list is not empty.
pub get_dynamic_indexes_lem :
    (ns : Namespace)
    → ((k : ℕ) → listed k (get_dynamic_indexes ns) ≡ is_dynamic_at (at ns k))
      × Ascending 0 (get_dynamic_indexes ns)
      × (is_dynamic ns ≡ not (is_empty (get_dynamic_indexes ns)))
unfolding get_dynamic_indexes at is_dynamic
get_dynamic_indexes_lem ns = rw (indexes_loop-from 0 ns.namespace_elements []) (
  λ k. ap (λ n. listed n found) (zero-add' k) ∙ listed-indexes_from 0 k ns.namespace_elements,
  indexes_from-Ascending 0 0 ns.namespace_elements (omega arith),
  is_dynamic_loop-indexes 0 ns.namespace_elements,
)
  where
    found : List ℕ
    found = indexes_from 0 ns.namespace_elements

    zero-add' : (k : ℕ) → k ≡ 0 + k
    zero-add' k = omega arith

from_strings_loop-elements :
    (strings : List String) (ns : Namespace)
    → (from_strings_loop strings ns).namespace_elements
      ≡ ns.namespace_elements ++ map (λ s. create s "" "") strings
unfolding from_strings_loop push_back
from_strings_loop-elements [] ns = sym (append-nil ns.namespace_elements)
from_strings_loop-elements (s ∷ strings) ns =
    from_strings_loop-elements strings (push_back (create s "" "") ns)
    ∙ append_assoc ns.namespace_elements (create s "" "" ∷ []) (map (λ s. create s "" "") strings)

map-value :
    (strings : List String) → map (λ e. e.value) (map (λ s. create s "" "") strings) ≡ strings
unfolding create
map-value [] = refl
map-value (s ∷ strings) = ap (λ ss. s ∷ ss) (map-value strings)

-- `get_string` writes the values of the elements with a slash between each two, and a namespace
-- built from strings prints as these strings with a slash between each two.
get_string_lem :
    (ns : Namespace) (strings : List String)
    → (get_string ns ≡ intersperse "/" (map (λ e. e.value) ns.namespace_elements))
      × (get_string (from_strings strings) ≡ intersperse "/" strings)
unfolding get_string from_strings
get_string_lem ns strings =
    (printed ns, printed (from_strings strings) ∙ ap (intersperse "/") values)
  where
    printed :
        (ns : Namespace)
        → get_string ns ≡ intersperse "/" (map (λ e. e.value) ns.namespace_elements)
    printed ns =
        join_loop_all "/" (map (λ e. e.value) ns.namespace_elements) _
          (sym (length-map (λ e. e.value) ns.namespace_elements))

    values : map (λ e. e.value) (from_strings strings).namespace_elements ≡ strings
    values = rw (from_strings_loop-elements strings empty) (map-value strings)

is_dynamic_loop-append :
    (es : List NamespaceElement) (e : NamespaceElement)
    → is_dynamic_loop (es ++ (e ∷ [])) ≡ is_dynamic_loop es || Element.is_dynamic e
unfolding is_dynamic_loop
is_dynamic_loop-append [] e = ground arith
is_dynamic_loop-append (x ∷ es) e = ground (arith, is_dynamic_loop-append es e)

-- Adding a static element leaves `is_dynamic` as it was; adding a dynamic one makes it true, unless
-- the name that is given is empty, when the element counts as static.
is_dynamic-add :
    (value name description : String) (ns : Namespace)
    → (is_dynamic (add_static_element value ns) ≡ is_dynamic ns)
      × (is_dynamic (add_dynamic_element name description ns)
          ≡ is_dynamic ns || not (str_eq name ""))
unfolding is_dynamic add_static_element add_dynamic_element Element.is_dynamic str_dec
is_dynamic-add value name description ns = ground (
  arith,
  is_dynamic_loop-append ns.namespace_elements (create value "" ""),
  is_dynamic_loop-append ns.namespace_elements (create "*" name description),
)

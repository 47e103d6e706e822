-- ===== src/Metric.antt =====
-- Metric (src/snap/metric.h and metric.cc), by value: the `rpc::Metric` that the object points to,
-- its memoized members and `type`. Who owns the pointee, and which `ConfigMap` the member `config`
-- refers to, is the matter of Metric/Store. A time point is its `int64_t` count of nanoseconds.

pub mod Memo
pub mod Data
pub mod Clock
pub mod Store
use snap_plugin_lib_cpp.Base.{
  ℕ, not, Option, none, some, List, [], ◌∷◌, ◌++◌, String, ◌==◌, is_empty, if◌then◌else◌,
}
use snap_plugin_lib_cpp.Base.Sorted.{from_range}
use snap_plugin_lib_cpp.Base.Dict.{Dict, insert}
use snap_plugin_lib_cpp.Rpc
use snap_plugin_lib_cpp.Namespace
use snap_plugin_lib_cpp.Namespace.{Namespace}
use snap_plugin_lib_cpp.Namespace.Element

pub record Metric : Type 0 where
  pub rpc : Rpc.Metric
  pub memo_ns : Namespace
  pub memo_tags : Dict String
  -- `none`: not initialised
  pub type : Option ℕ

-- `enum DataType`: an enumerator is its number, that of the `DataCase` with the same datum.
pub data DataType : Type 0 where
  string float32 float64 int32 int64 uint32 uint64 bool not_set : DataType

unfoldable pub number : DataType → ℕ
number string = 9
number float32 = 10
number float64 = 11
number int32 = 12
number int64 = 13
number uint32 = 16
number uint64 = 17
number bool = 15
number not_set = 0

-- `operator<<` on a `DataType`, which may hold a number that is no enumerator.
unfoldable pub type_name : ℕ → String
unfolding number
type_name n =
    if n == number string
    then "string"
    else if n == number float32
    then "float32"
    else if n == number float64
    then "float64"
    else if n == number int32
    then "int32"
    else if n == number int64
    then "int64"
    else if n == number uint32
    then "uint32"
    else if n == number uint64
    then "uint64"
    else if n == number bool
    then "bool"
    else "notset"

-- `Metric(rpc::Metric*)`
unfoldable pub wrap : Rpc.Metric → Metric
unfolding number
wrap m = record { rpc = m; memo_ns = Namespace.empty; memo_tags = []; type = some (number not_set) }

-- `Metric(const Metric&)`: the message is copied; the memoized members start empty, and `type` is
-- not initialised.
unfoldable pub copy : Metric → Metric
copy from = record { rpc = from.rpc; memo_ns = Namespace.empty; memo_tags = []; type = none }

to_rpc : Element.NamespaceElement → Rpc.NamespaceElement
to_rpc e = record { value = e.value; name = e.name; description = e.description }

from_rpc : Rpc.NamespaceElement → Element.NamespaceElement
unfolding Element.create
from_rpc e = Element.create e.value e.name e.description

-- The body of the loop of `set_ns`.
add_namespace : Element.NamespaceElement → Metric → Metric
unfolding to_rpc from_rpc Namespace.push_back
add_namespace e m =
    let rpc_elem = to_rpc e in
    record m {
      rpc = record m.rpc { namespace = m.rpc.namespace ++ (rpc_elem ∷ []) };
      memo_ns = Namespace.push_back (from_rpc rpc_elem) m.memo_ns;
    }

set_ns_loop : List Element.NamespaceElement → Metric → Metric
unfolding add_namespace
set_ns_loop [] m = m
set_ns_loop (e ∷ es) m = set_ns_loop es (add_namespace e m)

unfoldable pub set_ns : Namespace → Metric → Metric
unfolding set_ns_loop Namespace.clear
set_ns ns m =
    set_ns_loop ns.namespace_elements
      (record m { memo_ns = Namespace.clear m.memo_ns; rpc = record m.rpc { namespace = [] } })

-- `Metric(Namespace&, std::string unit, std::string description)`, and the same for an rvalue
unfoldable pub create : Namespace → String → String → Metric
unfolding set_ns wrap
create ns unit description =
    set_ns ns (wrap (record Rpc.new_metric { unit = unit; description = description }))

memo_loop : List Rpc.NamespaceElement → Namespace → Namespace
unfolding from_rpc Namespace.push_back
memo_loop [] memo = memo
memo_loop (e ∷ es) memo = memo_loop es (Namespace.push_back (from_rpc e) memo)

-- `ns() const`: the namespace, and the object with its cache filled.
unfoldable pub ns : Metric → Namespace × Metric
unfolding memo_loop Namespace.size
ns m =
    let memo = memo_loop m.rpc.namespace m.memo_ns in
    if not (Namespace.size m.memo_ns == 0)
    then (m.memo_ns, m)
    else (memo, record m { memo_ns = memo })

-- The local variable `memo_tags` hides the member, which keeps its content.
unfoldable pub add_tag : String → String → Metric → Metric
add_tag key value m = record m { rpc = record m.rpc { tags = insert key value m.rpc.tags } }

-- `tags() const`: the tags, in a std::map and so in the order of their keys, and the object with its
-- cache filled.
unfoldable pub tags : Metric → Dict String × Metric
unfolding from_range
tags m =
    if not (is_empty m.memo_tags)
    then (m.memo_tags, m)
    else let memo = from_range m.rpc.tags in (memo, record m { memo_tags = memo })

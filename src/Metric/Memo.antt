-- ===== src/Metric/Memo.antt =====
-- The memoized namespace and tags of a metric, against the message that they cache.
use snap_plugin_lib_cpp.Base.{
  ◌≡◌, ◌≢◌, refl, sym, ap, ◌∙◌, ◌⊎◌, inl, inr, ite, false, some, List, [], ◌∷◌, ◌++◌, append-nil,
  append_assoc, map, String, str_dec, is_empty, arith,
}
use snap_plugin_lib_cpp.Base.Dict.{lookup, lookup-insert, lookup-insert_self, insert}
use snap_plugin_lib_cpp.Base.Sorted.{lookup-from_range}
use snap_plugin_lib_cpp.Rpc
use snap_plugin_lib_cpp.Namespace
use snap_plugin_lib_cpp.Namespace.{Namespace, push_back}
use snap_plugin_lib_cpp.Namespace.Element
use snap_plugin_lib_cpp.Metric.{
  Metric, to_rpc, from_rpc, add_namespace, set_ns_loop, set_ns, memo_loop, ns, add_tag, tags,
}

-- The namespace of the message, element by element.
pub rpc_namespace : Metric → List Element.NamespaceElement
rpc_namespace m = map from_rpc m.rpc.namespace

set_ns_loop_lem :
    (es : List Element.NamespaceElement) (m : Metric)
    → ((set_ns_loop es m).rpc.namespace ≡ m.rpc.namespace ++ map to_rpc es)
      × ((set_ns_loop es m).memo_ns.namespace_elements ≡ m.memo_ns.namespace_elements ++ es)
unfolding set_ns_loop
set_ns_loop_lem [] m =
    (sym (append-nil m.rpc.namespace), sym (append-nil m.memo_ns.namespace_elements))
set_ns_loop_lem (e ∷ es) m = (
  (set_ns_loop_lem es (add_namespace e m)).0
      ∙ append_assoc m.rpc.namespace (to_rpc e ∷ []) (map to_rpc es),
  (set_ns_loop_lem es (add_namespace e m)).1
      ∙ append_assoc m.memo_ns.namespace_elements (e ∷ []) es,
)

memo_loop_lem :
    (es : List Rpc.NamespaceElement) (memo : Namespace)
    → (memo_loop es memo).namespace_elements ≡ memo.namespace_elements ++ map from_rpc es
unfolding memo_loop
memo_loop_lem [] memo = sym (append-nil memo.namespace_elements)
memo_loop_lem (e ∷ es) memo =
    memo_loop_lem es (push_back (from_rpc e) memo)
    ∙ append_assoc memo.namespace_elements (from_rpc e ∷ []) (map from_rpc es)

map-from_rpc-to_rpc : (es : List Element.NamespaceElement) → map from_rpc (map to_rpc es) ≡ es
unfolding from_rpc to_rpc
map-from_rpc-to_rpc [] = refl
map-from_rpc-to_rpc (e ∷ es) = ap (λ xs. e ∷ xs) (map-from_rpc-to_rpc es)

map-value-from_rpc :
    (es : List Rpc.NamespaceElement) → map (λ e. e.value) (map from_rpc es) ≡ map (λ e. e.value) es
unfolding from_rpc
map-value-from_rpc [] = refl
map-value-from_rpc (e ∷ es) = ap (λ names. e.value ∷ names) (map-value-from_rpc es)

-- The names in the namespace of the message.
pub map-value-rpc_namespace :
    (m : Metric) → map (λ e. e.value) (rpc_namespace m) ≡ map (λ e. e.value) m.rpc.namespace
unfolding rpc_namespace
map-value-rpc_namespace m = map-value-from_rpc m.rpc.namespace

-- The cache is empty, or it is the namespace of the message.
pub data IsCoherent (m : Metric) : Type 0 where
  blank : m.memo_ns.namespace_elements ≡ [] → IsCoherent m
  cached : m.memo_ns.namespace_elements ≡ rpc_namespace m → IsCoherent m

cleared : Metric → Metric
unfolding Namespace.clear
cleared m = record m { memo_ns = Namespace.clear m.memo_ns; rpc = record m.rpc { namespace = [] } }

-- `set_ns` stores the namespace in the message and in the cache, whatever they held.
pub set_ns_lem :
    (n : Namespace) (m : Metric)
    → (rpc_namespace (set_ns n m) ≡ n.namespace_elements) × ((set_ns n m).memo_ns ≡ n)
unfolding set_ns rpc_namespace cleared
set_ns_lem n m = (
  ap (map from_rpc) (set_ns_loop_lem n.namespace_elements (cleared m)).0
      ∙ map-from_rpc-to_rpc n.namespace_elements,
  ap (λ es. record { namespace_elements = es })
      (set_ns_loop_lem n.namespace_elements (cleared m)).1,
)

pub set_ns-IsCoherent : (n : Namespace) (m : Metric) → IsCoherent (set_ns n m)
set_ns-IsCoherent n m =
    cached (ap (λ x. x.namespace_elements) (set_ns_lem n m).1 ∙ sym (set_ns_lem n m).0)

-- `ns` by the content of the cache: an empty one is filled from the message, another is returned.
ns_cases :
    (m : Metric) (es : List Element.NamespaceElement)
    → m.memo_ns.namespace_elements ≡ es
    → ((es ≡ [])
        × ((ns m).0.namespace_elements ≡ rpc_namespace m)
        × ((ns m).1 ≡ record m { memo_ns = (ns m).0 }))
      ⊎ ((es ≢ []) × (ns m ≡ (m.memo_ns, m)))
unfolding ns rpc_namespace
ns_cases m [] e = inl (refl, ground (arith, memo_loop_lem m.rpc.namespace m.memo_ns), ground arith)
ns_cases m (x ∷ es) e = inr (λ p. cc, ground arith)

-- From a coherent cache `ns` returns the namespace of the message, fills the cache with it, and
-- changes neither the message nor the cached tags.
pub ns_lem :
    (m : Metric)
    → IsCoherent m
    → ((ns m).0.namespace_elements ≡ rpc_namespace m)
      × ((ns m).1.memo_ns ≡ (ns m).0)
      × ((ns m).1.rpc ≡ m.rpc)
      × ((ns m).1.memo_tags ≡ m.memo_tags)
ns_lem m (blank e) = elim (ns_cases m [] e) [
  | inl (_, found, filled) ↦
      (found, ap (λ x. x.memo_ns) filled, ap (λ x. x.rpc) filled, ap (λ x. x.memo_tags) filled)
  | inr (full, _) ↦ absurd (full refl)
]
ns_lem m (cached e) = elim (ns_cases m (rpc_namespace m) e) [
  | inl (_, found, filled) ↦
      (found, ap (λ x. x.memo_ns) filled, ap (λ x. x.rpc) filled, ap (λ x. x.memo_tags) filled)
  | inr (_, same) ↦ rw same (e, refl, refl, refl)
]

-- A change that leaves the cache and the message's namespace alone keeps the coherence.
pub kept-IsCoherent :
    (m m' : Metric)
    → m'.memo_ns ≡ m.memo_ns
    → m'.rpc.namespace ≡ m.rpc.namespace
    → IsCoherent m
    → IsCoherent m'
unfolding rpc_namespace
kept-IsCoherent m m' memo named (blank e) = blank (ap (λ x. x.namespace_elements) memo ∙ e)
kept-IsCoherent m m' memo named (cached e) =
    cached (ap (λ x. x.namespace_elements) memo ∙ e ∙ ap (map from_rpc) (sym named))

-- Reading the namespace keeps the coherence.
pub ns-IsCoherent : (m : Metric) → IsCoherent m → IsCoherent (ns m).1
unfolding rpc_namespace
ns-IsCoherent m h =
    let (found, filled, same, _) = ns_lem m h in
    cached (
      ap (λ x. x.namespace_elements) filled ∙ found ∙ ap (λ x. map from_rpc x.namespace) (sym same))

-- Reading back: `ns` after `set_ns` is the namespace that was set.
pub ns-set_ns : (n : Namespace) (m : Metric) → (ns (set_ns n m)).0 ≡ n
ns-set_ns n m =
    ap (λ es. record { namespace_elements = es })
      ((ns_lem (set_ns n m) (set_ns-IsCoherent n m)).0 ∙ (set_ns_lem n m).0)

-- While no tags are cached, `tags` shows the tag just added, and every other tag as it was.
tags-add_tag :
    (key value k : String) (m : Metric)
    → m.memo_tags ≡ []
    → lookup k (tags (add_tag key value m)).0
      ≡ ite (str_dec key k) (some value) (lookup k m.rpc.tags)
unfolding tags add_tag
tags-add_tag key value k m e =
    rw (e, tags)
      (lookup-from_range k (insert key value m.rpc.tags) ∙ lookup-insert key k value m.rpc.tags)

-- Once `tags` has returned some tag, it returns the same tags after any `add_tag`: the cache is
-- not invalidated, so a tag that is added after a read stays hidden, while the message has it.
pub tags-add_tag_stale :
    (key value : String) (m : Metric)
    → is_empty (tags m).0 ≡ false
    → ((tags (add_tag key value (tags m).1)).0 ≡ (tags m).0)
      × (lookup key (add_tag key value (tags m).1).rpc.tags ≡ some value)
unfolding tags add_tag
tags-add_tag_stale key value m h = ground (arith, lookup-insert_self key value m.rpc.tags)

-- ===== src/Config/Keys.antt =====
-- The keys of a policy, what `add_rule` stores under them, and the setters and getters of Config.
use text.Mathlib.TextLemmas
use snap_plugin_lib_cpp.Base.{
  ◌≡◌, refl, sym, ap, ◌∙◌, ite, Bool, some, List, [], ◌∷◌, ◌++◌, String, ◌<>◌, str_dec, intersperse,
  join_loop_all, arith,
}
use snap_plugin_lib_cpp.Base.Int.{ℤ, IsInt32, to_int32-IsInt32}
use snap_plugin_lib_cpp.Base.Dict.{lookup, lookup-insert, insert-insert_self}
use snap_plugin_lib_cpp.Rpc.{ConfigMap}
use snap_plugin_lib_cpp.Rpc.Policy.{StringRule, IntegerRule, BoolRule, Policy, GetConfigPolicyReply}
use snap_plugin_lib_cpp.Config.{
  build_key, add_string_rule, add_integer_rule, add_bool_rule, get_bool, get_int, get_string,
  set_int, set_string, set_bool,
}

build_key-intersperse : (ns : List String) → build_key ns ≡ intersperse "." ns
unfolding build_key
build_key-intersperse ns = join_loop_all "." ns _ refl

intersperse-merge :
    (xs ys : List String) (a b : String)
    → intersperse "." (xs ++ (a <> ("." <> b)) ∷ ys) ≡ intersperse "." (xs ++ a ∷ b ∷ ys)
intersperse-merge [] [] a b = refl
intersperse-merge [] (y ∷ ys) a b = simp TextLemmas.append_assoc
intersperse-merge (x ∷ []) ys a b = ap (λ s. x <> ("." <> s)) (intersperse-merge [] ys a b)
intersperse-merge (x ∷ z ∷ xs) ys a b =
    ap (λ s. x <> ("." <> s)) (intersperse-merge (z ∷ xs) ys a b)

-- The key of a namespace is its nodes with a dot between each two. So a node with a dot in it is
-- not told from two nodes: the namespaces share their key, and with it their rules.
build_key_lem :
    (xs ys : List String) (a b : String)
    → (build_key xs ≡ intersperse "." xs)
      × (build_key (xs ++ (a <> ("." <> b)) ∷ ys) ≡ build_key (xs ++ a ∷ b ∷ ys))
build_key_lem xs ys a b = (
  build_key-intersperse xs,
  build_key-intersperse _
      ∙ intersperse-merge xs ys a b
      ∙ sym (build_key-intersperse (xs ++ a ∷ b ∷ ys)),
)

-- Each `add_rule` puts its rule under the key of the namespace in the map of its own type, in the
-- place of the rule that was there; other keys and the other two maps stay as they were.
add_rule_lem :
    (ns : List String) (s : Policy StringRule) (i : Policy IntegerRule) (b : Policy BoolRule)
    (k : String) (p : GetConfigPolicyReply)
    → let q = add_string_rule ns s (add_integer_rule ns i (add_bool_rule ns b p)) in
      (lookup k q.string_policy
        ≡ ite (str_dec (build_key ns) k) (some s) (lookup k p.string_policy))
      × (lookup k q.integer_policy
          ≡ ite (str_dec (build_key ns) k) (some i) (lookup k p.integer_policy))
      × (lookup k q.bool_policy ≡ ite (str_dec (build_key ns) k) (some b) (lookup k p.bool_policy))
unfolding add_string_rule add_integer_rule add_bool_rule
add_rule_lem ns s i b k p = (
  lookup-insert (build_key ns) k s p.string_policy,
  lookup-insert (build_key ns) k i p.integer_policy,
  lookup-insert (build_key ns) k b p.bool_policy,
)

-- A second integer rule for the same namespace discards the first: the policy is the one that
-- never had it.
add_integer_rule-add_integer_rule :
    (ns : List String) (first second : Policy IntegerRule) (p : GetConfigPolicyReply)
    → add_integer_rule ns second (add_integer_rule ns first p) ≡ add_integer_rule ns second p
unfolding add_integer_rule
add_integer_rule-add_integer_rule ns first second p =
    ap (λ m. record p { integer_policy = m })
      (insert-insert_self (build_key ns) second first p.integer_policy)

-- A getter returns the value last set under the key in the map of its type, fails where there is
-- none, and is not affected by the setters of the other types.
get-set :
    (key k : String) (i : ℤ) (s : String) (b : Bool) (c : ConfigMap)
    → IsInt32 i
    → let d = set_int key i (set_string key s (set_bool key b c)) in
      (get_int k d ≡ ite (str_dec key k) (some i) (get_int k c))
      × (get_string k d ≡ ite (str_dec key k) (some s) (get_string k c))
      × (get_bool k d ≡ ite (str_dec key k) (some b) (get_bool k c))
unfolding get_int get_string get_bool set_int set_string set_bool
get-set key k i s b c h = (
  ground (arith, lookup-insert key k i c.intmap, to_int32-IsInt32 i h),
  lookup-insert key k s c.stringmap,
  lookup-insert key k b c.boolmap,
)

-- ===== src/Config.antt =====
-- Rule, ConfigPolicy and Config (src/snap/config.h and config.cc).
pub mod Rule
pub mod Keys
pub mod Defaults
pub mod Order
use snap_plugin_lib_cpp.Base.{
  ℕ, Bool, true, false, not, Option, none, some, List, [], ◌∷◌, String, length, join_loop,
  if◌then◌else◌, ◌&&◌,
}
use snap_plugin_lib_cpp.Base.Int.{ℤ, to_int32}
use snap_plugin_lib_cpp.Base.Dict.{Dict, lookup, insert, contains}
use snap_plugin_lib_cpp.Rpc.{ConfigMap}
use snap_plugin_lib_cpp.Rpc.Policy.{
  StringRule, IntegerRule, BoolRule, Policy, GetConfigPolicyReply, new_policy_reply,
}

unfoldable pub build_key : List String → String
unfolding join_loop
build_key ns = join_loop "." 1 (length ns) ns ""

-- `ConfigPolicy` is a `GetConfigPolicyReply`; the overloads of `add_rule`.
unfoldable pub add_string_rule :
    List String → Policy StringRule → GetConfigPolicyReply → GetConfigPolicyReply
unfolding build_key insert
add_string_rule ns rule p = record p { string_policy = insert (build_key ns) rule p.string_policy }

unfoldable pub add_integer_rule :
    List String → Policy IntegerRule → GetConfigPolicyReply → GetConfigPolicyReply
unfolding build_key insert
add_integer_rule ns rule p = record p {
  integer_policy = insert (build_key ns) rule p.integer_policy;
}

unfoldable pub add_bool_rule :
    List String → Policy BoolRule → GetConfigPolicyReply → GetConfigPolicyReply
unfolding build_key insert
add_bool_rule ns rule p = record p { bool_policy = insert (build_key ns) rule p.bool_policy }

-- `ConfigPolicy(const StringRule&)` and the other two, for processors and publishers
unfoldable pub string_config_policy : Policy StringRule → GetConfigPolicyReply
unfolding add_string_rule
string_config_policy rule = add_string_rule ("" ∷ []) rule new_policy_reply

unfoldable pub integer_config_policy : Policy IntegerRule → GetConfigPolicyReply
unfolding add_integer_rule
integer_config_policy rule = add_integer_rule ("" ∷ []) rule new_policy_reply

unfoldable pub bool_config_policy : Policy BoolRule → GetConfigPolicyReply
unfolding add_bool_rule
bool_config_policy rule = add_bool_rule ("" ∷ []) rule new_policy_reply

-- The getters of Config: `at` fails on a missing key, `none`.
unfoldable pub get_bool : String → ConfigMap → Option Bool
unfolding lookup
get_bool key c = lookup key c.boolmap

-- The map holds `int64_t`; the result is an `int`.
unfoldable pub get_int : String → ConfigMap → Option ℤ
unfolding lookup to_int32
get_int key c = elim (lookup key c.intmap) [ none ↦ none | some v ↦ some (to_int32 v) ]

unfoldable pub get_string : String → ConfigMap → Option String
unfolding lookup
get_string key c = lookup key c.stringmap

unfoldable pub set_int : String → ℤ → ConfigMap → ConfigMap
unfolding insert
set_int key value c = record c { intmap = insert key value c.intmap }

unfoldable pub set_string : String → String → ConfigMap → ConfigMap
unfolding insert
set_string key value c = record c { stringmap = insert key value c.stringmap }

unfoldable pub set_bool : String → Bool → ConfigMap → ConfigMap
unfolding insert
set_bool key value c = record c { boolmap = insert key value c.boolmap }

-- The bodies of the inner loops of `apply_defaults`. An integer default is an `int64_t`, and the
-- parameter of `set_int` an `int`.
default_string : String → StringRule → ConfigMap → ConfigMap
unfolding set_string contains
default_string key rule c =
    if rule.has_default && not (contains key c.stringmap) then set_string key rule.default c else c

default_int : String → IntegerRule → ConfigMap → ConfigMap
unfolding set_int contains to_int32
default_int key rule c =
    if rule.has_default && not (contains key c.intmap)
    then set_int key (to_int32 rule.default) c
    else c

default_bool : String → BoolRule → ConfigMap → ConfigMap
unfolding set_bool contains
default_bool key rule c =
    if rule.has_default && not (contains key c.boolmap) then set_bool key rule.default c else c

-- `for (policy : policies) for (rule : policy.second.rules()) body`
rules_loop : {R : Type 0} → (String → R → ConfigMap → ConfigMap) → Dict R → ConfigMap → ConfigMap
rules_loop body [] c = c
rules_loop body ((key, rule) ∷ rules) c = rules_loop body rules (body key rule c)

policies_loop :
    {R : Type 0} → (String → R → ConfigMap → ConfigMap) → Dict (Policy R) → ConfigMap → ConfigMap
unfolding rules_loop
policies_loop body [] c = c
policies_loop body ((ns, policy) ∷ policies) c =
    policies_loop body policies (rules_loop body policy.rules c)

unfoldable pub apply_defaults : GetConfigPolicyReply → ConfigMap → ConfigMap
unfolding policies_loop default_string default_int default_bool
apply_defaults from c = policies_loop default_bool from.bool_policy (
    policies_loop default_int from.integer_policy
      (policies_loop default_string from.string_policy c))

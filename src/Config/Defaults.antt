-- ===== src/Config/Defaults.antt =====
-- What `Config::apply_defaults` leaves in the three maps.
use mathlib.Core.Option.{or_else}
use snap_plugin_lib_cpp.Base.{
  ◌≡◌, refl, ap, ◌∙◌, sym, ite, Bool, Option, none, some, [], ◌∷◌, String, str_dec, arith,
  if◌then◌else◌,
}
use snap_plugin_lib_cpp.Base.Int.{ℤ, to_int32}
use snap_plugin_lib_cpp.Base.Dict.{Dict, lookup, lookup-insert, contains-lookup}
use snap_plugin_lib_cpp.Rpc.{ConfigMap}
use snap_plugin_lib_cpp.Rpc.Policy.{StringRule, IntegerRule, BoolRule, Policy, GetConfigPolicyReply}
use snap_plugin_lib_cpp.Config.{
  set_string, set_int, set_bool, default_string, default_int, default_bool, rules_loop,
  policies_loop, apply_defaults,
}

-- The default of the first rule of the key that has one, in the order of iteration.
module _ {R V : Type 0} (want : R → Option V) (k : String) where
  abbrev pub default_of : Dict R → Option V
  default_of [] = none
  default_of ((key, rule) ∷ rules) =
      or_else (ite (str_dec key k) (want rule) none) (default_of rules)

  abbrev pub default_in : Dict (Policy R) → Option V
  default_in [] = none
  default_in ((ns, policy) ∷ policies) = or_else (default_of policy.rules) (default_in policies)

or_else_assoc {ℓ} :
    {A : Type ℓ} (a b c : Option A) → or_else (or_else a b) c ≡ or_else a (or_else b c)
unfolding or_else
or_else_assoc none b c = refl
or_else_assoc (some a) b c = refl

or_else-none {ℓ} : {A : Type ℓ} (a : Option A) → or_else a none ≡ a
unfolding or_else
or_else-none none = refl
or_else-none (some a) = refl

-- A loop whose body adds, at most, the default that a rule wants.
module _ {R V : Type 0} (body : String → R → ConfigMap → ConfigMap) (part : ConfigMap → Dict V)
    (want : R → Option V) (k : String)
    (step : (key : String) (rule : R) (c : ConfigMap)
      → lookup k (part (body key rule c))
        ≡ or_else (lookup k (part c)) (ite (str_dec key k) (want rule) none)) where
  rules_loop_lem :
      (rules : Dict R) (c : ConfigMap)
      → lookup k (part (rules_loop body rules c))
        ≡ or_else (lookup k (part c)) (default_of want k rules)
  unfolding rules_loop
  rules_loop_lem [] c = sym (or_else-none (lookup k (part c)))
  rules_loop_lem ((key, rule) ∷ rules) c =
      rules_loop_lem rules (body key rule c)
      ∙ ap (λ o. or_else o (default_of want k rules)) (step key rule c)
      ∙ or_else_assoc (lookup k (part c)) (ite (str_dec key k) (want rule) none)
          (default_of want k rules)

  policies_loop_lem :
      (policies : Dict (Policy R)) (c : ConfigMap)
      → lookup k (part (policies_loop body policies c))
        ≡ or_else (lookup k (part c)) (default_in want k policies)
  unfolding policies_loop
  policies_loop_lem [] c = sym (or_else-none (lookup k (part c)))
  policies_loop_lem ((ns, policy) ∷ policies) c =
      policies_loop_lem policies (rules_loop body policy.rules c)
      ∙ ap (λ o. or_else o (default_in want k policies)) (rules_loop_lem policy.rules c)
      ∙ or_else_assoc (lookup k (part c)) (default_of want k policy.rules)
          (default_in want k policies)

abbrev pub want_string : StringRule → Option String
want_string r = if r.has_default then some r.default else none

-- An integer default is stored as an `int`.
abbrev pub want_int : IntegerRule → Option ℤ
want_int r = if r.has_default then some (to_int32 r.default) else none

abbrev pub want_bool : BoolRule → Option Bool
want_bool r = if r.has_default then some r.default else none

default_string_lem :
    (k key : String) (rule : StringRule) (c : ConfigMap)
    → lookup k (default_string key rule c).stringmap
      ≡ or_else (lookup k c.stringmap) (ite (str_dec key k) (want_string rule) none)
unfolding default_string set_string or_else
default_string_lem k key rule c =
    ground (arith, contains-lookup key c.stringmap, lookup-insert key k rule.default c.stringmap)

default_int_lem :
    (k key : String) (rule : IntegerRule) (c : ConfigMap)
    → lookup k (default_int key rule c).intmap
      ≡ or_else (lookup k c.intmap) (ite (str_dec key k) (want_int rule) none)
unfolding default_int set_int or_else
default_int_lem k key rule c =
    ground
      (arith, contains-lookup key c.intmap, lookup-insert key k (to_int32 rule.default) c.intmap)

default_bool_lem :
    (k key : String) (rule : BoolRule) (c : ConfigMap)
    → lookup k (default_bool key rule c).boolmap
      ≡ or_else (lookup k c.boolmap) (ite (str_dec key k) (want_bool rule) none)
unfolding default_bool set_bool or_else
default_bool_lem k key rule c =
    ground (arith, contains-lookup key c.boolmap, lookup-insert key k rule.default c.boolmap)

-- A loop whose body leaves a part alone leaves it alone.
module _ {R V : Type 0} (body : String → R → ConfigMap → ConfigMap) (part : ConfigMap → V)
    (still : (key : String) (rule : R) (c : ConfigMap) → part (body key rule c) ≡ part c) where
  rules_loop_still : (rules : Dict R) (c : ConfigMap) → part (rules_loop body rules c) ≡ part c
  unfolding rules_loop
  rules_loop_still [] c = refl
  rules_loop_still ((key, rule) ∷ rules) c =
      rules_loop_still rules (body key rule c) ∙ still key rule c

  policies_loop_still :
      (policies : Dict (Policy R)) (c : ConfigMap) → part (policies_loop body policies c) ≡ part c
  unfolding policies_loop
  policies_loop_still [] c = refl
  policies_loop_still ((ns, policy) ∷ policies) c =
      policies_loop_still policies (rules_loop body policy.rules c)
      ∙ rules_loop_still policy.rules c

default_string_still :
    (key : String) (rule : StringRule) (c : ConfigMap)
    → ((default_string key rule c).intmap ≡ c.intmap)
      × ((default_string key rule c).boolmap ≡ c.boolmap)
unfolding default_string set_string
default_string_still key rule c = ground arith

default_int_still :
    (key : String) (rule : IntegerRule) (c : ConfigMap)
    → ((default_int key rule c).stringmap ≡ c.stringmap)
      × ((default_int key rule c).boolmap ≡ c.boolmap)
unfolding default_int set_int
default_int_still key rule c = ground arith

default_bool_still :
    (key : String) (rule : BoolRule) (c : ConfigMap)
    → ((default_bool key rule c).stringmap ≡ c.stringmap)
      × ((default_bool key rule c).intmap ≡ c.intmap)
unfolding default_bool set_bool
default_bool_still key rule c = ground arith

-- In each of the three maps a key keeps its value; a key that was missing gets the default of the
-- first rule of that type and key that has one, whatever the namespace, and is missing still if
-- there is none.
pub apply_defaults_lem :
    (k : String) (from : GetConfigPolicyReply) (c : ConfigMap)
    → let d = apply_defaults from c in
      (lookup k d.stringmap
        ≡ or_else (lookup k c.stringmap) (default_in want_string k from.string_policy))
      × (lookup k d.intmap
          ≡ or_else (lookup k c.intmap) (default_in want_int k from.integer_policy))
      × (lookup k d.boolmap
          ≡ or_else (lookup k c.boolmap) (default_in want_bool k from.bool_policy))
unfolding apply_defaults
apply_defaults_lem k from c = (
  ap (lookup k) (
        policies_loop_still default_bool (λ d. d.stringmap)
          (λ key rule d. (default_bool_still key rule d).0) from.bool_policy c₂)
      ∙ ap (lookup k) (
          policies_loop_still default_int (λ d. d.stringmap)
            (λ key rule d. (default_int_still key rule d).0) from.integer_policy c₁)
      ∙ policies_loop_lem default_string (λ d. d.stringmap) want_string k (default_string_lem k)
          from.string_policy c,
  ap (lookup k) (
        policies_loop_still default_bool (λ d. d.intmap)
          (λ key rule d. (default_bool_still key rule d).1) from.bool_policy c₂)
      ∙ policies_loop_lem default_int (λ d. d.intmap) want_int k (default_int_lem k)
          from.integer_policy c₁
      ∙ ap (λ m. or_else (lookup k m) (default_in want_int k from.integer_policy))
          (policies_loop_still default_string (λ d. d.intmap)
            (λ key rule d. (default_string_still key rule d).0) from.string_policy c),
  policies_loop_lem default_bool (λ d. d.boolmap) want_bool k (default_bool_lem k) from.bool_policy
        c₂
      ∙ ap (λ m. or_else (lookup k m) (default_in want_bool k from.bool_policy))
          (policies_loop_still default_int (λ d. d.boolmap)
              (λ key rule d. (default_int_still key rule d).1) from.integer_policy c₁
            ∙ policies_loop_still default_string (λ d. d.boolmap)
                (λ key rule d. (default_string_still key rule d).1) from.string_policy c),
)
  where
    c₁ : ConfigMap
    c₁ = policies_loop default_string from.string_policy c

    c₂ : ConfigMap
    c₂ = policies_loop default_int from.integer_policy c₁

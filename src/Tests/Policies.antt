-- ===== src/Tests/Policies.antt =====
-- Two orders of one config policy.
use mathlib.Core.List.{Memᴰ}
use mathlib.Core.Quot
use snap_plugin_lib_cpp.Base.{◌≡◌, refl, ap, true, false, Option, [], ◌∷◌, String}
use snap_plugin_lib_cpp.Base.Dict.{Dict}
use snap_plugin_lib_cpp.Rpc.{empty_config}
use snap_plugin_lib_cpp.Rpc.Policy.{StringRule, Policy, GetConfigPolicyReply, new_policy_reply}
use snap_plugin_lib_cpp.Config.{apply_defaults}
use snap_plugin_lib_cpp.Config.Defaults.{want_string, want_int, want_bool}
use snap_plugin_lib_cpp.Config.Order.{
  rules_of, IsAgreed, AllAgreed, SameContent, apply_defaults-unordered,
}

abbrev rule : StringRule
rule = record { required = false; default = "x"; has_default = true }

abbrev first : String × Policy StringRule
first = ("a", record { rules = ("k", rule) ∷ [] })

abbrev second : String × Policy StringRule
second = ("b", record { rules = ("l", rule) ∷ [] })

is_rule :
    (k l m : String) (r : StringRule)
    → Memᴰ {A = String × StringRule} (k, r) ((l, rule) ∷ (m, rule) ∷ [])
    → r ≡ rule
is_rule k l m r (Memᴰ.head e) = ap (λ x. x.1) e
is_rule k l m r (Memᴰ.tail (Memᴰ.head e)) = ap (λ x. x.1) e
is_rule k l m r (Memᴰ.tail (Memᴰ.tail h)) = elim h [ ]

rules-IsAgreed :
    (ps : Dict (Policy StringRule)) (l m : String)
    → rules_of ps ≡ (l, rule) ∷ (m, rule) ∷ []
    → IsAgreed want_string ps
rules-IsAgreed ps l m e k r r' a b h h' wanted wanted' =
    let p = is_rule k l m r (rw e at h) in let p' = is_rule k l m r' (rw e at h') in cc

nothing-IsAgreed : {R V : Type 0} (want : R → Option V) → IsAgreed want []
nothing-IsAgreed want k r r' a b h h' p p' = elim h [ ]

swap : (x y z : String × StringRule) → Memᴰ x (y ∷ z ∷ []) → Memᴰ x (z ∷ y ∷ [])
swap x y z (Memᴰ.head e) = Memᴰ.tail (Memᴰ.head e)
swap x y z (Memᴰ.tail (Memᴰ.head e)) = Memᴰ.head e
swap x y z (Memᴰ.tail (Memᴰ.tail h)) = elim h [ ]

abbrev one_order : GetConfigPolicyReply
one_order = record new_policy_reply { string_policy = first ∷ second ∷ [] }

abbrev other_order : GetConfigPolicyReply
other_order = record new_policy_reply { string_policy = second ∷ first ∷ [] }

one_agreed : AllAgreed one_order
one_agreed = record {
  strings = rules-IsAgreed (first ∷ second ∷ []) "k" "l" refl;
  integers = nothing-IsAgreed want_int;
  booleans = nothing-IsAgreed want_bool;
}

other_agreed : AllAgreed other_order
other_agreed = record {
  strings = rules-IsAgreed (second ∷ first ∷ []) "l" "k" refl;
  integers = nothing-IsAgreed want_int;
  booleans = nothing-IsAgreed want_bool;
}

apply_defaults-unordered_example :
    SameContent (apply_defaults one_order empty_config) (apply_defaults other_order empty_config)
unfolding one_agreed other_agreed
apply_defaults-unordered_example =
    apply_defaults-unordered one_order other_order empty_config one_agreed other_agreed
      (Quot.sound (λ x. (swap x ("k", rule) ("l", rule), swap x ("l", rule) ("k", rule)))) refl refl

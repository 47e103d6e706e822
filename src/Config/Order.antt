-- ===== src/Config/Order.antt =====
-- `Config::apply_defaults` and the order of the rules: a policy is a protobuf Map, whose order of iteration
-- is not specified.
use mathlib.Core.Option.{or_else}
use mathlib.Core.List.{Memᴰ}
use mathlib.Core.HLevel.{hedberg}
use mathlib.Core.Quot
use mathlib.Core.Quot.{Quot}
use snap_plugin_lib_cpp.Base.{
  ◌≡◌, ◌↔◌, ◌⊎◌, refl, ap, ◌∙◌, sym, inl, inr, Bool, Option, none, some, Option-cases, [], ◌∷◌,
  ◌++◌, String, str_dec, arith,
}
use snap_plugin_lib_cpp.Base.Int.{ℤ}
use snap_plugin_lib_cpp.Base.Dict.{Dict, lookup}
use snap_plugin_lib_cpp.Rpc.{ConfigMap}
use snap_plugin_lib_cpp.Rpc.Policy.{Policy, GetConfigPolicyReply}
use snap_plugin_lib_cpp.Config.{apply_defaults}
use snap_plugin_lib_cpp.Config.Defaults.{
  default_of, default_in, want_string, want_int, want_bool, apply_defaults_lem,
}

-- All the rules, without their namespaces.
abbrev pub rules_of : {R : Type 0} → Dict (Policy R) → Dict R
rules_of [] = []
rules_of ((ns, policy) ∷ policies) = policy.rules ++ rules_of policies

module _ {R V : Type 0} (want : R → Option V) where
  -- Rules of one key do not differ in the default that they want.
  abbrev pub IsAgreed : Dict (Policy R) → Type 0
  IsAgreed policies =
      (k : String) (r r' : R) (a b : V)
      → Memᴰ (k, r) (rules_of policies)
      → Memᴰ (k, r') (rules_of policies)
      → want r ≡ some a
      → want r' ≡ some b
      → a ≡ b

  module _ (k : String) where
    default_of-append :
        (xs ys : Dict R)
        → default_of want k (xs ++ ys) ≡ or_else (default_of want k xs) (default_of want k ys)
    unfolding or_else
    default_of-append [] ys = refl
    default_of-append ((key, rule) ∷ xs) ys = ground (arith, default_of-append xs ys)

    default_in-rules_of :
        (policies : Dict (Policy R))
        → default_in want k policies ≡ default_of want k (rules_of policies)
    default_in-rules_of [] = refl
    default_in-rules_of ((ns, policy) ∷ policies) =
        ap (or_else (default_of want k policy.rules)) (default_in-rules_of policies)
        ∙ sym (default_of-append policy.rules (rules_of policies))

    -- The first rule is taken, or skipped.
    default_of-cons :
        (key : String) (rule : R) (rules : Dict R)
        → ((b : V) × (key ≡ k)
            × (want rule ≡ some b)
            × (default_of want k ((key, rule) ∷ rules) ≡ some b))
          ⊎ (default_of want k ((key, rule) ∷ rules) ≡ default_of want k rules)
    unfolding or_else
    default_of-cons key rule rules = elim (str_dec key k) [
      | yes same ↦ elim (Option-cases (want rule)) [
        | inl nothing ↦ inr (ground arith)
        | inr (b, wanted) ↦ inl (b, same, wanted, ground arith)
      ]
      | no other ↦ inr (ground arith)
    ]

    -- A default is that of a rule of the key.
    default_of_found :
        (rules : Dict R) (a : V)
        → default_of want k rules ≡ some a
        → (r : R) × Memᴰ (k, r) rules × (want r ≡ some a)
    default_of_found [] a e = absurd (cc)
    default_of_found ((key, rule) ∷ rules) a e = elim (default_of-cons key rule rules) [
      | inl (b, same, wanted, taken) ↦
          (rule, Memᴰ.head (ap (λ j. (j, rule)) (sym same)), wanted ∙ sym taken ∙ e)
      | inr skipped ↦
          let (r, m, wanted) = default_of_found rules a (sym skipped ∙ e) in
          (r, Memᴰ.tail m, wanted)
    ]

    -- Where there is none, no rule of the key wants one.
    default_of_missing :
        (rules : Dict R) (r : R)
        → default_of want k rules ≡ none
        → Memᴰ (k, r) rules
        → want r ≡ none
    unfolding or_else
    default_of_missing [] r e m = elim m [ ]
    default_of_missing ((key, rule) ∷ rules) r e (Memᴰ.head p) =
        let same : key ≡ k = ap (λ x. x.0) (sym p) in
        let rule_same : rule ≡ r = ap (λ x. x.1) (sym p) in ground arith
    default_of_missing ((key, rule) ∷ rules) r e (Memᴰ.tail m) =
        default_of_missing rules r (ground arith) m

  -- Two policies list the same rules, whatever their order, their namespaces and repetitions.
  abbrev pub Same : Dict (Policy R) → Dict (Policy R) → Type 0
  Same ps qs = (x : String × R) → Memᴰ x (rules_of ps) ↔ Memᴰ x (rules_of qs)

  default_in-Same :
      (k : String) (ps qs : Dict (Policy R))
      → IsAgreed ps
      → Same ps qs
      → default_in want k ps ≡ default_in want k qs
  default_in-Same k ps qs agreed same =
      let p = default_in-rules_of k ps in
      let q = default_in-rules_of k qs in
      elim (Option-cases (default_of want k (rules_of ps))) [
        | inl missing ↦ elim (Option-cases (default_of want k (rules_of qs))) [
          | inl missing' ↦ p ∙ missing ∙ sym missing' ∙ sym q
          | inr (b, found') ↦
              let (r, m, wanted) = default_of_found k (rules_of qs) b found' in
              let none_ = default_of_missing k (rules_of ps) r missing ((same (k, r)).1 m) in
              absurd (cc)
        ]
        | inr (a, found) ↦
            let (r, m, wanted) = default_of_found k (rules_of ps) a found in
            elim (Option-cases (default_of want k (rules_of qs))) [
              | inl missing' ↦
                  let none_ = default_of_missing k (rules_of qs) r missing' ((same (k, r)).0 m) in
                  absurd (cc)
              | inr (b, found') ↦
                  let (r', m', wanted') = default_of_found k (rules_of qs) b found' in
                  let e = agreed k r r' a b m ((same (k, r')).1 m') wanted wanted' in
                  p ∙ found ∙ ap some e ∙ sym found' ∙ sym q
            ]
      ]

  abbrev pub Agreed : Type 0
  Agreed = (ps : Dict (Policy R)) × IsAgreed ps

  abbrev pub SameRules : Agreed → Agreed → Type 0
  SameRules p q = Same p.0 q.0

  -- Policies whose rules agree, without the order of iteration.
  abbrev pub unordered : (ps : Dict (Policy R)) → IsAgreed ps → Quot SameRules
  unordered ps agreed = Quot.mk (ps, agreed)

  module _ (V_set : IsSet V) where
    option_set : IsSet (Option V)
    option_set = hlevel

    -- The default of a key.
    default_for : String → Quot SameRules → Option V
    default_for k =
        Quot.lift option_set (λ p. default_in want k p.0)
          (λ p q same. default_in-Same k p.0 q.0 p.1 same)

String_set : IsSet String
String_set = hedberg str_dec

Bool_set : IsSet Bool
Bool_set = hlevel

ℤ_set : IsSet ℤ
ℤ_set = hlevel

-- Of each type, the rules of one key want the same default.
pub record AllAgreed (p : GetConfigPolicyReply) : Type 0 where
  pub strings : IsAgreed want_string p.string_policy
  pub integers : IsAgreed want_int p.integer_policy
  pub booleans : IsAgreed want_bool p.bool_policy

-- The keys and values of a config.
abbrev pub SameContent : ConfigMap → ConfigMap → Type 0
SameContent c d =
    (k : String)
    → (lookup k c.stringmap ≡ lookup k d.stringmap)
      × (lookup k c.intmap ≡ lookup k d.intmap)
      × (lookup k c.boolmap ≡ lookup k d.boolmap)

-- If the rules of one key and type never want different defaults, then the config that `apply_defaults`
-- makes depends on the rules alone: for two policies that are the same but for the order of
-- iteration, the namespaces and repetitions, it has the same keys and values.
pub apply_defaults-unordered :
    (p q : GetConfigPolicyReply) (c : ConfigMap) (agreed : AllAgreed p) (agreed' : AllAgreed q)
    → unordered want_string p.string_policy agreed.strings
      ≡ unordered want_string q.string_policy agreed'.strings
    → unordered want_int p.integer_policy agreed.integers
      ≡ unordered want_int q.integer_policy agreed'.integers
    → unordered want_bool p.bool_policy agreed.booleans
      ≡ unordered want_bool q.bool_policy agreed'.booleans
    → SameContent (apply_defaults p c) (apply_defaults q c)
unfolding default_for
apply_defaults-unordered p q c agreed agreed' strings integers booleans k =
    let (s, i, b) = apply_defaults_lem k p c in
    let (s', i', b') = apply_defaults_lem k q c in
    (
      s
          ∙ ap (λ u. or_else (lookup k c.stringmap) (default_for want_string String_set k u))
              strings
          ∙ sym s',
      i ∙ ap (λ u. or_else (lookup k c.intmap) (default_for want_int ℤ_set k u)) integers ∙ sym i',
      b
          ∙ ap (λ u. or_else (lookup k c.boolmap) (default_for want_bool Bool_set k u)) booleans
          ∙ sym b',
    )

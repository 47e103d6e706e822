-- ===== src/Plugin/Diagnostics/Requirements.antt =====
-- When the diagnosis ends for a requirement that is missing.
use snap_plugin_lib_cpp.Base.{
  text_empty, text_empty-append, ◌≡◌, Bool, true, false, not, ◌&&◌, ◌||◌, [], ◌∷◌, ◌++◌, String,
  ◌<>◌, arith,
}
use snap_plugin_lib_cpp.Base.Int.{ℤ}
use snap_plugin_lib_cpp.Base.Dict.{Dict, contains}
use snap_plugin_lib_cpp.Rpc.Policy.{Policy, GetConfigPolicyReply}
use snap_plugin_lib_cpp.Config.{apply_defaults}
use snap_plugin_lib_cpp.Plugin.Diagnostics.{
  Row, Printer, check_for_missing_requirements, print_rules, print_policies, string_row,
  integer_row, bool_row, print_string_policy, print_integer_policy, print_bool_policy, text_empty,
  Diagnosis, ends, goes_on, print_config_policy,
}

-- Some rule is required while its key has no string in the map.
module _ {R : Type 0} (required : R → Bool) (strings : Dict String) where
  abbrev pub lacks : Dict R → Bool
  lacks [] = false
  lacks ((key, rule) ∷ rules) = (required rule && not (contains key strings)) || lacks rules

  abbrev pub lacks_any : Dict (Policy R) → Bool
  lacks_any [] = false
  lacks_any ((ns, policy) ∷ policies) = lacks policy.rules || lacks_any policies

check_lem :
    (key : String) (required : Bool) (p : Printer)
    → let q = check_for_missing_requirements key required p in
      (text_empty q.missing
        ≡ text_empty p.missing && not (required && not (contains key p.cfgmap.stringmap)))
      × (q.cfgmap ≡ p.cfgmap)
unfolding check_for_missing_requirements
check_lem key required p = ground (
  arith,
  text_empty-append p.missing
      ("! Warning: \"" <> (key <> "\" required by plugin and not provided in config \n")),
  text_empty-append "! Warning: \"" (key <> "\" required by plugin and not provided in config \n"),
)

de_morgan : (a b c : Bool) → (a && not b) && not c ≡ a && not (b || c)
de_morgan a b c = ground arith

module _ {R : Type 0} (row : String → String → R → Row) (required : R → Bool) where
  print_rules_lem :
      (ns : String) (rules : Dict R) (p : Printer)
      → let q = print_rules row required ns rules p in
        (text_empty q.missing
          ≡ text_empty p.missing && not (lacks required p.cfgmap.stringmap rules))
        × (q.cfgmap ≡ p.cfgmap)
  unfolding print_rules
  print_rules_lem ns [] p = ground arith
  print_rules_lem ns ((key, rule) ∷ rules) p =
      let p' : Printer = record p { rows = p.rows ++ (row ns key rule ∷ []) } in
      let q = check_for_missing_requirements key (required rule) p' in
      ground (arith, print_rules_lem ns rules q, check_lem key (required rule) p')

  print_policies_lem :
      (policies : Dict (Policy R)) (p : Printer)
      → let q = print_policies row required policies p in
        (text_empty q.missing
          ≡ text_empty p.missing && not (lacks_any required p.cfgmap.stringmap policies))
        × (q.cfgmap ≡ p.cfgmap)
  unfolding print_policies
  print_policies_lem [] p = ground arith
  print_policies_lem ((ns, policy) ∷ policies) p = ground (
    arith,
    print_policies_lem policies (print_rules row required ns policy.rules p),
    print_rules_lem ns policy.rules p,
  )

abbrev pub has_ended : Diagnosis → Bool
has_ended (ends p) = true
has_ended (goes_on p) = false

-- If nothing was missing before, the diagnosis ends after the table exactly when a rule of any of the
-- three types is required and its key has no value among the strings of the config, after the
-- defaults. A value among the integers or the Booleans does not count, also for a rule of that type.
pub print_config_policy_lem :
    (to_string : ℤ → String) (cpolicy : GetConfigPolicyReply) (p : Printer)
    → text_empty p.missing ≡ true
    → let strings = (apply_defaults cpolicy p.cfgmap).stringmap in
      has_ended (print_config_policy to_string cpolicy p) ≡ (
        lacks_any (λ r. r.required) strings cpolicy.string_policy
        || (lacks_any (λ r. r.required) strings cpolicy.integer_policy
            || lacks_any (λ r. r.required) strings cpolicy.bool_policy))
unfolding print_config_policy print_string_policy print_integer_policy print_bool_policy
print_config_policy_lem to_string cpolicy p e =
    let p₀ : Printer = record p { cfgmap = apply_defaults cpolicy p.cfgmap } in
    let p₁ = print_policies string_row (λ r. r.required) cpolicy.string_policy p₀ in
    let p₂ = print_policies (integer_row to_string) (λ r. r.required) cpolicy.integer_policy p₁ in
    ground (
      arith,
      print_policies_lem string_row (λ r. r.required) cpolicy.string_policy p₀,
      print_policies_lem (integer_row to_string) (λ r. r.required) cpolicy.integer_policy p₁,
      print_policies_lem (bool_row to_string) (λ r. r.required) cpolicy.bool_policy p₂,
    )

abbrev pub printer_of : Diagnosis → Printer
printer_of (ends p) = p
printer_of (goes_on p) = p

-- The table leaves the config with the defaults that are missing in it.
pub cfgmap-print_config_policy :
    (to_string : ℤ → String) (cpolicy : GetConfigPolicyReply) (p : Printer)
    → (printer_of (print_config_policy to_string cpolicy p)).cfgmap
      ≡ apply_defaults cpolicy p.cfgmap
unfolding print_config_policy print_string_policy print_integer_policy print_bool_policy
cfgmap-print_config_policy to_string cpolicy p =
    let p₀ : Printer = record p { cfgmap = apply_defaults cpolicy p.cfgmap } in
    let p₁ = print_policies string_row (λ r. r.required) cpolicy.string_policy p₀ in
    let p₂ = print_policies (integer_row to_string) (λ r. r.required) cpolicy.integer_policy p₁ in
    ground (
      arith,
      (print_policies_lem string_row (λ r. r.required) cpolicy.string_policy p₀).1,
      (print_policies_lem (integer_row to_string) (λ r. r.required) cpolicy.integer_policy p₁).1,
      (print_policies_lem (bool_row to_string) (λ r. r.required) cpolicy.bool_policy p₂).1,
    )

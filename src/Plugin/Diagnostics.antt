-- ===== src/Plugin/Diagnostics.antt =====
-- DiagnosticPrinter (src/snap/plugin.h and plugin.cc): the table of the config policy and the check
-- for missing requirements. A row is its cells, which the source pads with `setw`. `to_string` is
-- `std::to_string`.
pub mod Requirements
pub mod Platform
pub mod Show
pub mod Shown
pub mod Started
use snap_plugin_lib_cpp.Base.{
  text_empty, ℕ, Bool, true, false, not, ◌&&◌, Option, none, some, List, [], ◌∷◌, ◌++◌, String,
  ◌<>◌, str_eq, if◌then◌else◌,
}
use snap_plugin_lib_cpp.Base.Int.{ℤ, pos}
use snap_plugin_lib_cpp.Base.Dict.{Dict, contains}
use snap_plugin_lib_cpp.Rpc.{ConfigMap}
use snap_plugin_lib_cpp.Rpc.Policy.{StringRule, IntegerRule, BoolRule, Policy, GetConfigPolicyReply}
use snap_plugin_lib_cpp.Config.{apply_defaults}

pub record Row : Type 0 where
  pub namespace : String
  pub key : String
  pub type : String
  pub required : Bool
  pub default : String
  pub minimum : String
  pub maximum : String

-- `cfgmap`, which the member `config` refers to, `missing_config_requirements`, and the rows that
-- were written.
pub record Printer : Type 0 where
  pub cfgmap : ConfigMap
  pub missing : String
  pub rows : List Row

unfoldable pub check_for_missing_requirements : String → Bool → Printer → Printer
check_for_missing_requirements key hasdefault p =
    let m = p.cfgmap.stringmap in
    if hasdefault
    then (if not (contains key m && contains key m && contains key m)
        then record p {
          missing =
              p.missing
              <> ("! Warning: \""
                  <> (key <> "\" required by plugin and not provided in config \n"));
        }
        else p)
    else p

-- The two loops that the three functions share: a row and a check for each rule.
module _ {R : Type 0} (row : String → String → R → Row) (required : R → Bool) where
  print_rules : String → Dict R → Printer → Printer
  unfolding check_for_missing_requirements
  print_rules ns [] p = p
  print_rules ns ((key, rule) ∷ rules) p = print_rules ns rules (
      check_for_missing_requirements key (required rule)
        (record p { rows = p.rows ++ (row ns key rule ∷ []) }))

  print_policies : Dict (Policy R) → Printer → Printer
  unfolding print_rules
  print_policies [] p = p
  print_policies ((ns, policy) ∷ policies) p =
      print_policies policies (print_rules ns policy.rules p)

string_row : String → String → StringRule → Row
string_row ns key rule = record {
  namespace = ns;
  key = key;
  type = "string";
  required = rule.required;
  default = if rule.has_default then rule.default else "";
  minimum = "";
  maximum = "";
}

module _ (to_string : ℤ → String) where
  integer_row : String → String → IntegerRule → Row
  integer_row ns key rule = record {
    namespace = ns;
    key = key;
    type = "integer";
    required = rule.required;
    default = if rule.has_default then to_string rule.default else "";
    minimum = if rule.has_min then to_string rule.minimum else "";
    maximum = if rule.has_max then to_string rule.maximum else "";
  }

  bool_row : String → String → BoolRule → Row
  bool_row ns key rule =
      let text =
        if rule.has_default then to_string (if rule.default then pos 1 else pos 0) else "" in
      record {
        namespace = ns;
        key = key;
        type = "bool";
        required = rule.required;
        default = if not (str_eq text "") && str_eq text "1" then "true" else "false";
        minimum = "";
        maximum = "";
      }

unfoldable pub print_string_policy : Dict (Policy StringRule) → Printer → Printer
unfolding print_policies string_row
print_string_policy = print_policies string_row (λ r. r.required)

unfoldable pub print_integer_policy : (ℤ → String) → Dict (Policy IntegerRule) → Printer → Printer
unfolding print_policies integer_row
print_integer_policy to_string = print_policies (integer_row to_string) (λ r. r.required)

unfoldable pub print_bool_policy : (ℤ → String) → Dict (Policy BoolRule) → Printer → Printer
unfolding print_policies bool_row
print_bool_policy to_string = print_policies (bool_row to_string) (λ r. r.required)

-- After the table: the process ends, or the diagnosis goes on.
pub data Diagnosis : Type 0 where
  ends : Printer → Diagnosis
  goes_on : Printer → Diagnosis

unfoldable pub print_config_policy : (ℤ → String) → GetConfigPolicyReply → Printer → Diagnosis
unfolding print_string_policy print_integer_policy print_bool_policy
print_config_policy to_string cpolicy p =
    let q = print_bool_policy to_string cpolicy.bool_policy (
      print_integer_policy to_string cpolicy.integer_policy (
        print_string_policy cpolicy.string_policy
          (record p { cfgmap = apply_defaults cpolicy p.cfgmap }))) in
    if not (text_empty q.missing) then ends q else goes_on q

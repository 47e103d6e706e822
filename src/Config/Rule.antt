-- ===== src/Config/Rule.antt =====
-- The class template Rule<P, R, T> of src/snap/config.h: the constructors of the nested `rule`
-- over the fields of R, and those of the policy. The ones with bounds exist for IntegerRule only.
use snap_plugin_lib_cpp.Base.{Bool, true, [], String}
use snap_plugin_lib_cpp.Base.Int.{ℤ}
use snap_plugin_lib_cpp.Base.Dict.{insert}
use snap_plugin_lib_cpp.Rpc.Policy.{
  StringRule, IntegerRule, BoolRule, new_string_rule, new_integer_rule, new_bool_rule, Policy,
}

-- What the template needs of R and T.
pub record RuleFields (R T : Type 0) : Type 0 where
  pub fresh : R
  pub set_required : Bool → R → R
  pub set_has_default : Bool → R → R
  pub set_default : T → R → R

instance abbrev pub string_fields : RuleFields StringRule String
string_fields = record {
  fresh = new_string_rule;
  set_required = λ b r. record r { required = b };
  set_has_default = λ b r. record r { has_default = b };
  set_default = λ d r. record r { default = d };
}

instance abbrev pub integer_fields : RuleFields IntegerRule ℤ
integer_fields = record {
  fresh = new_integer_rule;
  set_required = λ b r. record r { required = b };
  set_has_default = λ b r. record r { has_default = b };
  set_default = λ d r. record r { default = d };
}

instance abbrev pub bool_fields : RuleFields BoolRule Bool
bool_fields = record {
  fresh = new_bool_rule;
  set_required = λ b r. record r { required = b };
  set_has_default = λ b r. record r { has_default = b };
  set_default = λ d r. record r { default = d };
}

module _ {R T : Type 0} ⦃f : RuleFields R T⦄ where
  -- `rule(const T& def, bool req)`
  unfoldable pub rule_with_default : T → Bool → R
  rule_with_default def req =
      f.set_required req (f.set_default def (f.set_has_default true f.fresh))

module _ {R : Type 0} (T : Type 0) ⦃f : RuleFields R T⦄ where
  -- `explicit rule(bool req)`
  unfoldable pub rule_required : Bool → R
  rule_required req = f.set_required req f.fresh

-- `rule(bool req, T min, T max)`
unfoldable pub rule_bounded : Bool → ℤ → ℤ → IntegerRule
rule_bounded req min max = record new_integer_rule {
  minimum = min;
  has_min = true;
  maximum = max;
  has_max = true;
  required = req;
}

-- `rule(const T& def, bool req, T min, T max)`
unfoldable pub rule_bounded_default : ℤ → Bool → ℤ → ℤ → IntegerRule
rule_bounded_default def req min max = record new_integer_rule {
  minimum = min;
  has_min = true;
  maximum = max;
  has_max = true;
  has_default = true;
  default = def;
  required = req;
}

-- `Rule(const std::string& key, const rule& rl)`
unfoldable pub create : {R : Type 0} → String → R → Policy R
unfolding insert
create key rl = record { rules = insert key rl [] }

-- `Rule(const std::string& key, bool req)`
unfoldable pub create_required :
    {R : Type 0} (T : Type 0) ⦃f : RuleFields R T⦄ → String → Bool → Policy R
unfolding rule_required insert
create_required T key req = record { rules = insert key (rule_required T req) [] }

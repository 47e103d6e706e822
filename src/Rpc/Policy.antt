-- ===== src/Rpc/Policy.antt =====
-- The rules, the policies and the reply of GetConfigPolicy (src/snap/rpc/plugin.pb.h).
use snap_plugin_lib_cpp.Base.{Bool, false, [], String}
use snap_plugin_lib_cpp.Base.Int.{ℤ, pos}
use snap_plugin_lib_cpp.Base.Dict.{Dict}

pub record StringRule : Type 0 where
  pub required : Bool
  pub default : String
  pub has_default : Bool

pub record IntegerRule : Type 0 where
  pub required : Bool
  pub minimum : ℤ
  pub maximum : ℤ
  pub default : ℤ
  pub has_default : Bool
  pub has_min : Bool
  pub has_max : Bool

pub record BoolRule : Type 0 where
  pub required : Bool
  pub default : Bool
  pub has_default : Bool

abbrev pub new_string_rule : StringRule
new_string_rule = record { required = false; default = ""; has_default = false }

abbrev pub new_integer_rule : IntegerRule
new_integer_rule = record {
  required = false;
  minimum = pos 0;
  maximum = pos 0;
  default = pos 0;
  has_default = false;
  has_min = false;
  has_max = false;
}

abbrev pub new_bool_rule : BoolRule
new_bool_rule = record { required = false; default = false; has_default = false }

-- `StringPolicy`, `IntegerPolicy`, `BoolPolicy`: the rules by their keys.
pub record Policy (R : Type 0) : Type 0 where
  pub rules : Dict R

pub record GetConfigPolicyReply : Type 0 where
  pub error : String
  pub bool_policy : Dict (Policy BoolRule)
  pub integer_policy : Dict (Policy IntegerRule)
  pub string_policy : Dict (Policy StringRule)

abbrev pub new_policy_reply : GetConfigPolicyReply
new_policy_reply = record { error = ""; bool_policy = []; integer_policy = []; string_policy = [] }

-- ===== src/Flags.antt =====
-- The command-line flags (src/snap/flags.h and flags.cc): the values that were parsed and their
-- getters. boost::program_options and nlohmann::json are parameters of the child modules.
pub mod Options
pub mod Json
pub mod Config
pub mod Shown
use snap_plugin_lib_cpp.Base.{ℕ, Bool, true, false, Option, none, some, String}
use snap_plugin_lib_cpp.Base.Int.{ℤ, pos}
use snap_plugin_lib_cpp.Base.Dict.{Dict, lookup, contains}

-- A `boost::any`, by the types that the flags use; `of_nothing` is the empty one of a plain flag.
pub data AnyValue : Type 0 where
  of_bool : Bool → AnyValue
  of_int : ℤ → AnyValue
  of_int64 : ℤ → AnyValue
  of_string : String → AnyValue
  of_nothing : AnyValue

pub record Flags : Type 0 where
  pub flags : Dict AnyValue
  pub framework_json_parsed : Bool

-- `_flags.count(flagKey)`
unfoldable pub is_parsed_flag : String → Flags → Bool
unfolding contains
is_parsed_flag key f = contains key f.flags

unfoldable pub is_config_from_framework : Flags → Bool
is_config_from_framework f = f.framework_json_parsed

-- `boost::any_cast<T>(&value)`
as_bool : Option AnyValue → Bool
as_bool (some (of_bool b)) = b
as_bool _ = false

as_int : Option AnyValue → ℤ
as_int (some (of_int n)) = n
as_int _ = pos 0

as_int64 : Option AnyValue → ℤ
as_int64 (some (of_int64 n)) = n
as_int64 _ = pos 0

as_string : Option AnyValue → String
as_string (some (of_string s)) = s
as_string _ = ""

-- The getters: the value of a flag of that type, and otherwise, with a warning, a default.
unfoldable pub get_flag_bool_value : String → Flags → Bool
unfolding as_bool lookup
get_flag_bool_value key f = as_bool (lookup key f.flags)

unfoldable pub get_flag_int_value : String → Flags → ℤ
unfolding as_int lookup
get_flag_int_value key f = as_int (lookup key f.flags)

unfoldable pub get_flag_int64_value : String → Flags → ℤ
unfolding as_int64 lookup
get_flag_int64_value key f = as_int64 (lookup key f.flags)

unfoldable pub get_flag_str_value : String → Flags → String
unfolding as_string lookup
get_flag_str_value key f = as_string (lookup key f.flags)

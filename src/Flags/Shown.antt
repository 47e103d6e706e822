-- ===== src/Flags/Shown.antt =====
-- `ShowVariablesMap` and `SetFlagsLogLevel` of src/snap/flags.cc. `to_string` prints a number.
use snap_plugin_lib_cpp.Base.{
  ◌≡◌, true, false, Option, none, some, [], ◌∷◌, String, if◌then◌else◌, arith,
}
use snap_plugin_lib_cpp.Base.Int.{ℤ, pos, eqb_ℤ}
use snap_plugin_lib_cpp.Base.Dict.{Dict, lookup}
use snap_plugin_lib_cpp.Flags.{AnyValue, of_bool, of_int, of_int64, of_string, of_nothing, Flags}

module _ (to_string : ℤ → String) where
  -- What is printed behind the key; `none`: a warning, and the line does not end.
  unfoldable pub show_value : AnyValue → Option String
  show_value (of_bool true) = some "1"
  show_value (of_bool false) = some "0"
  show_value (of_int n) = some (to_string n)
  show_value (of_int64 n) = some (to_string n)
  show_value (of_string s) = some s
  show_value of_nothing = none

  variables_loop : Dict AnyValue → Dict (Option String)
  unfolding show_value
  variables_loop [] = []
  variables_loop ((key, value) ∷ flags) = (key, show_value value) ∷ variables_loop flags

  unfoldable pub show_variables_map : Flags → Dict (Option String)
  unfolding variables_loop
  show_variables_map f = variables_loop f.flags

  -- Each flag that was parsed is shown with its own value.
  variables_loop-lookup :
      (k : String) (v : AnyValue) (flags : Dict AnyValue)
      → lookup k flags ≡ some v
      → lookup k (variables_loop flags) ≡ some (show_value v)
  unfolding variables_loop lookup
  variables_loop-lookup k v [] e = absurd (cc)
  variables_loop-lookup k v ((j, w) ∷ flags) e = ground (arith, variables_loop-lookup k v flags)

-- The levels of spdlog that are set.
pub data LogLevel : Type 0 where
  critical err warn info debug : LogLevel

-- The logger's level afterwards; a number that is not supported leaves it, with a warning.
unfoldable pub set_flags_log_level : ℤ → LogLevel → LogLevel
set_flags_log_level log_level level =
    if eqb_ℤ log_level (pos 0)
    then critical
    else if eqb_ℤ log_level (pos 1)
    then critical
    else if eqb_ℤ log_level (pos 2)
    then err
    else if eqb_ℤ log_level (pos 3)
    then warn
    else if eqb_ℤ log_level (pos 4)
    then info
    else if eqb_ℤ log_level (pos 5)
    then debug
    else level

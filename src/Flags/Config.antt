-- ===== src/Flags/Config.antt =====
-- `GenerateConfigMapFromCommandJson` of src/snap/flags.cc: the config in the flag `config`.
-- nlohmann::json is the record JsonObjects.
pub mod Members
use snap_plugin_lib_cpp.Base.{Bool, Option, none, some, List, [], ◌∷◌, String}
use snap_plugin_lib_cpp.Base.Int.{ℤ}
use snap_plugin_lib_cpp.Base.Dict.{lookup, insert}
use snap_plugin_lib_cpp.Rpc.{ConfigMap, empty_config}
use snap_plugin_lib_cpp.Flags.{AnyValue, of_string, of_bool, of_int, of_int64, of_nothing, Flags}

-- A JSON value by the tests `is_boolean`, `is_number` and `is_string`, with what its conversion to
-- `bool`, `int64_t` and `std::string` yields.
pub data Scalar : Type 0 where
  json_boolean : Bool → Scalar
  json_number : ℤ → Scalar
  json_string : String → Scalar
  json_other : Scalar

pub record JsonObjects : Type 1 where
  pub Json : Type 0
  -- the members of the object in the text; `none`: an exception, of `parse` or of `key()`
  pub parse_members : String → Option (List (String × Json))
  pub scalar : Json → Scalar

-- The body of the loop.
add_member : String → Scalar → ConfigMap → ConfigMap
add_member key (json_boolean b) c = record c { boolmap = insert key b c.boolmap }
add_member key (json_number n) c = record c { intmap = insert key n c.intmap }
add_member key (json_string s) c = record c { stringmap = insert key s c.stringmap }
add_member key json_other c = c

module _ (json : JsonObjects) where
  open json use {Json, parse_members, scalar}

  members_loop : List (String × Json) → ConfigMap → ConfigMap
  unfolding add_member
  members_loop [] c = c
  members_loop ((key, j) ∷ members) c = members_loop members (add_member key (scalar j) c)

  -- From the value of the flag; `none`: an exception, also of the `any_cast` of another type.
  config_of_value : Option AnyValue → Option ConfigMap
  unfolding members_loop
  config_of_value none = some empty_config
  config_of_value (some (of_string s)) = elim (parse_members s) [
    | none ↦ none
    | some members ↦ some (members_loop members empty_config)
  ]
  config_of_value (some _) = none

  unfoldable pub generate_config_map_from_command_json : Flags → Option ConfigMap
  unfolding config_of_value
  generate_config_map_from_command_json f = config_of_value (lookup "config" f.flags)

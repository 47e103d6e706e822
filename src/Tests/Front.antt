-- ===== src/Tests/Front.antt =====
-- The flags at small instances of the libraries that they call.
use Prim.Native.Char.{code}
use text.Mathlib.TextLemmas
use snap_plugin_lib_cpp.Base.{
  ◌≡◌, ◌≢◌, refl, Bool, true, false, Option, none, some, List, [], ◌∷◌, ◌++◌, String, ◌<>◌, ap,
  ◌==◌, if◌then◌else◌,
}
use snap_plugin_lib_cpp.Base.{str_dec}
use snap_plugin_lib_cpp.Base.Int.{pos}
use snap_plugin_lib_cpp.Base.Dict.{lookup}
use snap_plugin_lib_cpp.Rpc.{ConfigMap}
use snap_plugin_lib_cpp.Flags.{Flags, of_string}
use snap_plugin_lib_cpp.Flags.Config.{
  Scalar, json_string, json_number, json_other, JsonObjects, generate_config_map_from_command_json,
}
use snap_plugin_lib_cpp.Flags.Config.Members.{
  boolean_of, number_of, text_of, last_of, generate_config_map_from_command_json_lem,
}
use snap_plugin_lib_cpp.Flags.Json.{Libraries, parse_flags}
use snap_plugin_lib_cpp.Flags.Json.Laws.{parse_flags-ne-none}
use snap_plugin_lib_cpp.Flags.Options.{
  OptionSpec, ProgramOptions, new_groups, command_options, global_options, hidden_options,
  set_flags,
}
use snap_plugin_lib_cpp.Flags.Options.Laws.{IsListing, set_flags_lem}

-- A text is JSON if it begins with a brace; a value is a Boolean.
abbrev braces : String → Option Bool
braces String.[] = none
braces (String.◌∷◌ c s) = if code c == b'{' then some true else none

braces-dashes : (s : String) → braces ("--" <> s) ≡ none
braces-dashes s = ap braces (TextLemmas.cons-append "-" "-" s)

abbrev negate : Bool → Bool
negate true = false
negate false = true

abbrev show : Bool → String
show true = "true"
show false = "false"

abbrev library : Libraries
library = record {
  Json = Bool;
  parse = braces;
  items = λ j. some (("TLSEnabled", true) ∷ ("Pprof", false) ∷ ("Other", true) ∷ []);
  is_false = negate;
  print = show;
  store_command_line = λ argv flags. (flags, true);
  store_config_file = λ path flags. (flags, true);
}

abbrev members : List (String × Bool)
members = ("TLSEnabled", true) ∷ ("Pprof", false) ∷ ("Other", true) ∷ []

abbrev no_flags : Flags
no_flags = record { flags = []; framework_json_parsed = false }

parse_flags-ne-none_example : parse_flags library ("plugin" ∷ "{}" ∷ "{}" ∷ []) "" no_flags ≢ none
parse_flags-ne-none_example =
    parse_flags-ne-none library braces-dashes "plugin" ("{}" ∷ "{}" ∷ []) "" no_flags

-- A group is the list of its options.
abbrev listing : ProgramOptions
listing = record {
  Desc = List OptionSpec;
  empty = [];
  add_option = λ o d. (d ++ (o ∷ []), true);
  add = λ g d. (d ++ g, true);
}

abbrev listing-IsListing : IsListing listing
listing-IsListing = record {
  options = λ d. d;
  options-empty = refl;
  add_option-options = λ o d. refl;
  add_option-done = λ o d. refl;
  add-options = λ g d. refl;
  add-done = λ g d. refl;
}

set_flags_lem_example :
    let (code, g) = set_flags listing (new_groups listing) in
    (code ≡ 0)
    × (g.visible ≡ command_options ++ global_options)
    × (g.command_line ≡ command_options ++ (global_options ++ hidden_options))
    × (g.config_file ≡ global_options ++ global_options)
set_flags_lem_example = set_flags_lem listing listing-IsListing

abbrev with_config : Flags
with_config = record { flags = ("config", of_string "{}") ∷ []; framework_json_parsed = false }

-- Every text is the object with these members.
abbrev objects : JsonObjects
objects = record {
  Json = Scalar;
  parse_members = λ s.
      some (("user", json_string "root") ∷ ("port", json_number (pos 80)) ∷ ("x", json_other) ∷ []);
  scalar = λ j. j;
}

abbrev entries : List (String × Scalar)
entries = ("user", json_string "root") ∷ ("port", json_number (pos 80)) ∷ ("x", json_other) ∷ []

generate_config_map_from_command_json_lem_example :
    (c : ConfigMap) × (generate_config_map_from_command_json objects with_config ≡ some c)
    × (lookup "port" c.boolmap ≡ last_of objects boolean_of "port" entries)
    × (lookup "port" c.intmap ≡ last_of objects number_of "port" entries)
    × (lookup "port" c.stringmap ≡ last_of objects text_of "port" entries)
unfolding lookup str_dec
generate_config_map_from_command_json_lem_example =
    generate_config_map_from_command_json_lem objects with_config "{}" entries "port" refl refl

-- ===== src/Flags/Json.antt =====
-- Flags as JSON in the first argument: `parsejsonFlags`, `parseCommandLineFlags`, `ParseFlags` and
-- the functions of JsonHelpers in src/snap/flags.cc. What nlohmann::json, boost::program_options and
-- the file system do is the record Libraries.
pub mod Laws
use Prim.Native.Char.{code}
use snap_plugin_lib_cpp.Base.{
  ℕ, zero, suc, ◌+◌, ◌-◌, ◌*◌, ◌≤◌, ◌<◌, ◌≡◌, ◌≢◌, ◌⊎◌, inl, inr, refl, ap, ◌∙◌, Bool, true, false,
  not, ◌&&◌, ◌||◌, Option, none, some, List, [], ◌∷◌, ◌++◌, append_assoc, length, length-append,
  String, ◌<>◌, str_dec, str_eq, ◌==◌, All, arith, if◌then◌else◌,
}
use snap_plugin_lib_cpp.Base.Dict.{Dict, lookup, contains}
use snap_plugin_lib_cpp.Flags.{AnyValue, Flags, is_parsed_flag}

pub record Libraries : Type 1 where
  pub Json : Type 0
  -- `ss >> j`; `none`: the text is no JSON, and the parser throws
  pub parse : String → Option Json
  -- the members of an object; `none`: `it.key()` throws, on other values that are not empty
  pub items : Json → Option (List (String × Json))
  -- `it.value().is_boolean() && !it.value()`
  pub is_false : Json → Bool
  -- `ss << it.value()`
  pub print : Json → String
  -- `po::store(po::command_line_parser(…))` and `po::notify`, and the same of the config file: the
  -- map that is left, and whether they returned. A config file that cannot be opened changes nothing;
  -- an empty name stands for the options file.
  pub store_command_line : List String → Dict AnyValue → Dict AnyValue × Bool
  pub store_config_file : String → Dict AnyValue → Dict AnyValue × Bool

-- `_pretty_flags`
abbrev pub pretty_flags : Dict String
pretty_flags =
    ("TLSEnabled", "tls")
    ∷ ("LogLevel", "log-level")
    ∷ ("CertPath", "cert-path")
    ∷ ("KeyPath", "key-path")
    ∷ ("RootCertPaths", "root-cert-paths")
    ∷ ("Pprof", "pprof")
    ∷ []

unfoldable pub is_flag : String → Bool
unfolding contains
is_flag flag = contains flag pretty_flags

-- `_pretty_flags[key]`
pretty : String → String
unfolding lookup
pretty key = elim (lookup key pretty_flags) [ none ↦ "" | some name ↦ name ]

-- `copyStringStream`: the text without its quotation marks.
unfoldable pub copy_string_stream : String → String
copy_string_stream String.[] = String.[]
copy_string_stream (String.◌∷◌ c s) =
    let rest = copy_string_stream s in if code c == b'"' then rest else String.◌∷◌ c rest

listed : String → List String → Bool
listed k [] = false
listed k (j ∷ js) = str_eq j k || listed k js

-- What a parse leaves: the code that it returns, or an exit of the process.
pub data Parsed : Type 0 where
  returned : ℕ → Flags → Parsed
  exits : Flags → Parsed

module _ (lib : Libraries) where
  open lib use {Json, parse, items, is_false, print, store_command_line, store_config_file}

  not_flags : List (String × Json) → List String
  not_flags [] = []
  not_flags ((key, value) ∷ members) =
      let rest = not_flags members in
      if not (is_flag key) then key ∷ rest else if is_false value then key ∷ rest else rest

  -- `for (auto flag : notFlag) j.erase(flag);`
  erase_listed : List String → List (String × Json) → List (String × Json)
  unfolding listed
  erase_listed names [] = []
  erase_listed names ((key, value) ∷ members) =
      let rest = erase_listed names members in
      if listed key names then rest else (key, value) ∷ rest

  unfoldable pub remove_unused_flags : List (String × Json) → List (String × Json)
  unfolding not_flags erase_listed is_flag
  remove_unused_flags members = erase_listed (not_flags members) members

  unfoldable pub generate_command_line_from_json : List (String × Json) → List String
  unfolding pretty copy_string_stream
  generate_command_line_from_json [] = []
  generate_command_line_from_json ((key, value) ∷ members) =
      ("--" <> pretty key)
      ∷ copy_string_stream (print value)
      ∷ generate_command_line_from_json members

  -- `newArgv`: the arguments without the first after the program's name, and then the generated ones.
  unfoldable pub new_argv : String → List String → List (String × Json) → List String
  unfolding generate_command_line_from_json
  new_argv program rest members = program ∷ (rest ++ generate_command_line_from_json members)

  -- `parsejsonFlags`, given `parseCommandLineFlags`; `none`: it throws.
  parsejson_flags :
      (List String → Flags → Option Parsed) → List String → Flags → Option (Option Parsed)
  unfolding remove_unused_flags new_argv
  parsejson_flags parse_command_line [] f = some (some (returned 1 f))
  parsejson_flags parse_command_line (program ∷ []) f = some (some (returned 1 f))
  parsejson_flags parse_command_line (program ∷ arg ∷ rest) f = elim (parse arg) [
    | none ↦ some (some (returned 1 f))
    | some j ↦ elim (items j) [
      | none ↦ none
      | some members ↦
          some (parse_command_line (new_argv program rest (remove_unused_flags members)) f)
    ]
  ]

  -- The second `try` of `parseCommandLineFlags`.
  parse_plainly : List String → Flags → Parsed
  parse_plainly argv f =
      let (flags, done) = store_command_line argv f.flags in
      let f' : Flags = record f { flags = flags } in
      if done then (if contains "help" flags then exits f' else returned 0 f') else returned 1 f'

  -- From what `parsejsonFlags` did. The outer `none` is an exception, the inner one the end of the fuel.
  after_json : List String → Flags → Option (Option Parsed) → Option Parsed
  unfolding parse_plainly
  after_json argv f none = some (parse_plainly argv f)
  after_json argv f (some none) = none
  after_json argv f (some (some (exits g))) = some (exits g)
  after_json argv f (some (some (returned zero g))) =
      some (returned 0 (record g { framework_json_parsed = true }))
  after_json argv f (some (some (returned (suc n) g))) = some (parse_plainly argv g)

  -- The fuel bounds the depth of the calls of `parseCommandLineFlags`; `none`: it ran out.
  unfoldable pub parse_command_line_flags : ℕ → List String → Flags → Option Parsed
  unfolding parsejson_flags after_json
  parse_command_line_flags zero argv f = none
  parse_command_line_flags (suc fuel) argv f =
      after_json argv f (parsejson_flags (parse_command_line_flags fuel) argv f)

  -- `ParseFlags`, with as much fuel as there are arguments
  unfoldable pub parse_flags : List String → String → Flags → Option Parsed
  parse_flags argv path f = elim (parse_command_line_flags (suc (length argv)) argv f) [
    | none ↦ none
    | some (exits g) ↦ some (exits g)
    | some (returned zero g) ↦
        let (flags, done) = store_config_file path g.flags in
        some (returned (if done then 0 else 1) (record g { flags = flags }))
    | some (returned (suc n) g) ↦ some (returned 1 g)
  ]

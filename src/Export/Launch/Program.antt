-- ===== src/Export/Launch/Program.antt =====
-- From the command line to the server: the constructor `Flags(argc, argv)` of src/snap/flags.h, which
-- ignores what the parse returns, before the start functions.
use snap_plugin_lib_cpp.Base.{
  ◌≡◌, ◌≢◌, ◌∙◌, inl, inr, refl, arith, Bool, false, Option, none, some, Option-cases, List, [],
  ◌∷◌, String, ◌<>◌,
}
use snap_plugin_lib_cpp.Base.Int.{ℤ}
use snap_plugin_lib_cpp.Flags.{Flags, is_parsed_flag}
use snap_plugin_lib_cpp.Flags.Json.{Libraries, returned, exits, parse_flags}
use snap_plugin_lib_cpp.Plugin.{Meta}
use snap_plugin_lib_cpp.Plugin.Interface.{PluginInterface}
use snap_plugin_lib_cpp.Export.Certificates.{Files}
use snap_plugin_lib_cpp.Export.Server.{Credentials, Exported}
use snap_plugin_lib_cpp.Export.Server.Secure.{is_ssl}
use snap_plugin_lib_cpp.Export.Launch.{Launch, versions, shows_diagnostics, crashes, runs, launch}
use snap_plugin_lib_cpp.Export.Launch.Secure.{launch-IsAsked}
use snap_plugin_lib_cpp.Flags.Json.Laws.{parse_flags-refused, parse_flags-ne-none}
use snap_plugin_lib_cpp.Export.Launch.Secure.{launch-IsAsked}

-- The members before the parse. (`SetFlags` declares the options, which the stores of the libraries
-- read.)
abbrev pub no_flags : Flags
no_flags = record { flags = []; framework_json_parsed = false }

-- `Flags(argc, argv)`: the object, or `none` after the help was shown. The outer `none` is the end of
-- the fuel.
unfoldable pub construct : Libraries → List String → Option (Option Flags)
unfolding parse_flags
construct lib argv = elim (parse_flags lib argv "" no_flags) [
  | none ↦ none
  | some (exits g) ↦ some none
  | some (returned code g) ↦ some (some g)
]

-- The whole start: `none` within, if it ends with the help.
unfoldable pub program :
    Libraries
    → Files
    → (String → Credentials → ℤ)
    → (ℤ → String)
    → List String
    → PluginInterface
    → Meta
    → Option (Option Launch)
unfolding construct launch
program lib fs bind to_string argv plugin m = elim (construct lib argv) [
  | none ↦ none
  | some none ↦ some none
  | some (some cli) ↦ some (some (launch fs bind to_string cli plugin m))
]

-- A start that runs a server comes from flags.
pub program-runs :
    (lib : Libraries) (fs : Files) (bind : String → Credentials → ℤ) (to_string : ℤ → String)
    (argv : List String) (plugin : PluginInterface) (m : Meta) (x : Exported)
    (served : Option PluginInterface)
    → program lib fs bind to_string argv plugin m ≡ some (some (runs x served))
    → (cli : Flags) × (construct lib argv ≡ some (some cli))
      × (launch fs bind to_string cli plugin m ≡ runs x served)
unfolding program
program-runs lib fs bind to_string argv plugin m x served e =
    elim (Option-cases (construct lib argv)) [
      | inl stuck ↦ absurd (ground arith)
      | inr (none, helped) ↦ absurd (ground arith)
      | inr (some cli, parsed) ↦
          let q : program lib fs bind to_string argv plugin m
              ≡ some (some (launch fs bind to_string cli plugin m)) =
            rw (parsed, program) refl in
          (cli, parsed, cc)
    ]

-- A command line that the libraries refuse leaves no flags.
construct-refused :
    (lib : Libraries) (name arg : String) (rest : List String)
    → lib.parse arg ≡ none
    → lib.store_command_line (name ∷ arg ∷ rest) [] ≡ ([], false)
    → construct lib (name ∷ arg ∷ rest) ≡ some (some no_flags)
unfolding construct
construct-refused lib name arg rest text refused =
    rw (parse_flags-refused lib name arg rest "" no_flags text refused, construct) refl

-- Whether a start runs a server with TLS.
abbrev pub has_tls : Launch → Bool
has_tls (runs x served) = is_ssl x.credentials
has_tls _ = false

has_tls-launch :
    (fs : Files) (bind : String → Credentials → ℤ) (to_string : ℤ → String) (cli : Flags)
    (plugin : PluginInterface) (m : Meta) (l : Launch)
    → is_parsed_flag "tls" cli ≡ false
    → launch fs bind to_string cli plugin m ≡ l
    → has_tls l ≡ false
has_tls-launch fs bind to_string cli plugin m (versions name n) bare e = refl
has_tls-launch fs bind to_string cli plugin m (shows_diagnostics m') bare e = refl
has_tls-launch fs bind to_string cli plugin m crashes bare e = refl
has_tls-launch fs bind to_string cli plugin m (runs x served) bare e =
    (launch-IsAsked fs bind to_string cli plugin m x served e).0 ∙ bare

-- If the command line is no JSON and the libraries refuse it, so that it leaves no flags, then the
-- error is ignored: the start goes on, exactly as without any flag, and it runs no server with TLS,
-- whatever flags stood there.
pub program-refused :
    (lib : Libraries) (fs : Files) (bind : String → Credentials → ℤ) (to_string : ℤ → String)
    (name arg : String) (rest : List String) (plugin : PluginInterface) (m : Meta)
    → lib.parse arg ≡ none
    → lib.store_command_line (name ∷ arg ∷ rest) [] ≡ ([], false)
    → (program lib fs bind to_string (name ∷ arg ∷ rest) plugin m
        ≡ some (some (launch fs bind to_string no_flags plugin m)))
      × (has_tls (launch fs bind to_string no_flags plugin m) ≡ false)
unfolding program is_parsed_flag
program-refused lib fs bind to_string name arg rest plugin m text refused = (
  rw (construct-refused lib name arg rest text refused, program) refl,
  has_tls-launch fs bind to_string no_flags plugin m _ refl refl,
)

-- If no text that begins with two dashes is JSON, the start comes to an end of its own, or to a
-- server that runs, whatever the arguments are.
program-ne-none :
    (lib : Libraries) (fs : Files) (bind : String → Credentials → ℤ) (to_string : ℤ → String)
    (name : String) (argv : List String) (plugin : PluginInterface) (m : Meta)
    → ((s : String) → lib.parse ("--" <> s) ≡ none)
    → program lib fs bind to_string (name ∷ argv) plugin m ≢ none
unfolding program construct
program-ne-none lib fs bind to_string name argv plugin m nothing =
    elim (Option-cases (parse_flags lib (name ∷ argv) "" no_flags)) [
      | inl stuck ↦ absurd (parse_flags-ne-none lib nothing name argv "" no_flags stuck)
      | inr (exits g, e) ↦ rw (e, program, construct) (λ e'. cc)
      | inr (returned n g, e) ↦ rw (e, program, construct) (λ e'. cc)
    ]

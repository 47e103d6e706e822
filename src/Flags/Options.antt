-- ===== src/Flags/Options.antt =====
-- The declaration of the options (src/snap/flags.cc): the groups, `AddFlag`, and the combined groups
-- of `SetFlags`. An `options_description` of boost is the parameter ProgramOptions; each function
-- returns 0, or 1 after an exception, as the source does, and keeps what was declared until then.
pub mod Laws
use snap_plugin_lib_cpp.Base.{
  ℕ, zero, suc, ◌≡◌, Bool, true, false, List, [], ◌∷◌, ◌++◌, String, ◌==◌, if◌then◌else◌,
}

-- How the value of an option is declared: none, or a type, with a default or `composing()`.
pub data ValueKind : Type 0 where
  plain : ValueKind
  int_value int64_value string_value : Bool → ValueKind

-- The names of an option, and its value.
pub record OptionSpec : Type 0 where
  pub names : String
  pub kind : ValueKind
  pub description : String

-- boost's `options_description`: the options in it, a declaration of one, and the adding of a group.
-- The flag says whether the call returned; a call that throws leaves the group as it was.
pub record ProgramOptions : Type 1 where
  pub Desc : Type 0
  pub empty : Desc
  pub add_option : OptionSpec → Desc → Desc × Bool
  pub add : Desc → Desc → Desc × Bool

pub data FlagLevel : Type 0 where
  command_level global_level hidden_level custom_level other_level : FlagLevel

pub data FlagType : Type 0 where
  bool_type int_type string_type other_type : FlagType

unfoldable pub command_options : List OptionSpec
command_options =
    record {
      names = "help,h";
      kind = plain;
      description = "Display available command-line options";
    }
    ∷ record { names = "version,v"; kind = plain; description = "Print the version" }
    ∷ []

unfoldable pub global_options : List OptionSpec
global_options =
    record {
      names = "config";
      kind = string_value false;
      description = "Config to use in JSON format";
    }
    ∷ record { names = "port"; kind = string_value true; description = "Port GRPC will listen on" }
    ∷ record { names = "addr"; kind = string_value true; description = "addr GRPC will listen on" }
    ∷ record {
      names = "log-level";
      kind = int_value true;
      description = "0:Panic 1:Fatal 2:Error 3:Warn 4:Info 5:Debug";
    }
    ∷ record { names = "pprof"; kind = plain; description = "Enable pprof" }
    ∷ record { names = "tls"; kind = plain; description = "Enable TLS" }
    ∷ record {
      names = "cert-path";
      kind = string_value true;
      description = "Necessary to provide when TLS enabled";
    }
    ∷ record {
      names = "key-path";
      kind = string_value true;
      description = "Necessary to provide when TLS enabled";
    }
    ∷ record {
      names = "root-cert-paths";
      kind = string_value true;
      description = "Necessary to provide when TLS enabled.";
    }
    ∷ record { names = "stand-alone"; kind = plain; description = "Enable stand-alone plugin" }
    ∷ record {
      names = "stand-alone-port";
      kind = int_value true;
      description = "Specify http port when stand-alone is set";
    }
    ∷ record {
      names = "max-collect-duration";
      kind = int_value true;
      description =
          "In seconds, sets the maximum duration (always greater than 0s) between collections before metrics are sent";
    }
    ∷ record {
      names = "max-metrics-buffer";
      kind = int64_value true;
      description = "Maximum number of metrics the plugin is buffering before sending metrics";
    }
    ∷ []

unfoldable pub hidden_options : List OptionSpec
hidden_options =
    record {
      names = "options-file";
      kind = string_value true;
      description = "name of file for options configuration";
    }
    ∷ []

-- The groups of a Flags object.
pub record Groups (D : Type 0) : Type 0 where
  pub command : D
  pub global : D
  pub hidden : D
  pub additional : D
  pub visible : D
  pub command_line : D
  pub config_file : D

module _ (po : ProgramOptions) where
  open po use {Desc, empty, add_option, add}

  -- Before any option is declared.
  abbrev pub new_groups : Groups Desc
  new_groups = record {
    command = empty;
    global = empty;
    hidden = empty;
    additional = empty;
    visible = empty;
    command_line = empty;
    config_file = empty;
  }

  -- `d.add_options()(…)(…)…`
  unfoldable pub add_options : List OptionSpec → Desc → Desc × Bool
  add_options [] d = (d, true)
  add_options (o ∷ os) d =
      let (d', done) = add_option o d in
      let rest = add_options os d' in if done then rest else (d', false)

  -- `d.add(g).add(h)…`
  unfoldable pub add_groups : List Desc → Desc → Desc × Bool
  add_groups [] d = (d, true)
  add_groups (g ∷ gs) d =
      let (d', done) = add g d in let rest = add_groups gs d' in if done then rest else (d', false)

  abbrev code : Bool → ℕ
  code done = if done then 0 else 1

  unfoldable pub add_default_command_flags : Groups Desc → ℕ × Groups Desc
  add_default_command_flags g =
      let (d, done) = add_options command_options g.command in (code done, record g { command = d })

  unfoldable pub add_default_global_flags : Groups Desc → ℕ × Groups Desc
  add_default_global_flags g =
      let (d, declared) = add_options global_options g.global in
      let (c, done) = add_groups (d ∷ []) g.config_file in
      if declared
      then (code done, record g { global = d; config_file = c })
      else (1, record g { global = d })

  unfoldable pub add_default_hidden_flags : Groups Desc → ℕ × Groups Desc
  add_default_hidden_flags g =
      let (d, done) = add_options hidden_options g.hidden in (code done, record g { hidden = d })

  -- `if (first != 0) return 1; …`
  infixl 5 ◌then_if_zero◌
  abbrev pub ◌then_if_zero◌ : ℕ × Groups Desc → (Groups Desc → ℕ × Groups Desc) → ℕ × Groups Desc
  (zero, g) then_if_zero f = f g
  (suc n, g) then_if_zero f = (1, g)

  unfoldable pub set_default_flags : Groups Desc → ℕ × Groups Desc
  unfolding add_default_command_flags add_default_global_flags add_default_hidden_flags
  set_default_flags g =
      add_default_command_flags g
      then_if_zero add_default_global_flags
      then_if_zero add_default_hidden_flags

  -- `addBoolFlag`, `addIntFlag` and `addStringFlag` are this at their kind of value.
  add_at_level : ValueKind → String → String → FlagLevel → Groups Desc → ℕ × Groups Desc
  add_at_level kind name description command_level g =
      let (d, done) =
        add_options (record { names = name; kind = kind; description = description } ∷ [])
          g.command in
      (code done, record g { command = d })
  add_at_level kind name description global_level g =
      let (d, done) =
        add_options (record { names = name; kind = kind; description = description } ∷ [])
          g.global in
      (code done, record g { global = d })
  add_at_level kind name description hidden_level g =
      let (d, done) =
        add_options (record { names = name; kind = kind; description = description } ∷ [])
          g.hidden in
      (code done, record g { hidden = d })
  add_at_level kind name description custom_level g =
      let (d, done) =
        add_options (record { names = name; kind = kind; description = description } ∷ [])
          g.additional in
      (code done, record g { additional = d })
  add_at_level kind name description other_level g = (1, g)

  unfoldable pub add_bool_flag : String → String → FlagLevel → Groups Desc → ℕ × Groups Desc
  unfolding add_at_level
  add_bool_flag = add_at_level plain

  unfoldable pub add_int_flag : String → String → FlagLevel → Groups Desc → ℕ × Groups Desc
  unfolding add_at_level
  add_int_flag = add_at_level (int_value false)

  unfoldable pub add_string_flag : String → String → FlagLevel → Groups Desc → ℕ × Groups Desc
  unfolding add_at_level
  add_string_flag = add_at_level (string_value false)

  unfoldable pub add_flag : String → String → FlagType → FlagLevel → Groups Desc → ℕ × Groups Desc
  unfolding add_bool_flag add_int_flag add_string_flag
  add_flag name description bool_type level g = add_bool_flag name description level g
  add_flag name description int_type level g = add_int_flag name description level g
  add_flag name description string_type level g = add_string_flag name description level g
  add_flag name description other_type level g = (1, g)

  unfoldable pub set_visible_flags : Groups Desc → ℕ × Groups Desc
  set_visible_flags g =
      let (d, done) = add_groups (g.command ∷ g.global ∷ g.additional ∷ []) g.visible in
      (code done, record g { visible = d })

  unfoldable pub set_command_line_flags : Groups Desc → ℕ × Groups Desc
  set_command_line_flags g =
      let (d, done) =
        add_groups (g.command ∷ g.global ∷ g.additional ∷ g.hidden ∷ []) g.command_line in
      (code done, record g { command_line = d })

  unfoldable pub set_config_file_flags : Groups Desc → ℕ × Groups Desc
  set_config_file_flags g =
      let (d, done) = add_groups (g.global ∷ g.additional ∷ []) g.config_file in
      (code done, record g { config_file = d })

  unfoldable pub set_combined_flags : Groups Desc → ℕ × Groups Desc
  unfolding set_visible_flags set_command_line_flags set_config_file_flags
  set_combined_flags g =
      set_visible_flags g then_if_zero set_command_line_flags then_if_zero set_config_file_flags

  unfoldable pub set_flags : Groups Desc → ℕ × Groups Desc
  unfolding set_default_flags set_combined_flags
  set_flags g = set_default_flags g then_if_zero set_combined_flags

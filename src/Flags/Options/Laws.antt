-- ===== src/Flags/Options/Laws.antt =====
-- Which options the groups hold after `SetFlags`, and when a declaration fails.
use mathlib.Core.List.{append-nil, append_assoc}
use snap_plugin_lib_cpp.Base.{◌≡◌, refl, sym, ◌∙◌, true, List, [], ◌∷◌, ◌++◌, arith}
use snap_plugin_lib_cpp.Flags.Options.{
  OptionSpec, ProgramOptions, Groups, new_groups, command_options, global_options, hidden_options,
  add_options, add_groups, set_flags, set_default_flags, set_combined_flags,
  add_default_command_flags, add_default_global_flags, add_default_hidden_flags, set_visible_flags,
  set_command_line_flags, set_config_file_flags,
}

-- What boost documents of a group that accepts every option: the options are listed in the order in
-- which they were declared, and those of an added group come after them.
pub record IsListing (po : ProgramOptions) : Type 0 where
  pub options : po.Desc → List OptionSpec
  pub options-empty : options po.empty ≡ []
  pub add_option-options :
      (o : OptionSpec) (d : po.Desc) → options (po.add_option o d).0 ≡ options d ++ (o ∷ [])
  pub add_option-done : (o : OptionSpec) (d : po.Desc) → (po.add_option o d).1 ≡ true
  pub add-options : (g d : po.Desc) → options (po.add g d).0 ≡ options d ++ options g
  pub add-done : (g d : po.Desc) → (po.add g d).1 ≡ true

module _ (po : ProgramOptions) (l : IsListing po) where
  open l use {options}

  all_options : List po.Desc → List OptionSpec
  all_options [] = []
  all_options (g ∷ gs) = options g ++ all_options gs

  add_options_lem :
      (os : List OptionSpec) (d : po.Desc)
      → (options (add_options po os d).0 ≡ options d ++ os) × ((add_options po os d).1 ≡ true)
  unfolding add_options
  add_options_lem [] d = (sym (append-nil (options d)), refl)
  add_options_lem (o ∷ os) d = ground (
    arith,
    l.add_option-done o d,
    l.add_option-options o d,
    add_options_lem os (po.add_option o d).0,
    append_assoc (options d) (o ∷ []) os,
  )

  add_groups_lem :
      (gs : List po.Desc) (d : po.Desc)
      → (options (add_groups po gs d).0 ≡ options d ++ all_options gs)
        × ((add_groups po gs d).1 ≡ true)
  unfolding add_groups all_options
  add_groups_lem [] d = (sym (append-nil (options d)), refl)
  add_groups_lem (g ∷ gs) d = ground (
    arith,
    l.add-done g d,
    l.add-options g d,
    add_groups_lem gs (po.add g d).0,
    append_assoc (options d) (options g) (all_options gs),
  )

  set_combined_flags_lem :
      (g : Groups po.Desc)
      → let (code, r) = set_combined_flags po g in
        (code ≡ 0)
        × (options r.visible
            ≡ options g.visible ++ all_options (g.command ∷ g.global ∷ g.additional ∷ []))
        × (options r.command_line
            ≡ options g.command_line
              ++ all_options (g.command ∷ g.global ∷ g.additional ∷ g.hidden ∷ []))
        × (options r.config_file
            ≡ options g.config_file ++ all_options (g.global ∷ g.additional ∷ []))
  unfolding set_combined_flags set_visible_flags set_command_line_flags set_config_file_flags
  set_combined_flags_lem g =
      let (a, b) = add_groups_lem (g.command ∷ g.global ∷ g.additional ∷ []) g.visible in
      let (c, d) =
        add_groups_lem (g.command ∷ g.global ∷ g.additional ∷ g.hidden ∷ []) g.command_line in
      let (e, f) = add_groups_lem (g.global ∷ g.additional ∷ []) g.config_file in
      rw (b, d, f) (refl, a, c, e)

  -- `SetFlags` on a new object returns 0; the help text then lists the command and the global
  -- options, the command line takes these and the hidden ones, and the group of the config file
  -- holds every global option twice.
  pub set_flags_lem :
      let (code, g) = set_flags po (new_groups po) in
      (code ≡ 0)
      × (options g.visible ≡ command_options ++ global_options)
      × (options g.command_line ≡ command_options ++ (global_options ++ hidden_options))
      × (options g.config_file ≡ global_options ++ global_options)
  unfolding set_flags set_default_flags add_default_command_flags add_default_global_flags
      add_default_hidden_flags all_options
  set_flags_lem =
      let (a₀, a) = add_options_lem command_options po.empty in
      let (b₀, b) = add_options_lem global_options po.empty in
      let (c₀, c) = add_options_lem hidden_options po.empty in
      let g = (add_options po global_options po.empty).0 in
      let (d₀, d) = add_groups_lem (g ∷ []) po.empty in
      let e = l.options-empty in
      let (code, v, cl, cf) = set_combined_flags_lem (record {
        command = (add_options po command_options po.empty).0;
        global = g;
        hidden = (add_options po hidden_options po.empty).0;
        additional = po.empty;
        visible = po.empty;
        command_line = po.empty;
        config_file = (add_groups po (g ∷ []) po.empty).0;
      }) in
      rw (a, b, d, c)
        (
          code,
          v ∙ (rw (a₀, b₀, e, append-nil global_options) refl),
          cl ∙ (rw (a₀, b₀, c₀, e, append-nil hidden_options) refl),
          cf ∙ (rw (d₀, b₀, e, append-nil global_options) refl),
        )

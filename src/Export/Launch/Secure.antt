-- ===== src/Export/Launch/Secure.antt =====
-- What the flags say of the server that runs.
use snap_plugin_lib_cpp.Base.{
  ◌≡◌, ◌⊎◌, inl, inr, refl, ◌∙◌, sym, ap, Option, some, Option-cases, String, ◌<>◌, str_eq,
  if◌then◌else◌, arith,
}
use snap_plugin_lib_cpp.Base.Int.{ℤ}
use snap_plugin_lib_cpp.Flags.{
  Flags, is_parsed_flag, get_flag_str_value, get_flag_int_value, get_flag_int64_value,
}
use snap_plugin_lib_cpp.Plugin.{Meta, use_cli_args, Start, prints_version, exports, diagnoses}
use snap_plugin_lib_cpp.Plugin.Interface.{
  PluginInterface, collector_interface, processor_interface, publisher_interface,
  stream_collector_interface, get_type, start_by_type,
}
use snap_plugin_lib_cpp.Export.Certificates.{Files}
use snap_plugin_lib_cpp.Export.Server.{
  Credentials, Exported, service_of, listening_address, do_export,
}
use snap_plugin_lib_cpp.Export.Server.Secure.{
  IsAsked, is_ssl, IsAsked-is_ssl, do_export_lem, do_export-serves,
}
use snap_plugin_lib_cpp.Export.Launch.{
  proxied, versions, shows_diagnostics, runs, start_plugin, launch,
}

-- The plugin with the limits of the flags, if it has limits.
abbrev pub with_limits : Flags → PluginInterface → PluginInterface
with_limits cli collector_interface = collector_interface
with_limits cli processor_interface = processor_interface
with_limits cli publisher_interface = publisher_interface
with_limits cli (stream_collector_interface limits) = stream_collector_interface (record {
  max_collect_duration = get_flag_int_value "max-collect-duration" cli;
  max_metrics_buffer = get_flag_int64_value "max-metrics-buffer" cli;
})

-- A start that exports the plugin does so with the meta data of the flags.
start_by_type-exports :
    (cli : Flags) (plugin plugin' : PluginInterface) (m m' : Meta)
    → start_by_type cli plugin m ≡ (exports m', plugin')
    → (m' ≡ use_cli_args cli m) × (plugin' ≡ with_limits cli plugin)
unfolding start_by_type
start_by_type-exports cli collector_interface plugin' m m' e = ground arith
start_by_type-exports cli processor_interface plugin' m m' e = ground arith
start_by_type-exports cli publisher_interface plugin' m m' e = ground arith
start_by_type-exports cli (stream_collector_interface limits) plugin' m m' e = ground arith

pub get_type-with_limits :
    (cli : Flags) (plugin : PluginInterface) → get_type (with_limits cli plugin) ≡ get_type plugin
unfolding get_type
get_type-with_limits cli collector_interface = refl
get_type-with_limits cli processor_interface = refl
get_type-with_limits cli publisher_interface = refl
get_type-with_limits cli (stream_collector_interface limits) = refl

-- The service never gets a null pointer.
proxied_lem : (plugin : PluginInterface) → proxied plugin ≡ some plugin
unfolding proxied
proxied_lem collector_interface = refl
proxied_lem processor_interface = refl
proxied_lem publisher_interface = refl
proxied_lem (stream_collector_interface limits) = refl

runs_inj : (x y : Exported) (p q : Option PluginInterface) → runs x p ≡ runs y q → (x ≡ y) × (p ≡ q)
runs_inj x y p q e = ground arith

-- The three ways to start.
Start-cases :
    (s : Start)
    → ((m : Meta) × (s ≡ exports m))
      ⊎ (((name : String) × (version : ℤ) × (s ≡ prints_version name version))
          ⊎ ((m : Meta) × (s ≡ diagnoses m)))
Start-cases (exports m) = inl (m, refl)
Start-cases (prints_version name version) = inr (inl (name, version, refl))
Start-cases (diagnoses m) = inr (inr (m, refl))

module _ (fs : Files) (bind : String → Credentials → ℤ) (to_string : ℤ → String) where
  pub start_plugin-runs :
      (plugin : PluginInterface) (m : Meta) (x : Exported) (served : Option PluginInterface)
      → start_plugin fs bind to_string plugin m ≡ runs x served
      → (do_export fs bind to_string (get_type plugin) m ≡ some x) × (served ≡ some plugin)
  unfolding start_plugin
  start_plugin-runs plugin m x served e =
      elim (Option-cases (do_export fs bind to_string (get_type plugin) m)) [
        | inl failed ↦ absurd (ground arith)
        | inr (y, exported) ↦
            let q : start_plugin fs bind to_string plugin m ≡ runs y (proxied plugin) =
              rw (exported, start_plugin) refl in
            let (same, held) = runs_inj y x (proxied plugin) served (sym q ∙ e) in
            (exported ∙ ap some same, sym held ∙ proxied_lem plugin)
      ]

  pub launch-runs :
      (cli : Flags) (plugin : PluginInterface) (m : Meta) (x : Exported)
      (served : Option PluginInterface)
      → launch fs bind to_string cli plugin m ≡ runs x served
      → start_plugin fs bind to_string (with_limits cli plugin) (use_cli_args cli m) ≡ runs x served
  unfolding launch
  launch-runs cli plugin m x served e =
      let plugin' = (start_by_type cli plugin m).1 in
      elim (Start-cases (start_by_type cli plugin m).0) [
        | inl (m', begun) ↦
            let (same, held) =
              start_by_type-exports cli plugin plugin' m m' (ap (λ s. (s, plugin')) begun) in
            let q : launch fs bind to_string cli plugin m
                ≡ start_plugin fs bind to_string plugin' m' =
              rw (begun, launch) refl in
            rw (sym same, sym held) (sym q ∙ e)
        | inr (inl (name, version, begun)) ↦
            let q : launch fs bind to_string cli plugin m ≡ versions name version =
              rw (begun, launch) refl in
            absurd (cc)
        | inr (inr (m', begun)) ↦
            let q : launch fs bind to_string cli plugin m ≡ shows_diagnostics m' =
              rw (begun, launch) refl in
            absurd (cc)
      ]

  -- A server that runs has TLS exactly if the flag `tls` was given, with the credentials that the
  -- other flags name; it listens on the address of the flags `addr` and `port`, with port 0 for an
  -- empty one; and its service is the one for the plugin's type and holds that plugin, which is no
  -- null pointer, with the limits of the flags.
  pub launch-IsAsked :
      (cli : Flags) (plugin : PluginInterface) (m : Meta) (x : Exported)
      (served : Option PluginInterface)
      → launch fs bind to_string cli plugin m ≡ runs x served
      → (is_ssl x.credentials ≡ is_parsed_flag "tls" cli)
        × IsAsked fs (use_cli_args cli m) x.credentials
        × (x.address ≡ (
            let port = get_flag_str_value "port" cli in
            get_flag_str_value "addr" cli <> (":" <> (if str_eq port "" then "0" else port))))
        × (x.service ≡ service_of (get_type plugin))
        × (served ≡ some (with_limits cli plugin))
  unfolding use_cli_args listening_address
  launch-IsAsked cli plugin m x served e =
      let (exported, held) =
        start_plugin-runs (with_limits cli plugin) (use_cli_args cli m) x served
          (launch-runs cli plugin m x served e) in
      let (asked, told, _) =
        do_export_lem fs bind to_string (get_type (with_limits cli plugin)) (use_cli_args cli m) x
          exported in
      let (address, service) =
        do_export-serves fs bind to_string (get_type (with_limits cli plugin)) (use_cli_args cli m)
          x exported in
      (
        sym (IsAsked-is_ssl x.credentials asked),
        asked,
        address,
        service ∙ ap service_of (get_type-with_limits cli plugin),
        held,
      )

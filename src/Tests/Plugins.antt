-- ===== src/Tests/Plugins.antt =====
-- The plugins of the examples, and the diagnosis of a collector, at concrete values.
use snap_plugin_lib_cpp.Base.{
  ℕ, ◌+◌, ◌≡◌, ◌≢◌, ◌⊎◌, All, refl, Bool, true, false, Option, none, some, List, [], ◌∷◌, ◌||◌,
  ◌<>◌, map, ite, str_dec, intersperse, String, if◌then◌else◌,
}
use snap_plugin_lib_cpp.Base.Int.{ℤ, pos, negsuc}
use snap_plugin_lib_cpp.Base.Dict.{Dict, lookup}
use snap_plugin_lib_cpp.Base.Sorted.{IsAscending}
use snap_plugin_lib_cpp.Rpc
use snap_plugin_lib_cpp.Rpc.{ConfigMap, empty_config}
use snap_plugin_lib_cpp.Rpc.Policy.{new_policy_reply}
use snap_plugin_lib_cpp.Metric.{Metric, wrap, copy}
use snap_plugin_lib_cpp.Metric.Clock.{timestamp}
use snap_plugin_lib_cpp.Config.{get_string}
use snap_plugin_lib_cpp.Proxy.Handlers.{
  returns, throws_plugin_exception, answers, status_ok, process,
}
use snap_plugin_lib_cpp.Proxy.Replies.{new_reply}
use snap_plugin_lib_cpp.Plugin.{new_meta, collector, grpc, use_cli_args, start_collector}
use snap_plugin_lib_cpp.Plugin.Diagnostics.Platform.{Macros, Platform}
use snap_plugin_lib_cpp.Plugin.Diagnostics.Show.{Collector}
use snap_plugin_lib_cpp.Plugin.Diagnostics.Started.{
  diagnose, summarised, expected, start_collector-diagnose,
}
use snap_plugin_lib_cpp.Flags.{Flags, is_parsed_flag, is_config_from_framework}
use snap_plugin_lib_cpp.Flags.Config.{
  JsonObjects, json_other, generate_config_map_from_command_json,
}
use snap_plugin_lib_cpp.Examples.Graffiti.Answer.{
  graffiti, tagged, tag_message, is_listed, process-graffiti,
}
use snap_plugin_lib_cpp.Examples.Log.{Format, content, publish_metrics}
use snap_plugin_lib_cpp.Examples.Log.Lines.{lines, sorted_tags, publish_metrics-lines}
use snap_plugin_lib_cpp.Examples.Types.{Conversions, metric_types, metric_types-IsTyping}
use snap_plugin_lib_cpp.Examples.Collector.{collect_metrics}
use snap_plugin_lib_cpp.Examples.Collector.Produced.{
  results, produced_all, collect_metrics-produced,
}
use snap_plugin_lib_cpp.Examples.Streamer.{Rando, new_rando, fill}
use snap_plugin_lib_cpp.Examples.Streamer.Race.{
  StreamPc, DrainPc, Threads, may_drain, bring, Run, OrderlyRun, drain_enters, drain_reads,
  drain_clears_message, drain_clears_metrics, drain_copies, drain_resets, stream_enters,
  stream_reads, stream_fills, stream_offers,
}
use snap_plugin_lib_cpp.Examples.Streamer.Race.Apart.{
  IsApart, threads, OrderlyRun-ne-dangles, threads_race,
}
use snap_plugin_lib_cpp.Examples.Streamer.Filled.{IsFilled}
use snap_plugin_lib_cpp.Examples.Streamer.Race.Offers.{OrderlyRun-IsFilled}

abbrev tags : List String
tags = "one" ∷ "two" ∷ []

abbrev config : ConfigMap
config = record empty_config { stringmap = ("tags", intersperse "," tags) ∷ ("path", "/log") ∷ [] }

abbrev metric : Rpc.Metric
metric = record Rpc.new_metric {
  namespace =
      record { value = "intel"; name = ""; description = "" }
      ∷ record { value = "cpp"; name = ""; description = "" }
      ∷ record { value = "mock"; name = ""; description = "" }
      ∷ record { value = "rando"; name = ""; description = "" }
      ∷ record { value = "int64"; name = ""; description = "" }
      ∷ [];
  tags = ("two", "old") ∷ [];
}

process-graffiti_example :
    (process graffiti (metric ∷ []) config new_reply tt ≡ (
      answers (record { metrics = map (tag_message tags) (metric ∷ []); error = "" }) status_ok,
      tt,
    ))
    × (lookup "two" (tagged tags metric.tags)
        ≡ (if is_listed "two" tags then some "present" else lookup "two" metric.tags))
unfolding get_string str_dec
process-graffiti_example =
    process-graffiti tags (metric ∷ []) config "two" metric.tags ((refl, refl), ((refl, refl), tt))
      refl

abbrev number_text : ℤ → String
number_text (pos n) = "n"
number_text (negsuc n) = "-n"

abbrev format : Format
format = record {
  format_time = λ ts. some "1970-01-01 00:00:00";
  float_text = λ v. "f";
  double_text = λ v. "d";
  int_text = number_text;
  unsigned_text = λ v. "u";
  opens = λ path. true;
}

publish_metrics-lines_example :
    (files : Dict String) × (publish_metrics format (wrap metric ∷ []) config []
      ≡ some (returns tt, files))
    × (lookup "/log" files
        ≡ ite
            (str_dec "/log" "/log")
            (some (content "/log" [] <> lines format ((pos 0, metric) ∷ [])))
            (lookup "/log" []))
    × All (λ (entry : ℤ × Rpc.Metric). IsAscending (sorted_tags entry.1)) ((pos 0, metric) ∷ [])
unfolding timestamp get_string str_dec wrap
publish_metrics-lines_example =
    publish_metrics-lines format ((pos 0, metric) ∷ []) config [] "/log" "/log" refl refl (refl, tt)

abbrev conversions : Conversions
conversions = record { to_float = λ n. n; to_double = λ n. n; to_string = λ n. "1" }

collect_metrics-produced_example :
    results conversions
      (λ n. pos n)
      7
      (collect_metrics conversions (λ n. pos n) 7 (map wrap (metric ∷ metric ∷ [])) metric_types 0)
    ≡ produced_all conversions (λ n. pos n) 7 [] (metric ∷ metric ∷ [])
collect_metrics-produced_example =
    collect_metrics-produced conversions (λ n. pos n) 7 (metric ∷ metric ∷ []) metric_types 0
      metric_types-IsTyping

-- A collector of one metric, which counts its calls and cannot collect.
abbrev counting : Collector ℕ
counting = record {
  get_config_policy = λ n. (returns new_policy_reply, n + 1);
  get_metric_types = λ c n. (returns (wrap metric ∷ []), n + 1);
  collect_metrics = λ ms n. (throws_plugin_exception "no device", n + 1);
}

abbrev macros : Macros
macros = record {
  linux = true;
  win32 = false;
  win64 = false;
  apple = false;
  mach = false;
  i386 = false;
  amd64 = true;
  ia64 = false;
}

abbrev platform : Platform
platform = record { macros = macros; gcc_version = "9.4.0" }

-- No text holds an object.
abbrev blank : JsonObjects
blank = record { Json = Bool; parse_members = λ s. none; scalar = λ j. json_other }

abbrev no_flags : Flags
no_flags = record { flags = []; framework_json_parsed = false }

start_collector-diagnose_example :
    (use_cli_args no_flags (new_meta collector "rando" (pos 1) grpc)
      ≡ use_cli_args no_flags (new_meta collector "rando" (pos 1) grpc))
    × ((is_parsed_flag "version" no_flags
          || (is_parsed_flag "stand-alone" no_flags || is_config_from_framework no_flags))
        ≡ false)
    × (summarised blank platform number_text counting (
          diagnose blank platform number_text counting no_flags
            (use_cli_args no_flags (new_meta collector "rando" (pos 1) grpc))
            0)
        ≡ expected blank platform number_text counting
            (generate_config_map_from_command_json blank no_flags)
            0)
unfolding start_collector use_cli_args is_parsed_flag is_config_from_framework new_meta
start_collector-diagnose_example =
    start_collector-diagnose blank platform number_text counting no_flags
      (new_meta collector "rando" (pos 1) grpc)
      (use_cli_args no_flags (new_meta collector "rando" (pos 1) grpc)) 0 refl

-- A metric came in, `drain_metrics` took it over, and `stream_it` filled and offered it.
abbrev arrived : Threads
arrived = bring (wrap metric ∷ []) (threads new_rando)

abbrev filled : Option (Metric × Rando)
filled =
    fill conversions (λ n. pos n) 7 0 (copy (copy (wrap metric)))
      (record arrived.rando { metrics_out = copy (copy (wrap metric)) ∷ []; get_mets = false })

abbrev number : Metric
number = elim filled [ none ↦ copy (copy (wrap metric)) | some (m, s) ↦ m ]

abbrev offered : Threads
offered = record {
  rando = record (elim filled [ none ↦ new_rando | some (m, s) ↦ s ]) {
    metrics_out = number ∷ [];
    put_mets = true;
  };
  stream_pc = StreamPc.tests;
  drain_pc = DrainPc.tests;
}

offers : OrderlyRun conversions (threads new_rando) offered
unfolding fill copy wrap metric_types str_dec
offers =
    let r₀ : OrderlyRun conversions (threads new_rando) arrived =
      OrderlyRun.come (wrap metric ∷ []) OrderlyRun.here refl in
    let r₁ = OrderlyRun.act r₀ (drain_enters refl refl refl) in
    let r₂ = OrderlyRun.act r₁ (drain_reads refl) in
    let r₃ = OrderlyRun.act r₂ (drain_reads refl) in
    let r₄ = OrderlyRun.act r₃ (drain_reads refl) in
    let r₅ = OrderlyRun.act r₄ (drain_clears_message refl refl) in
    let r₆ = OrderlyRun.act r₅ (drain_clears_metrics refl refl) in
    let r₇ = OrderlyRun.act r₆ (drain_copies refl refl) in
    let r₈ = OrderlyRun.act r₇ (drain_resets refl refl) in
    let s₁ = OrderlyRun.act r₈ (stream_enters refl refl refl) in
    let s₂ = OrderlyRun.act s₁ (stream_reads refl) in
    let s₃ = OrderlyRun.act s₂ (stream_reads refl) in
    let s₄ = OrderlyRun.act s₃ (stream_reads refl) in
    let s₅ = OrderlyRun.act s₄ (stream_reads refl) in
    let s₆ = OrderlyRun.act s₅ (stream_fills (λ n. pos n) 7 0 _ _ _ refl refl refl refl) in
    OrderlyRun.act s₆ (stream_offers 1 refl refl refl)

OrderlyRun-IsFilled_example :
    (offered.rando.put_err ≡ false)
    × ((offered.rando.put_mets ≡ false)
        ⊎ All (λ m. IsFilled conversions m.rpc) offered.rando.metrics_out)
OrderlyRun-IsFilled_example = OrderlyRun-IsFilled conversions offered offers

abbrev offering : Rando
offering = record new_rando { metrics_out = wrap metric ∷ [] }

OrderlyRun-ne-dangles_example : IsApart offered × (offered.stream_pc ≢ StreamPc.dangles)
OrderlyRun-ne-dangles_example = OrderlyRun-ne-dangles conversions new_rando offered offers

threads_race_example :
    ((t : Threads) × Run conversions (threads offering) t × (t.stream_pc ≡ StreamPc.dangles))
    × ((t : Threads) × OrderlyRun conversions (threads offering) t
        × (t.rando.metrics_out ≡ map copy (map copy (wrap metric ∷ [])))
        × (t.rando.metrics_in ≡ map copy [])
        × (may_drain t.rando ≡ false)
        × (t.drain_pc ≡ DrainPc.tests))
threads_race_example = threads_race conversions offering (wrap metric ∷ []) [] refl refl

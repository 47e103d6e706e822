-- ===== src/Proxy/Services.antt =====
-- The four services as the gRPC server calls them: the classes CollectorImpl, ProcessorImpl, PublisherImpl
-- and StreamCollectorImpl of src/snap/proxy with their unary methods, each of which keeps a PluginImpl for
-- the methods that all plugins share. The plugin and the proxy that `PluginImpl` is given are one object.
pub mod Idle
pub mod Watched
use snap_plugin_lib_cpp.Base.{ℕ, Bool, true, false, Option, none, some, List, [], ◌∷◌}
use snap_plugin_lib_cpp.Base.Int.{ℤ, pos}
use snap_plugin_lib_cpp.Rpc
use snap_plugin_lib_cpp.Rpc.{ConfigMap}
use snap_plugin_lib_cpp.Rpc.Policy.{GetConfigPolicyReply, new_policy_reply}
use snap_plugin_lib_cpp.Rpc.Stream.{MetricsReply, ErrReply}
use snap_plugin_lib_cpp.Metric.{Metric}
use snap_plugin_lib_cpp.Proxy.Handlers.{
  Outcome, Answer, collect_metrics, process, publish, get_metric_types, get_config_policy, kill,
  answers, status_ok,
}
use snap_plugin_lib_cpp.Proxy.Heartbeat.{PluginImpl, ping}

-- The methods that a plugin's author writes, over the plugin's own state.
pub record CollectorMethods (S : Type 0) : Type 0 where
  pub config_policy : S → Outcome GetConfigPolicyReply × S
  pub metric_types : ConfigMap → S → Outcome (List Metric) × S
  pub collect : List Metric → S → Outcome (List Metric) × S

-- `process_metrics` changes the vector that it is handed.
pub record ProcessorMethods (S : Type 0) : Type 0 where
  pub config_policy : S → Outcome GetConfigPolicyReply × S
  pub process_metrics : List Metric → ConfigMap → S → Outcome (List Metric) × S

pub record PublisherMethods (S : Type 0) : Type 0 where
  pub config_policy : S → Outcome GetConfigPolicyReply × S
  pub publish_metrics : List Metric → ConfigMap → S → Outcome (Unit {0}) × S

-- Those that the unary calls use.
pub record StreamCollectorMethods (S : Type 0) : Type 0 where
  pub config_policy : S → Outcome GetConfigPolicyReply × S
  pub metric_types : ConfigMap → S → Outcome (List Metric) × S

pub data Proxy (S : Type 0) : Type 0 where
  collector_impl : CollectorMethods S → Proxy S
  processor_impl : ProcessorMethods S → Proxy S
  publisher_impl : PublisherMethods S → Proxy S
  stream_collector_impl : StreamCollectorMethods S → Proxy S

-- The unary methods of the services, with what their requests hold.
pub data Request : Type 0 where
  ping_request kill_request policy_request : Request
  types_request : ConfigMap → Request
  collect_request : List Rpc.Metric → Request
  process_request publish_request : List Rpc.Metric → ConfigMap → Request

pub data Reply : Type 0 where
  err_reply : Answer ErrReply → Reply
  policy_reply : Answer GetConfigPolicyReply → Reply
  metrics_reply : Answer MetricsReply → Reply

-- The plugin, and the PluginImpl of its proxy.
pub record Served (S : Type 0) : Type 0 where
  pub plugin : S
  pub plugin_impl : PluginImpl

-- The server hands each handler a new response.
abbrev pub new_metrics_reply : MetricsReply
new_metrics_reply = record { metrics = []; error = "" }

abbrev pub new_err_reply : ErrReply
new_err_reply = record { error = "" }

module _ {S : Type 0} where
  -- The constructor of each proxy: `plugin_impl_ptr = new PluginImpl(plugin)`, whose `_lastPing` is
  -- the start of the clock.
  unfoldable pub serve : S → Served S
  serve plugin = record { plugin = plugin; plugin_impl = record { last_ping = pos 0 } }

  -- A handler that only the plugin takes part in.
  on_plugin : {A : Type 0} → (A → Reply) → (S → A × S) → Served S → Option Reply × Served S
  on_plugin as_reply handler s =
      let (answer, plugin') = handler s.plugin in
      (some (as_reply answer), record s { plugin = plugin' })

  module _ (clock : ℕ → ℤ) where
    -- The methods that each proxy hands to its PluginImpl; `none`: no method of the service.
    plugin_handle :
        (S → Outcome GetConfigPolicyReply × S) → Request → Served S → Option Reply × Served S
    unfolding on_plugin get_config_policy kill ping
    plugin_handle policy ping_request s = (
      some (err_reply (answers new_err_reply status_ok)),
      record s { plugin_impl = ping (clock 0) s.plugin_impl },
    )
    plugin_handle policy kill_request s = on_plugin err_reply (kill new_err_reply) s
    plugin_handle policy policy_request s =
        on_plugin policy_reply (get_config_policy policy new_policy_reply) s
    plugin_handle policy _ s = (none, s)

    collector_handle : CollectorMethods S → Request → Served S → Option Reply × Served S
    unfolding on_plugin plugin_handle collect_metrics get_metric_types
    collector_handle c (collect_request ms) s =
        on_plugin metrics_reply (collect_metrics c.collect ms new_metrics_reply) s
    collector_handle c (types_request config) s =
        on_plugin metrics_reply (get_metric_types clock c.metric_types config new_metrics_reply) s
    collector_handle c request s = plugin_handle c.config_policy request s

    processor_handle : ProcessorMethods S → Request → Served S → Option Reply × Served S
    unfolding on_plugin plugin_handle process
    processor_handle p (process_request ms config) s =
        on_plugin metrics_reply (process p.process_metrics ms config new_metrics_reply) s
    processor_handle p request s = plugin_handle p.config_policy request s

    publisher_handle : PublisherMethods S → Request → Served S → Option Reply × Served S
    unfolding on_plugin plugin_handle publish
    publisher_handle p (publish_request ms config) s =
        on_plugin err_reply (publish p.publish_metrics ms config new_err_reply) s
    publisher_handle p request s = plugin_handle p.config_policy request s

    stream_collector_handle :
        StreamCollectorMethods S → Request → Served S → Option Reply × Served S
    unfolding on_plugin plugin_handle get_metric_types
    stream_collector_handle c (types_request config) s =
        on_plugin metrics_reply (get_metric_types clock c.metric_types config new_metrics_reply) s
    stream_collector_handle c request s = plugin_handle c.config_policy request s

    unfoldable pub handle : Proxy S → Request → Served S → Option Reply × Served S
    unfolding collector_handle processor_handle publisher_handle stream_collector_handle
    handle (collector_impl c) request s = collector_handle c request s
    handle (processor_impl p) request s = processor_handle p request s
    handle (publisher_impl p) request s = publisher_handle p request s
    handle (stream_collector_impl c) request s = stream_collector_handle c request s

  -- Calls one after the other, each with the clock that its handler reads: their replies, and what
  -- they leave.
  unfoldable pub run :
      Proxy S → List (Request × (ℕ → ℤ)) → Served S → List (Option Reply) × Served S
  unfolding handle
  run proxy [] s = ([], s)
  run proxy ((request, clock) ∷ calls) s =
      let (reply, s') = handle clock proxy request s in
      let (replies, last) = run proxy calls s' in (reply ∷ replies, last)

-- ===== src/Proxy/Handlers.antt =====
-- CollectorImpl, ProcessorImpl, PublisherImpl and the unary calls of StreamCollectorImpl
-- (src/snap/proxy). A plugin's method returns, throws a PluginException with its message, or throws
-- something else, which no handler catches.
use snap_plugin_lib_cpp.Base.{ℕ, ◌+◌, List, [], ◌∷◌, ◌++◌, String}
use snap_plugin_lib_cpp.Base.Int.{ℤ}
use snap_plugin_lib_cpp.Rpc
use snap_plugin_lib_cpp.Rpc.{ConfigMap}
use snap_plugin_lib_cpp.Rpc.Policy.{GetConfigPolicyReply}
use snap_plugin_lib_cpp.Rpc.Stream.{MetricsReply, ErrReply}
use snap_plugin_lib_cpp.Metric.{Metric, wrap, copy}
use snap_plugin_lib_cpp.Metric.Clock.{set_timestamp, set_last_advertised_time}

pub data Outcome (A : Type 0) : Type 0 where
  returns : A → Outcome A
  throws_plugin_exception : String → Outcome A
  throws_other : Outcome A

pub data Status : Type 0 where
  status_ok : Status
  status_unknown : String → Status

-- The answer to a call: the response and the status, or an exception that leaves the handler.
pub data Answer (R : Type 0) : Type 0 where
  answers : R → Status → Answer R
  escapes : Answer R

-- `metrics.emplace_back(rpc_mets.Mutable(i))` for each message
unfoldable pub wrap_all : List Rpc.Metric → List Metric
unfolding wrap
wrap_all [] = []
wrap_all (m ∷ ms) = wrap m ∷ wrap_all ms

-- `for (Metric met : metrics) *resp->add_metrics() = *met.get_rpc_metric_ptr();`
unfoldable pub add_metrics : List Metric → MetricsReply → MetricsReply
unfolding copy
add_metrics [] resp = resp
add_metrics (met ∷ mets) resp =
    add_metrics mets (record resp { metrics = resp.metrics ++ ((copy met).rpc ∷ []) })

-- The catch clause of a handler whose response is a MetricsReply.
unfoldable pub finish :
    {A : Type 0} → Outcome A → (A → MetricsReply) → MetricsReply → Answer MetricsReply
finish (returns a) fill resp = answers (fill a) status_ok
finish (throws_plugin_exception e) fill resp =
    answers (record resp { error = e }) (status_unknown e)
finish throws_other fill resp = escapes

publish_answer : Outcome (Unit {0}) → ErrReply → Answer ErrReply
publish_answer (returns _) resp = answers resp status_ok
publish_answer (throws_plugin_exception e) resp =
    answers (record resp { error = e }) (status_unknown e)
publish_answer throws_other resp = escapes

policy_answer : Outcome GetConfigPolicyReply → GetConfigPolicyReply → Answer GetConfigPolicyReply
policy_answer (returns policy) resp = answers policy status_ok
policy_answer (throws_plugin_exception e) resp =
    answers (record resp { error = e }) (status_unknown e)
policy_answer throws_other resp = escapes

-- The loop of `GetMetricTypes`: two readings of the clock for each metric.
unfoldable pub add_stamped : (ℕ → ℤ) → ℕ → List Metric → MetricsReply → MetricsReply
unfolding copy set_timestamp set_last_advertised_time
add_stamped clock n [] resp = resp
add_stamped clock n (met ∷ mets) resp =
    let met' = set_last_advertised_time (clock (n + 1)) (set_timestamp (clock n) (copy met)) in
    add_stamped clock (n + 2) mets (record resp { metrics = resp.metrics ++ (met'.rpc ∷ []) })

module _ {S : Type 0} where
  -- `CollectorImpl::CollectMetrics`
  unfoldable pub collect_metrics :
      (List Metric → S → Outcome (List Metric) × S)
      → List Rpc.Metric
      → MetricsReply
      → S
      → Answer MetricsReply × S
  unfolding wrap_all add_metrics finish
  collect_metrics collect req resp s =
      let (result, s') = collect (wrap_all req) s in
      (finish result (λ mets. add_metrics mets resp) resp, s')

  -- `ProcessorImpl::Process`; `process_metrics` changes the vector that it is handed.
  unfoldable pub process :
      (List Metric → ConfigMap → S → Outcome (List Metric) × S)
      → List Rpc.Metric
      → ConfigMap
      → MetricsReply
      → S
      → Answer MetricsReply × S
  unfolding wrap_all add_metrics finish
  process process_metrics req config resp s =
      let (result, s') = process_metrics (wrap_all req) config s in
      (finish result (λ mets. add_metrics mets resp) resp, s')

  -- `PublisherImpl::Publish`
  unfoldable pub publish :
      (List Metric → ConfigMap → S → Outcome (Unit {0}) × S)
      → List Rpc.Metric
      → ConfigMap
      → ErrReply
      → S
      → Answer ErrReply × S
  unfolding wrap_all publish_answer
  publish publish_metrics req config resp s =
      let (result, s') = publish_metrics (wrap_all req) config s in (publish_answer result resp, s')

  -- `GetConfigPolicy` of the four proxies and of PluginImpl
  unfoldable pub get_config_policy :
      (S → Outcome GetConfigPolicyReply × S)
      → GetConfigPolicyReply
      → S
      → Answer GetConfigPolicyReply × S
  unfolding policy_answer
  get_config_policy policy resp s = let (result, s') = policy s in (policy_answer result resp, s')

  -- `Kill` of the four proxies and of PluginImpl
  unfoldable pub kill : ErrReply → S → Answer ErrReply × S
  kill resp s = (answers resp status_ok, s)

  module _ (clock : ℕ → ℤ) where
    -- `GetMetricTypes` of CollectorImpl and of StreamCollectorImpl
    unfoldable pub get_metric_types :
        (ConfigMap → S → Outcome (List Metric) × S)
        → ConfigMap
        → MetricsReply
        → S
        → Answer MetricsReply × S
    unfolding add_stamped finish
    get_metric_types types config resp s =
        let (result, s') = types config s in
        (finish result (λ mets. add_stamped clock 0 mets resp) resp, s')

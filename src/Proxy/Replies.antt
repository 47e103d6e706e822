-- ===== src/Proxy/Replies.antt =====
-- What the handlers answer: the metrics of the plugin, the time stamps, and the errors.
use snap_plugin_lib_cpp.Base.{
  ℕ, zero, suc, ◌+◌, ◌*◌, ◌^◌, ◌<◌, ◌≡◌, refl, sym, ap, ◌∙◌, some, List, [], ◌∷◌, ◌++◌, append-nil,
  append_assoc, map, get_elem?, length, arith,
}
use snap_plugin_lib_cpp.Base.Int.{ℤ, pos}
use snap_plugin_lib_cpp.Rpc
use snap_plugin_lib_cpp.Rpc.{ConfigMap}
use snap_plugin_lib_cpp.Rpc.Stream.{MetricsReply}
use snap_plugin_lib_cpp.Metric.{Metric, wrap, copy}
use snap_plugin_lib_cpp.Metric.Clock.{
  set_timestamp, set_last_advertised_time, timestamp, timestamp-set_timestamp,
}
use snap_plugin_lib_cpp.Proxy.Handlers.{
  Outcome, returns, throws_plugin_exception, throws_other, status_ok, status_unknown, Answer,
  answers, escapes, wrap_all, add_metrics, finish, collect_metrics, process, get_metric_types,
  add_stamped,
}

abbrev pub new_reply : MetricsReply
new_reply = record { metrics = []; error = "" }

add_metrics-map :
    (mets : List Metric) (resp : MetricsReply)
    → add_metrics mets resp ≡ record resp { metrics = resp.metrics ++ map (λ m. m.rpc) mets }
unfolding add_metrics
add_metrics-map [] resp = ap (λ ms. record resp { metrics = ms }) (sym (append-nil resp.metrics))
add_metrics-map (met ∷ mets) resp =
    add_metrics-map mets (record resp { metrics = resp.metrics ++ (met.rpc ∷ []) })
    ∙ ap (λ ms. record resp { metrics = ms })
        (append_assoc resp.metrics (met.rpc ∷ []) (map (λ m. m.rpc) mets))

wrap_all-map : (ms : List Rpc.Metric) → wrap_all ms ≡ map wrap ms
unfolding wrap_all
wrap_all-map [] = refl
wrap_all-map (m ∷ ms) = ap (λ ws. wrap m ∷ ws) (wrap_all-map ms)

-- The answer that a caller may expect: the plugin's metrics, all and in order, with status OK; or no
-- metric and the exception's message, in the response and in the status. Other exceptions escape.
abbrev pub expected : Outcome (List Metric) → Answer MetricsReply
expected (returns mets) = answers (record { metrics = map (λ m. m.rpc) mets; error = "" }) status_ok
expected (throws_plugin_exception e) =
    answers (record { metrics = []; error = e }) (status_unknown e)
expected throws_other = escapes

finish-expected :
    (o : Outcome (List Metric))
    → finish o (λ mets. add_metrics mets new_reply) new_reply ≡ expected o
unfolding finish
finish-expected (returns mets) = ap (λ r. answers r status_ok) (add_metrics-map mets new_reply)
finish-expected (throws_plugin_exception e) = refl
finish-expected throws_other = refl

-- `CollectMetrics` and `Process` hand the plugin the messages of the request, each wrapped, in their
-- order, and answer as expected from what it returned or threw.
pub collect_metrics-process :
    {S : Type 0} (collect : List Metric → S → Outcome (List Metric) × S)
    (process_metrics : List Metric → ConfigMap → S → Outcome (List Metric) × S)
    (req : List Rpc.Metric) (config : ConfigMap) (s : S)
    → (collect_metrics collect req new_reply s
        ≡ (expected (collect (map wrap req) s).0, (collect (map wrap req) s).1))
      × (process process_metrics req config new_reply s ≡ (
        expected (process_metrics (map wrap req) config s).0,
        (process_metrics (map wrap req) config s).1,
      ))
unfolding collect_metrics process
collect_metrics-process collect process_metrics req config s = rw (wrap_all-map req) (
  ap (λ a. (a, (collect (map wrap req) s).1)) (finish-expected (collect (map wrap req) s).0),
  ap (λ a. (a, (process_metrics (map wrap req) config s).1))
      (finish-expected (process_metrics (map wrap req) config s).0),
)

module _ (clock : ℕ → ℤ) where
  stamp : ℕ → Metric → Rpc.Metric
  unfolding copy set_timestamp set_last_advertised_time
  stamp n met = (set_last_advertised_time (clock (n + 1)) (set_timestamp (clock n) (copy met))).rpc

  stamps : ℕ → List Metric → List Rpc.Metric
  stamps n [] = []
  stamps n (met ∷ mets) = stamp n met ∷ stamps (n + 2) mets

  add_stamped-stamps :
      (n : ℕ) (mets : List Metric) (resp : MetricsReply)
      → add_stamped clock n mets resp ≡ record resp { metrics = resp.metrics ++ stamps n mets }
  unfolding add_stamped stamps stamp
  add_stamped-stamps n [] resp =
      ap (λ ms. record resp { metrics = ms }) (sym (append-nil resp.metrics))
  add_stamped-stamps n (met ∷ mets) resp =
      add_stamped-stamps (n + 2) mets (record resp { metrics = resp.metrics ++ (stamp n met ∷ []) })
      ∙ ap (λ ms. record resp { metrics = ms })
          (append_assoc resp.metrics (stamp n met ∷ []) (stamps (n + 2) mets))

  length-stamps : (n : ℕ) (mets : List Metric) → length (stamps n mets) ≡ length mets
  unfolding stamps
  length-stamps n [] = refl
  length-stamps n (met ∷ mets) = ap suc (length-stamps (n + 2) mets)

  start : (n : ℕ) → n ≡ n + 2 * 0
  start n = omega arith

  shift : (n i : ℕ) → n + 2 + 2 * i ≡ n + 2 * suc i
  shift n i = omega arith

  get_elem?-stamps :
      (n i : ℕ) (mets : List Metric) (met : Metric)
      → get_elem? mets i ≡ some met
      → get_elem? (stamps n mets) i ≡ some (stamp (n + 2 * i) met)
  unfolding stamps
  get_elem?-stamps n i [] met e = cc
  get_elem?-stamps n zero (x ∷ mets) met e = ground (arith, ap (λ k. some (stamp k met)) (start n))
  get_elem?-stamps n (suc i) (x ∷ mets) met e =
      get_elem?-stamps (n + 2) i mets met e ∙ ap (λ k. some (stamp k met)) (shift n i)

-- A message with the two time stamps of another one.
abbrev pub restamped : Rpc.Metric → Rpc.Metric → Rpc.Metric
restamped m r = record m { timestamp = r.timestamp; last_advertised_time = r.last_advertised_time }

stamp_lem :
    (c : ℕ → ℕ) (k : ℕ) (met : Metric)
    → c k < 2 ^ 63
    → (timestamp (wrap (stamp (λ n. pos (c n)) k met)) ≡ some (pos (c k)))
      × (stamp (λ n. pos (c n)) k met ≡ restamped met.rpc (stamp (λ n. pos (c n)) k met))
unfolding stamp timestamp set_timestamp set_last_advertised_time wrap
stamp_lem c k met h =
    (timestamp-set_timestamp (pos (c k)) met (h, omega arith) ∙ ground arith, refl)

from_zero : (i : ℕ) → 0 + 2 * i ≡ 2 * i
from_zero i = omega arith

-- `GetMetricTypes` answers without an error and with the plugin's metrics in their order, as many as
-- there are: the i-th is in every field the plugin's i-th but for its two time stamps, and its time
-- stamp reads back as the clock's reading 2i, if the clock is at 1970 or later.
pub get_metric_types_lem :
    {S : Type 0} (types : ConfigMap → S → Outcome (List Metric) × S) (config : ConfigMap) (s : S)
    (c : ℕ → ℕ) (mets : List Metric) (met : Metric) (i : ℕ)
    → ((n : ℕ) → c n < 2 ^ 63)
    → (types config s).0 ≡ returns mets
    → get_elem? mets i ≡ some met
    → (resp : MetricsReply) × (r : Rpc.Metric) × (get_metric_types
          (λ n. pos (c n))
          types
          config
          new_reply
          s
        ≡ (answers resp status_ok, (types config s).1))
      × (resp.error ≡ "")
      × (length resp.metrics ≡ length mets)
      × (get_elem? resp.metrics i ≡ some r)
      × (timestamp (wrap r) ≡ some (pos (c (2 * i))))
      × (r ≡ restamped met.rpc r)
unfolding get_metric_types
get_metric_types_lem types config s c mets met i fits e at =
    let (read_back, others) = stamp_lem c (2 * i) met (fits (2 * i)) in
    (
      record { metrics = stamps clock 0 mets; error = "" },
      stamp clock (2 * i) met,
      rw (e, finish)
          (ap (λ r. (answers r status_ok, (types config s).1))
            (add_stamped-stamps clock 0 mets new_reply)),
      refl,
      length-stamps clock 0 mets,
      get_elem?-stamps clock 0 i mets met at ∙ ap (λ k. some (stamp clock k met)) (from_zero i),
      read_back,
      others,
    )
  where
    clock : ℕ → ℤ
    clock n = pos (c n)

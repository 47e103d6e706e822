-- ===== src/Tests/Streaming.antt =====
-- The bodies of the stream's threads and the proxies at concrete values.
use snap_plugin_lib_cpp.Base.{
  ℕ, suc, ◌*◌, ◌≡◌, refl, true, false, Option, none, some, List, [], ◌∷◌, ◌++◌, map, get_elem?,
  length, arith,
}
use snap_plugin_lib_cpp.Base.Int.{ℤ, pos}
use snap_plugin_lib_cpp.Rpc
use snap_plugin_lib_cpp.Rpc.{ConfigMap, empty_config}
use snap_plugin_lib_cpp.Rpc.Stream.{MetricsReply, CollectArg}
use snap_plugin_lib_cpp.Namespace.{empty}
use snap_plugin_lib_cpp.Metric.{Metric, wrap}
use snap_plugin_lib_cpp.Metric.Clock.{timestamp}
use snap_plugin_lib_cpp.Stream.Channel.{
  open_channel, puts, gets, closes, Trace, IsFaithful, calls, calls-IsFaithful,
}
use snap_plugin_lib_cpp.Stream.Send.{Sender, buffer, set_buffer, metric_send, error_send_body}
use snap_plugin_lib_cpp.Stream.Send.Flow.{flow, sent, taken, metric_send-flow}
use snap_plugin_lib_cpp.Stream.Send.Errors.{HasError, Adds, error_send_lem}
use snap_plugin_lib_cpp.Stream.Send.Shared.{
  Shared, waiting as waits_in, with_metrics, with_error, Acts, adds, IsCovered, Acts-IsCovered,
  reply_race,
}
use snap_plugin_lib_cpp.Stream.Receive.{Plugin, Exchange, put_send_mets_and_err_msg}
use snap_plugin_lib_cpp.Stream.Receive.Laws.{deliver, put_send_mets_and_err_msg-IsReader}
use snap_plugin_lib_cpp.Proxy.Handlers.{
  Outcome, returns, throws_plugin_exception, answers, status_ok, collect_metrics, process,
  get_metric_types,
}
use snap_plugin_lib_cpp.Proxy.Replies.{
  new_reply, expected, restamped, collect_metrics-process, get_metric_types_lem,
}

abbrev metric : Metric
metric = record { rpc = Rpc.new_metric; memo_ns = empty; memo_tags = []; type = some 0 }

abbrev waiting : Rpc.Metric
waiting = record Rpc.new_metric { unit = "w" }

-- One metric waits, and two are a packet; the clock shows one second more at each reading.
abbrev sender : Sender
sender = record {
  collect_reply = record {
    metrics_reply = record { metrics = waiting ∷ []; error = "" };
    error = record { error = "" };
  };
  max_metrics_buffer = pos 2;
  max_collect_duration = pos 5;
  writes = [];
  start = pos 0;
  readings = 0;
}

abbrev clock : ℕ → ℤ
clock n = pos (n * 1_000_000_000)

abbrev rounds : List (Option (List Metric))
rounds = some (metric ∷ metric ∷ []) ∷ none ∷ some (metric ∷ []) ∷ []

abbrev trace : Trace ℕ
trace = record { channel = open_channel; accepted = []; delivered = [] }

calls-IsFaithful_example : IsFaithful (
    calls
      (puts (1 ∷ 2 ∷ []) ∷ puts (3 ∷ []) ∷ gets true ∷ closes ∷ gets false ∷ puts (4 ∷ []) ∷ [])
      trace)
calls-IsFaithful_example =
    calls-IsFaithful
      (puts (1 ∷ 2 ∷ []) ∷ puts (3 ∷ []) ∷ gets true ∷ closes ∷ gets false ∷ puts (4 ∷ []) ∷ [])
      trace refl

metric_send-flow_example : flow (metric_send clock rounds sender) ≡ flow sender ++ taken rounds
metric_send-flow_example = metric_send-flow clock rounds sender

abbrev eager : Sender
eager = set_buffer [] (record sender { max_metrics_buffer = pos 0 })

error_send_lem_example :
    let t = error_send_body "lost" sender in
    (t.writes ≡ t.collect_reply ∷ [])
    × (t.collect_reply.metrics_reply ≡ sender.collect_reply.metrics_reply)
    × HasError "lost" t.collect_reply
    × (g : Adds "lost" t.writes
        (metric_send clock rounds t).writes
        (metric_send clock rounds t).collect_reply)
    × (sent g.added ++ buffer (metric_send clock rounds t) ≡ buffer sender ++ taken rounds)
error_send_lem_example = error_send_lem clock "lost" rounds sender

abbrev lower : CollectArg
lower = record { metrics_arg = none; max_collect_duration = pos 0; max_metrics_buffer = pos 1 }

-- A plugin that keeps what it was handed last.
abbrev reader : Plugin (List Metric)
reader = record {
  put_mets = λ s. false;
  put_metrics_out = λ s. ([], s);
  set_put_mets = λ b s. s;
  put_err = λ s. false;
  put_err_msg = λ s. ("", s);
  set_put_err = λ b s. s;
  get_metrics_in = λ v s. (v, v);
  set_context_cancelled = λ b s. s;
}

abbrev exchange : Exchange (List Metric)
exchange = record {
  state = [];
  send_chan = open_channel;
  err_chan = open_channel;
  recv_chan = record { queue = (metric ∷ []) ∷ (metric ∷ metric ∷ []) ∷ []; closed = false };
  recv_mets = [];
}

put_send_mets_and_err_msg-IsReader_example :
    (y : Exchange (List Metric)) × (put_send_mets_and_err_msg reader 2 exchange ≡ some y)
    × (y.state
        ≡ reader.set_context_cancelled true
            (deliver reader [] ((metric ∷ []) ∷ (metric ∷ metric ∷ []) ∷ []) []))
put_send_mets_and_err_msg-IsReader_example =
    put_send_mets_and_err_msg-IsReader reader ((metric ∷ []) ∷ (metric ∷ metric ∷ []) ∷ []) exchange
      (record { no_mets = λ s. refl; no_err = λ s. refl; keeps = λ v s. refl }) refl

abbrev twice : List Metric → ℕ → Outcome (List Metric) × ℕ
twice mets s = (returns (mets ++ mets), suc s)

abbrev refuses : List Metric → ConfigMap → ℕ → Outcome (List Metric) × ℕ
refuses mets config s = (throws_plugin_exception "no", s)

collect_metrics-process_example :
    (collect_metrics twice (waiting ∷ []) new_reply 0
      ≡ (expected (twice (map wrap (waiting ∷ [])) 0).0, 1))
    × (process refuses (waiting ∷ []) empty_config new_reply 0
        ≡ (expected (refuses (map wrap (waiting ∷ [])) empty_config 0).0, 0))
collect_metrics-process_example =
    collect_metrics-process twice refuses (waiting ∷ []) empty_config 0

abbrev catalog : ConfigMap → ℕ → Outcome (List Metric) × ℕ
catalog config s = (returns (metric ∷ metric ∷ []), s)

get_metric_types_lem_example :
    (resp : MetricsReply) × (r : Rpc.Metric) × (get_metric_types
        (λ n. pos 86_400)
        catalog
        empty_config
        new_reply
        0
      ≡ (answers resp status_ok, 0))
    × (resp.error ≡ "")
    × (length resp.metrics ≡ 2)
    × (get_elem? resp.metrics 1 ≡ some r)
    × (timestamp (wrap r) ≡ some (pos 86_400))
    × (r ≡ restamped Rpc.new_metric r)
get_metric_types_lem_example =
    get_metric_types_lem catalog empty_config 0 (λ n. 86_400) (metric ∷ metric ∷ []) metric 1
      (λ n. omega arith) refl refl

-- One metric waits, and both threads are between their calls.
abbrev shared : Shared
shared = record {
  collect_reply = sender.collect_reply;
  writes = [];
  sent_reply = false;
  set_error = false;
  added = [];
}

abbrev added : Shared
added = record shared {
  collect_reply = with_metrics (waiting ∷ waiting ∷ []) shared.collect_reply;
  added = waiting ∷ [];
}

Acts-IsCovered_example : IsCovered added
Acts-IsCovered_example =
    Acts-IsCovered shared added refl refl (Acts.next Acts.here (adds waiting refl refl))

reply_race_example :
    ((t : Shared) × Acts shared t
      × (t.added ≡ shared.added)
      × (waits_in t ≡ [])
      × (sent t.writes ≡ sent shared.writes ++ (waits_in shared ++ waits_in shared)))
    × ((t : Shared) × Acts shared t
        × (t.writes
            ≡ shared.writes
              ++ (with_error "e" shared.collect_reply
                  ∷ with_metrics [] (with_error "e" shared.collect_reply)
                  ∷ [])))
reply_race_example = reply_race shared "e" refl refl (λ e. cc)

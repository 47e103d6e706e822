-- ===== src/Tests/Threads.antt =====
-- The threads of the stream at a concrete plugin, that of the example.
use snap_plugin_lib_cpp.Base.{
  ◌≡◌, Bool, List, map, refl, false, true, [], ◌∷◌, arith, str_dec, none, some, if◌then◌else◌,
}
use snap_plugin_lib_cpp.Base.Int.{ℤ, pos}
use snap_plugin_lib_cpp.Base.{ℕ}
use snap_plugin_lib_cpp.Rpc
use snap_plugin_lib_cpp.Rpc.Stream.{CollectReply}
use snap_plugin_lib_cpp.Metric.{wrap, copy}
use snap_plugin_lib_cpp.Flags.{Flags, of_int64, get_flag_int64_value, is_parsed_flag}
use snap_plugin_lib_cpp.Plugin.{
  StreamLimits, Meta, new_meta, stream_collector, grpc_stream, start_stream_collector,
}
use snap_plugin_lib_cpp.Stream.Channel.{put, close, open_channel}
use snap_plugin_lib_cpp.Stream.Send.Flow
use snap_plugin_lib_cpp.Stream.Receive.{Exchange, send_part}
use snap_plugin_lib_cpp.Stream.Threads.{
  Channels, System, new_channels, start, stream_collector_impl, PutterPc, ReceiverPc, rpcs, Reach,
  here, next, putter_enters, putter_sends, receiver_enters,
}
use snap_plugin_lib_cpp.Stream.Threads.Closing.{IsSettled, Reach-IsSettled}
use snap_plugin_lib_cpp.Stream.Threads.Blocked.{IsBlocked, shutdown_blocks}
use snap_plugin_lib_cpp.Stream.Threads.Later.{Reach-shut}
use snap_plugin_lib_cpp.Stream.Threads.Replies.{IsDelivered, marked, unmarked, error_text}
use snap_plugin_lib_cpp.Stream.Threads.Delivery.{Reach-IsDelivered}
use snap_plugin_lib_cpp.Stream.Threads.Caught.{Reach-catches_up}
use snap_plugin_lib_cpp.Stream.Threads.Capped.{Steady, IsCapped, start_stream_collector-IsCapped}
use snap_plugin_lib_cpp.Examples.Streamer.{Rando, new_rando, rando_plugin}

abbrev limits : StreamLimits
limits = record { max_collect_duration = pos 10; max_metrics_buffer = pos 0 }

abbrev meta : Meta
meta = new_meta stream_collector "rando" (pos 1) grpc_stream

abbrev clock : ℕ → ℤ
clock n = pos n

-- The plugin offers one metric.
abbrev offering : Rando
offering = record new_rando { metrics_out = wrap Rpc.new_metric ∷ []; put_mets = true }

abbrev begun : System Rando
begun = start (stream_collector_impl limits) new_channels offering

abbrev entered : System Rando
entered = record begun { putter_pc = PutterPc.sends; receiver_pc = ReceiverPc.reads }

abbrev sent : Exchange Rando
sent = record begun.exchange {
  state = record offering { put_mets = false };
  send_chan = record { queue = (copy (wrap Rpc.new_metric) ∷ []) ∷ []; closed = false };
}

abbrev handed : System Rando
handed = record entered {
  exchange = sent;
  putter_pc = PutterPc.errs;
  handed = rpcs (copy (wrap Rpc.new_metric) ∷ []);
}

reaches : Reach rando_plugin clock begun handed
unfolding send_part put
reaches =
    next (next (next here (putter_enters refl refl refl)) (receiver_enters refl refl refl))
      (putter_sends sent refl refl refl)

Reach-IsDelivered_example : IsDelivered handed
Reach-IsDelivered_example = Reach-IsDelivered rando_plugin clock refl refl refl reaches

Reach-IsSettled_example : IsSettled new_channels handed
Reach-IsSettled_example = Reach-IsSettled rando_plugin clock new_channels reaches

shutdown_blocks_example :
    (t : System Rando) × Reach rando_plugin clock begun t
    × ((u : System Rando) → Reach rando_plugin clock t u → IsBlocked u)
shutdown_blocks_example =
    shutdown_blocks rando_plugin clock (stream_collector_impl limits) new_channels offering refl

-- The channel of metrics as `metricSend` of an earlier stream left it.
abbrev left : Channels
left = record new_channels { send_chan = close open_channel }

abbrev later : System Rando
later = record (start (stream_collector_impl limits) left offering) { putter_pc = PutterPc.sends }

Reach-shut_example :
    (later.handed ≡ [])
    × (send_part rando_plugin later.exchange
        ≡ (if rando_plugin.put_mets later.exchange.state then none else some later.exchange))
unfolding close
Reach-shut_example =
    Reach-shut rando_plugin clock (stream_collector_impl limits) left offering later refl
      (next here (putter_enters refl refl refl))

abbrev flags : Flags
flags = record {
  flags = ("max-metrics-buffer", of_int64 (pos 2)) ∷ [];
  framework_json_parsed = false;
}

abbrev opened : System Rando
opened =
    start (stream_collector_impl (start_stream_collector flags limits meta).1) new_channels offering

start_stream_collector-IsCapped_example :
    IsCapped 2 (record opened { putter_pc = PutterPc.sends }).sender
unfolding start_stream_collector get_flag_int64_value is_parsed_flag str_dec
start_stream_collector-IsCapped_example =
    start_stream_collector-IsCapped rando_plugin clock 2 flags limits meta new_channels offering
      (record opened { putter_pc = PutterPc.sends }) (omega arith) refl refl
      (Steady.next Steady.here (putter_enters refl refl refl) refl)

Reach-catches_up_example :
    (t : System Rando) × (replies : List (Bool × CollectReply)) × Reach rando_plugin clock handed t
    × (t.exchange.state ≡ handed.exchange.state)
    × (t.handed ≡ handed.handed)
    × (unmarked replies ≡ t.sender.writes)
    × (Flow.sent (marked true replies) ≡ handed.handed)
    × (map error_text (marked false replies) ≡ handed.errors)
Reach-catches_up_example =
    Reach-catches_up rando_plugin clock limits offering handed refl refl reaches

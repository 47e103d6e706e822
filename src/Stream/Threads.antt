-- ===== src/Stream/Threads.antt =====
-- The four threads that `StreamMetrics` starts, as one system that takes their steps in any order.
-- A step is a call on a channel, the adding of one metric to the reply, one of the tests of a loop
-- or what follows it; a `get` that has to wait is no step. What two threads do to the shared reply
-- between each other's statements, which nothing in the source prevents, is in Stream/Send/Shared.
pub mod Closing
pub mod Blocked
pub mod Replies
pub mod Kept
pub mod Effects
pub mod Delivery
pub mod Capped
pub mod Tidy
pub mod Caught
pub mod Later
use snap_plugin_lib_cpp.Base.{
  ℕ, ◌+◌, ◌≡◌, ◌≢◌, Bool, true, false, not, ◌&&◌, ◌||◌, Option, none, some, List, [], ◌∷◌, ◌++◌,
  map, is_empty, String, if◌then◌else◌,
}
use snap_plugin_lib_cpp.Base.Int.{ℤ, pos, eqb_ℤ}
use snap_plugin_lib_cpp.Rpc
use snap_plugin_lib_cpp.Rpc.Stream.{CollectArg, CollectReply}
use snap_plugin_lib_cpp.Metric.{Metric}
use snap_plugin_lib_cpp.Plugin.{StreamLimits}
use snap_plugin_lib_cpp.Stream.Channel
use snap_plugin_lib_cpp.Stream.Channel.{Channel, open_channel}
use snap_plugin_lib_cpp.Stream.Send.{Sender, flush, send_metric, send_due, error_send_body}
use snap_plugin_lib_cpp.Stream.Receive.{
  Plugin, Exchange, send_part, err_part, recv_part, set_limits, stream_recv_body,
}

-- Where `metricSend` stands: before its first reading of the clock, before the test of the loop, in
-- `get`, in the loop over a batch with the metrics that are left (the flag: the batch had any),
-- before the test of the time, or after it returned.
pub data SenderPc : Type 0 where
  begins tests waits : SenderPc
  adds : Bool → List Rpc.Metric → SenderPc
  times : SenderPc
  returned : SenderPc

pub data ErrorPc : Type 0 where
  tests waits returned : ErrorPc

-- `failed`: ended by the exception of a closed channel, which nothing in the thread catches.
pub data ReceiverPc : Type 0 where
  tests reads returned failed : ReceiverPc

-- `PutSendMetsAndErrMsg`: before the test, before each of the three parts, or after it returned or
-- ended by the exception of a closed channel.
pub data PutterPc : Type 0 where
  tests sends errs receives returned failed : PutterPc

pub record System (S : Type 0) : Type 0 where
  pub cancelled : Bool
  pub sender : Sender
  -- the plugin, the three channels and the local `recv_mets`
  pub exchange : Exchange S
  pub sender_pc : SenderPc
  pub error_pc : ErrorPc
  pub receiver_pc : ReceiverPc
  pub putter_pc : PutterPc
  -- history: the metrics that `_sendChan` accepted, and the messages that `errorSend` took
  pub handed : List Rpc.Metric
  pub errors : List String

-- `StreamCollectorImpl(plugin)`: empty replies, and the limits of the plugin. The local `start` of
-- `metricSend` has no value yet.
abbrev pub stream_collector_impl : StreamLimits → Sender
stream_collector_impl limits = record {
  collect_reply = record {
    metrics_reply = record { metrics = []; error = "" };
    error = record { error = "" };
  };
  max_metrics_buffer = limits.max_metrics_buffer;
  max_collect_duration = limits.max_collect_duration;
  writes = [];
  start = pos 0;
  readings = 0;
}

abbrev pub rpcs : List Metric → List Rpc.Metric
rpcs = map (λ m. m.rpc)

-- `get` on the channel of messages, into an empty text.
pub get_text : Channel String → Option (String × Channel String)
get_text c = elim c.queue [
  | [] ↦ none
  | message ∷ queue ↦ some (message, record c { queue = queue })
]

-- Behind the loop over a batch.
pub end_batch : (ℕ → ℤ) → Bool → Sender → Sender
end_batch clock had s =
    let sent = flush clock s in if had && eqb_ℤ s.max_metrics_buffer (pos 0) then sent else s

-- The channels are members of the service: a stream finds them as the streams before it left them.
pub record Channels : Type 0 where
  pub send_chan : Channel (List Metric)
  pub err_chan : Channel String
  pub recv_chan : Channel (List Metric)

-- Those of a new service.
abbrev pub new_channels : Channels
new_channels = record {
  send_chan = open_channel;
  err_chan = open_channel;
  recv_chan = open_channel;
}

module _ {S : Type 0} where
  -- `StreamMetrics` begins, on a new stream.
  abbrev pub start : Sender → Channels → S → System S
  start sender channels state = record {
    cancelled = false;
    sender = sender;
    exchange = record {
      state = state;
      send_chan = channels.send_chan;
      err_chan = channels.err_chan;
      recv_chan = channels.recv_chan;
      recv_mets = [];
    };
    sender_pc = SenderPc.begins;
    error_pc = ErrorPc.tests;
    receiver_pc = ReceiverPc.tests;
    putter_pc = PutterPc.tests;
    handed = [];
    errors = [];
  }

  -- The plugin is told of the cancellation.
  abbrev pub tell : Plugin S → Exchange S → Exchange S
  tell plugin x = record x { state = plugin.set_context_cancelled true x.state }

  -- What the plugin hands over in the first part of the loop of `PutSendMetsAndErrMsg`.
  abbrev pub handing : Plugin S → Exchange S → List Rpc.Metric
  handing plugin x =
      let out = rpcs (plugin.put_metrics_out x.state).0 in
      if plugin.put_mets x.state then out else []

pub data Step {S : Type 0} (plugin : Plugin S) (clock : ℕ → ℤ) (s t : System S) : Type 0 where
  cancel : t ≡ record s { cancelled = true } → Step plugin clock s t
  -- The plugin's own threads change its state in any way.
  plugin_acts :
      (state : S)
      → t ≡ record s { exchange = record s.exchange { state = state } }
      → Step plugin clock s t
  sender_begins :
      s.sender_pc ≡ SenderPc.begins
      → t ≡ record s {
        sender = record s.sender {
          start = clock s.sender.readings;
          readings = s.sender.readings + 1;
        };
        sender_pc = SenderPc.tests;
      }
      → Step plugin clock s t
  sender_enters :
      s.sender_pc ≡ SenderPc.tests
      → s.cancelled ≡ false
      → t ≡ record s { sender_pc = SenderPc.waits }
      → Step plugin clock s t
  sender_gets :
      (got : Bool) (mets : List Metric) (c : Channel (List Metric))
      → s.sender_pc ≡ SenderPc.waits
      → Channel.get [] true s.exchange.send_chan ≡ some (got, mets, c)
      → t ≡ record s {
        exchange = record s.exchange { send_chan = c };
        sender_pc = if got then SenderPc.adds (not (is_empty mets)) (rpcs mets) else SenderPc.times;
      }
      → Step plugin clock s t
  sender_adds :
      (had : Bool) (m : Rpc.Metric) (ms : List Rpc.Metric)
      → s.sender_pc ≡ SenderPc.adds had (m ∷ ms)
      → t ≡ record s { sender = send_metric clock m s.sender; sender_pc = SenderPc.adds had ms }
      → Step plugin clock s t
  sender_ends_batch :
      (had : Bool)
      → s.sender_pc ≡ SenderPc.adds had []
      → t ≡ record s { sender = end_batch clock had s.sender; sender_pc = SenderPc.times }
      → Step plugin clock s t
  sender_times :
      s.sender_pc ≡ SenderPc.times
      → t ≡ record s { sender = send_due clock s.sender; sender_pc = SenderPc.tests }
      → Step plugin clock s t
  sender_closes :
      s.sender_pc ≡ SenderPc.tests
      → s.cancelled ≡ true
      → t ≡ record s {
        exchange =
            tell plugin (record s.exchange { send_chan = Channel.close s.exchange.send_chan });
        sender_pc = SenderPc.returned;
      }
      → Step plugin clock s t
  error_enters :
      s.error_pc ≡ ErrorPc.tests
      → s.cancelled ≡ false
      → t ≡ record s { error_pc = ErrorPc.waits }
      → Step plugin clock s t
  error_writes :
      (message : String) (c : Channel String)
      → s.error_pc ≡ ErrorPc.waits
      → get_text s.exchange.err_chan ≡ some (message, c)
      → t ≡ record s {
        sender = error_send_body message s.sender;
        exchange = record s.exchange { err_chan = c };
        error_pc = ErrorPc.tests;
        errors = s.errors ++ (message ∷ []);
      }
      → Step plugin clock s t
  error_misses :
      s.error_pc ≡ ErrorPc.waits
      → get_text s.exchange.err_chan ≡ none
      → s.exchange.err_chan.closed ≡ true
      → t ≡ record s { error_pc = ErrorPc.tests }
      → Step plugin clock s t
  error_closes :
      s.error_pc ≡ ErrorPc.tests
      → s.cancelled ≡ true
      → t ≡ record s {
        exchange = tell plugin (record s.exchange { err_chan = Channel.close s.exchange.err_chan });
        error_pc = ErrorPc.returned;
      }
      → Step plugin clock s t
  receiver_enters :
      s.receiver_pc ≡ ReceiverPc.tests
      → s.cancelled ≡ false
      → t ≡ record s { receiver_pc = ReceiverPc.reads }
      → Step plugin clock s t
  receiver_reads :
      (arg : CollectArg) (sender : Sender) (c : Channel (List Metric))
      → s.receiver_pc ≡ ReceiverPc.reads
      → stream_recv_body arg (s.sender, s.exchange.recv_chan) ≡ some (sender, c)
      → t ≡ record s {
        sender = sender;
        exchange = record s.exchange { recv_chan = c };
        receiver_pc = ReceiverPc.tests;
      }
      → Step plugin clock s t
  -- The limits are set before the exception.
  receiver_fails :
      (arg : CollectArg)
      → s.receiver_pc ≡ ReceiverPc.reads
      → stream_recv_body arg (s.sender, s.exchange.recv_chan) ≡ none
      → t ≡ record s { sender = set_limits arg s.sender; receiver_pc = ReceiverPc.failed }
      → Step plugin clock s t
  receiver_closes :
      s.receiver_pc ≡ ReceiverPc.tests
      → s.cancelled ≡ true
      → t ≡ record s {
        exchange =
            tell plugin (record s.exchange { recv_chan = Channel.close s.exchange.recv_chan });
        receiver_pc = ReceiverPc.returned;
      }
      → Step plugin clock s t
  putter_enters :
      s.putter_pc ≡ PutterPc.tests
      → s.cancelled ≡ false
      → t ≡ record s { putter_pc = PutterPc.sends }
      → Step plugin clock s t
  putter_sends :
      (x : Exchange S)
      → s.putter_pc ≡ PutterPc.sends
      → send_part plugin s.exchange ≡ some x
      → t ≡ record s {
        exchange = x;
        putter_pc = PutterPc.errs;
        handed = s.handed ++ handing plugin s.exchange;
      }
      → Step plugin clock s t
  putter_errs :
      (x : Exchange S)
      → s.putter_pc ≡ PutterPc.errs
      → err_part plugin s.exchange ≡ some x
      → t ≡ record s { exchange = x; putter_pc = PutterPc.receives }
      → Step plugin clock s t
  putter_receives :
      (x : Exchange S)
      → s.putter_pc ≡ PutterPc.receives
      → recv_part plugin s.exchange ≡ some x
      → t ≡ record s { exchange = x; putter_pc = PutterPc.tests }
      → Step plugin clock s t
  -- The exception of a closed channel ends the thread.
  putter_fails_sending :
      s.putter_pc ≡ PutterPc.sends
      → send_part plugin s.exchange ≡ none
      → t ≡ record s { putter_pc = PutterPc.failed }
      → Step plugin clock s t
  putter_fails_reporting :
      s.putter_pc ≡ PutterPc.errs
      → err_part plugin s.exchange ≡ none
      → t ≡ record s { putter_pc = PutterPc.failed }
      → Step plugin clock s t
  putter_leaves :
      s.putter_pc ≡ PutterPc.tests
      → s.cancelled ≡ true
      → t ≡ record s { exchange = tell plugin s.exchange; putter_pc = PutterPc.returned }
      → Step plugin clock s t

pub data Reach {S : Type 0} (plugin : Plugin S) (clock : ℕ → ℤ) (s : System S)
    : System S → Type 0 where
  here : Reach plugin clock s s
  next : {t u : System S} → Reach plugin clock s t → Step plugin clock t u → Reach plugin clock s u

-- ===== src/Stream/Receive.antt =====
-- `streamRecv` and `PutSendMetsAndErrMsg`: what comes in on the stream, and the exchange with the
-- plugin.
pub mod Laws
use snap_plugin_lib_cpp.Base.{
  ◌≡◌, refl, Bool, true, false, Option, none, some, List, [], ◌∷◌, ◌++◌, map, String, if◌then◌else◌,
  ℕ, zero, suc,
}
use snap_plugin_lib_cpp.Base.Int.{ℤ, pos, ltb_ℤ}
use snap_plugin_lib_cpp.Rpc
use snap_plugin_lib_cpp.Rpc.Stream.{CollectArg}
use snap_plugin_lib_cpp.Metric.{Metric, wrap, copy}
use snap_plugin_lib_cpp.Stream.Channel
use snap_plugin_lib_cpp.Stream.Channel.{Channel}
use snap_plugin_lib_cpp.Stream.Send.{Sender}

-- The limits that a message sets: a value above 0 replaces the member. (Where it is not, the member
-- is written into the message, which nothing reads afterwards.)
unfoldable pub set_limits : CollectArg → Sender → Sender
set_limits arg s = record s {
  max_collect_duration =
      if ltb_ℤ (pos 0) arg.max_collect_duration
      then arg.max_collect_duration
      else s.max_collect_duration;
  max_metrics_buffer =
      if ltb_ℤ (pos 0) arg.max_metrics_buffer then arg.max_metrics_buffer else s.max_metrics_buffer;
}

-- The metrics that wrap the messages of the argument, as the channel's copy of the vector holds them.
received : CollectArg → Option (List Metric)
received arg = elim arg.metrics_arg [ none ↦ none | some ms ↦ some (map (λ m. copy (wrap m)) ms) ]

-- One round of `streamRecv`; `none`: the exception of a closed channel.
unfoldable pub stream_recv_body :
    CollectArg → Sender × Channel (List Metric) → Option (Sender × Channel (List Metric))
unfolding set_limits received Channel.put
stream_recv_body arg (s, recv_chan) = elim (received arg) [
  | none ↦ some (set_limits arg s, recv_chan)
  | some mets ↦ elim (Channel.put mets recv_chan) [
    | none ↦ none
    | some c ↦ some (set_limits arg s, c)
  ]
]

-- What the plugin implements of StreamCollectorInterface, over its own state. `get_metrics_in` is
-- handed the vector by reference and may change it.
pub record Plugin (S : Type 0) : Type 0 where
  pub put_mets : S → Bool
  pub put_metrics_out : S → List Metric × S
  pub set_put_mets : Bool → S → S
  pub put_err : S → Bool
  pub put_err_msg : S → String × S
  pub set_put_err : Bool → S → S
  pub get_metrics_in : List Metric → S → List Metric × S
  pub set_context_cancelled : Bool → S → S

-- The thread of `PutSendMetsAndErrMsg`: the plugin's state, the channels and the local `recv_mets`,
-- which is declared before the loop.
pub record Exchange (S : Type 0) : Type 0 where
  pub state : S
  pub send_chan : Channel (List Metric)
  pub err_chan : Channel String
  pub recv_chan : Channel (List Metric)
  pub recv_mets : List Metric

module _ {S : Type 0} (plugin : Plugin S) where
  -- The three parts of the loop's body; `none`: the exception of a closed channel.
  unfoldable pub send_part : Exchange S → Option (Exchange S)
  unfolding Channel.put
  send_part x =
      let (mets, s) = plugin.put_metrics_out x.state in
      let sent : Option (Exchange S) = elim (Channel.put mets x.send_chan) [
        | none ↦ none
        | some c ↦ some (record x { state = plugin.set_put_mets false s; send_chan = c })
      ] in
      if plugin.put_mets x.state then sent else some x

  unfoldable pub err_part : Exchange S → Option (Exchange S)
  unfolding Channel.put
  err_part x =
      let (message, s) = plugin.put_err_msg x.state in
      let sent : Option (Exchange S) = elim (Channel.put message x.err_chan) [
        | none ↦ none
        | some c ↦ some (record x { state = plugin.set_put_err false s; err_chan = c })
      ] in
      if plugin.put_err x.state then sent else some x

  unfoldable pub recv_part : Exchange S → Option (Exchange S)
  unfolding Channel.get
  recv_part x = elim (Channel.get x.recv_mets false x.recv_chan) [
    | none ↦ none
    | some (got, mets, c) ↦
        let (left, s) = plugin.get_metrics_in mets x.state in
        if got
        then some (record x { state = s; recv_chan = c; recv_mets = left })
        else some (record x { recv_chan = c; recv_mets = mets })
  ]

  unfoldable pub exchange_body : Exchange S → Option (Exchange S)
  unfolding send_part err_part recv_part
  exchange_body x = elim (send_part x) [
    | none ↦ none
    | some y ↦ elim (err_part y) [ none ↦ none | some z ↦ recv_part z ]
  ]

  -- That many rounds of the loop before `IsCancelled()` is seen.
  exchange_loop : ℕ → Exchange S → Option (Exchange S)
  unfolding exchange_body
  exchange_loop zero x = some x
  exchange_loop (suc n) x = elim (exchange_body x) [ none ↦ none | some y ↦ exchange_loop n y ]

  unfoldable pub put_send_mets_and_err_msg : ℕ → Exchange S → Option (Exchange S)
  unfolding exchange_loop
  put_send_mets_and_err_msg n x = elim (exchange_loop n x) [
    | none ↦ none
    | some y ↦ some (record y { state = plugin.set_context_cancelled true y.state })
  ]

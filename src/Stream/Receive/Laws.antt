-- ===== src/Stream/Receive/Laws.antt =====
-- The limits that a message sets, and what the plugin is handed.
use snap_plugin_lib_cpp.Base.{
  ◌≡◌, refl, ap, true, false, none, some, List, [], ◌∷◌, ◌++◌, map, length, arith, if◌then◌else◌,
}
use snap_plugin_lib_cpp.Rpc
use snap_plugin_lib_cpp.Rpc.Stream.{CollectArg}
use snap_plugin_lib_cpp.Metric.{Metric, wrap, copy}
use snap_plugin_lib_cpp.Stream.Channel.{Channel}
use snap_plugin_lib_cpp.Stream.Send.{Sender}
use snap_plugin_lib_cpp.Stream.Receive.{
  set_limits, stream_recv_body, Plugin, Exchange, exchange_body, exchange_loop,
  put_send_mets_and_err_msg,
}

-- The metrics of a message reach the channel in one container, in their order, while the limits
-- are set; if the channel is closed the thread fails.
pub stream_recv_body_lem :
    (arg : CollectArg) (s : Sender) (c : Channel (List Metric)) (ms : List Rpc.Metric)
    → arg.metrics_arg ≡ some ms
    → stream_recv_body arg (s, c) ≡ (
        if c.closed
        then none
        else some
            (set_limits arg s, record c { queue = c.queue ++ (map (λ m. copy (wrap m)) ms ∷ []) }))
unfolding stream_recv_body
stream_recv_body_lem arg s c ms e = ground arith

module _ {S : Type 0} (plugin : Plugin S) where
  -- The plugin is handed, for each container, all that was received up to it.
  abbrev pub deliver : List Metric → List (List Metric) → S → S
  deliver seen [] s = s
  deliver seen (front ∷ queue) s =
      deliver (seen ++ front) queue (plugin.get_metrics_in (seen ++ front) s).1

  -- A plugin that puts nothing and does not change the vector that it is handed.
  pub record IsReader : Type 0 where
    pub no_mets : (s : S) → plugin.put_mets s ≡ false
    pub no_err : (s : S) → plugin.put_err s ≡ false
    pub keeps : (v : List Metric) (s : S) → (plugin.get_metrics_in v s).0 ≡ v

  exchange_body-IsReader :
      (x : Exchange S) (front : List Metric) (queue : List (List Metric))
      → IsReader
      → x.recv_chan.queue ≡ front ∷ queue
      → exchange_body plugin x
        ≡ some (record x {
          state = (plugin.get_metrics_in (x.recv_mets ++ front) x.state).1;
          recv_chan = record x.recv_chan { queue = queue };
          recv_mets = x.recv_mets ++ front;
        })
  unfolding exchange_body
  exchange_body-IsReader x front queue r e =
      ground (arith, r.no_mets x.state, r.no_err x.state, r.keeps (x.recv_mets ++ front) x.state)

  exchange_loop-IsReader :
      (queue : List (List Metric)) (x : Exchange S)
      → IsReader
      → x.recv_chan.queue ≡ queue
      → (y : Exchange S) × (exchange_loop plugin (length queue) x ≡ some y)
        × (y.state ≡ deliver x.recv_mets queue x.state)
  unfolding exchange_loop
  exchange_loop-IsReader [] x r e = (x, refl, refl)
  exchange_loop-IsReader (front ∷ queue) x r e =
      let next : Exchange S = record x {
        state = (plugin.get_metrics_in (x.recv_mets ++ front) x.state).1;
        recv_chan = record x.recv_chan { queue = queue };
        recv_mets = x.recv_mets ++ front;
      } in
      let (y, ran, state) = exchange_loop-IsReader queue next r refl in
      (y, rw (exchange_body-IsReader x front queue r e, exchange_loop) ran, state)

  -- The vector that collects the metrics is never cleared: a plugin that only reads is handed, at
  -- each container, everything received since the thread began and not just what is new. The loop
  -- ends without an exception, and the plugin is then told of the cancellation.
  pub put_send_mets_and_err_msg-IsReader :
      (queue : List (List Metric)) (x : Exchange S)
      → IsReader
      → x.recv_chan.queue ≡ queue
      → (y : Exchange S) × (put_send_mets_and_err_msg plugin (length queue) x ≡ some y)
        × (y.state ≡ plugin.set_context_cancelled true (deliver x.recv_mets queue x.state))
  unfolding put_send_mets_and_err_msg
  put_send_mets_and_err_msg-IsReader queue x r e =
      let (y, ran, state) = exchange_loop-IsReader queue x r e in
      (
        record y { state = plugin.set_context_cancelled true y.state },
        rw (ran, put_send_mets_and_err_msg),
        ap (plugin.set_context_cancelled true) state,
      )

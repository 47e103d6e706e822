-- ===== src/Stream/Send.antt =====
-- The thread that sends metrics, `metricSend`, with `sendReply`, and what `errorSend` writes. The
-- two replies `_metrics_reply` and `_err_reply` are parts of the one message `_collect_reply`.
-- `clock` is `system_clock::now()`, the n-th reading of the thread being `clock n`.
pub mod Flow
pub mod Limits
pub mod Stall
pub mod Errors
pub mod Shared
use snap_plugin_lib_cpp.Base.{
  ℕ, suc, ◌+◌, ◌*◌, ◌≤◌, ◌<◌, ◌≡◌, ◌≢◌, refl, ap, sym, ◌∙◌, Bool, true, false, not, ◌&&◌, Option,
  none, some, List, [], ◌∷◌, ◌++◌, map, append-nil, append_assoc, length, is_empty, concat, String,
  Bool-cases, ltb, leb, ◌==◌, arith, if◌then◌else◌,
}
use snap_plugin_lib_cpp.Base.Int.{ℤ, pos, negsuc, pos_part, neg_part, scale, ◌-ℤ◌, leb_ℤ, eqb_ℤ}
use snap_plugin_lib_cpp.Rpc
use snap_plugin_lib_cpp.Rpc.Stream.{MetricsReply, ErrReply, CollectReply}
use snap_plugin_lib_cpp.Metric.{Metric}

-- The members that the threads share, what the stream was given to write, and the local `start`.
pub record Sender : Type 0 where
  pub collect_reply : CollectReply
  pub max_metrics_buffer : ℤ
  -- in seconds
  pub max_collect_duration : ℤ
  pub writes : List CollectReply
  pub start : ℤ
  pub readings : ℕ

-- The metrics that wait in `_metrics_reply`.
abbrev pub buffer : Sender → List Rpc.Metric
buffer s = s.collect_reply.metrics_reply.metrics

abbrev pub set_buffer : List Rpc.Metric → Sender → Sender
set_buffer ms s = record s {
  collect_reply = record s.collect_reply {
    metrics_reply = record s.collect_reply.metrics_reply { metrics = ms };
  };
}

-- `stream->Write(_collect_reply)`
pub write : Sender → Sender
write s = record s { writes = s.writes ++ (s.collect_reply ∷ []) }

unfoldable pub send_reply : Sender → Sender
unfolding write
send_reply s = if length (buffer s) == 0 then s else write s

module _ (clock : ℕ → ℤ) where
  -- `sendReply(taskID, stream); _metrics_reply->clear_metrics(); start = now();`
  pub flush : Sender → Sender
  unfolding send_reply
  flush s =
      let s' = set_buffer [] (send_reply s) in
      record s' { start = clock s'.readings; readings = s'.readings + 1 }

  -- The body of the loop over the metrics of a batch.
  unfoldable pub send_metric : Rpc.Metric → Sender → Sender
  send_metric m s =
      let s' = set_buffer (buffer s ++ (m ∷ [])) s in
      if eqb_ℤ (pos (length (buffer s'))) s'.max_metrics_buffer then flush s' else s'

  pub send_metrics_loop : List Rpc.Metric → Sender → Sender
  send_metrics_loop [] s = s
  send_metrics_loop (m ∷ ms) s = send_metrics_loop ms (send_metric m s)

  pub send_batch : List Rpc.Metric → Sender → Sender
  send_batch ms s =
      let s' = send_metrics_loop ms s in
      if is_empty ms then s else if eqb_ℤ s'.max_metrics_buffer (pos 0) then flush s' else s'

  -- `(now() - start) >= _max_collect_duration`, of nanoseconds and seconds
  unfoldable pub send_due : Sender → Sender
  send_due s =
      let due = leb_ℤ (scale 1_000_000_000 s.max_collect_duration) (clock s.readings -ℤ s.start) in
      let s' = record s { readings = s.readings + 1 } in if due then flush s' else s'

  -- One round of `metricSend`, from what `_sendChan.get` returned: a batch, or `false`.
  unfoldable pub metric_send_body : Option (List Metric) → Sender → Sender
  metric_send_body none s = send_due s
  metric_send_body (some batch) s = send_due (send_batch (map (λ m. m.rpc) batch) s)

  unfoldable pub metric_send : List (Option (List Metric)) → Sender → Sender
  unfolding metric_send_body
  metric_send [] s = s
  metric_send (got ∷ gots) s = metric_send gots (metric_send_body got s)

-- One round of `errorSend`, from the message that `_errChan.get` returned.
unfoldable pub error_send_body : String → Sender → Sender
unfolding write
error_send_body err s =
    write (record s { collect_reply = record s.collect_reply { error = record { error = err } } })

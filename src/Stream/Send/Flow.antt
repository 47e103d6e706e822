-- ===== src/Stream/Send/Flow.antt =====
-- What `metricSend` writes, against what it was given.
use snap_plugin_lib_cpp.Base.{
  ℕ, ◌+◌, ◌≡◌, ◌<◌, ◌⊎◌, refl, ap, sym, inl, inr, ◌∙◌, Option, none, some, List, [], ◌∷◌, ◌++◌, map,
  append-nil, append_assoc, length, arith,
}
use snap_plugin_lib_cpp.Base.Int.{ℤ}
use snap_plugin_lib_cpp.Rpc
use snap_plugin_lib_cpp.Rpc.Stream.{CollectReply}
use snap_plugin_lib_cpp.Metric.{Metric}
use snap_plugin_lib_cpp.Stream.Send.{
  Sender, buffer, set_buffer, flush, send_metric, send_metrics_loop, send_batch, send_due,
  metric_send,
}

-- All the metrics that were written, in their order.
abbrev pub sent : List CollectReply → List Rpc.Metric
sent [] = []
sent (r ∷ rs) = r.metrics_reply.metrics ++ sent rs

-- What was written, and then what waits.
abbrev pub flow : Sender → List Rpc.Metric
flow s = sent s.writes ++ buffer s

-- The metrics of the batches, in their order.
abbrev pub taken : List (Option (List Metric)) → List Rpc.Metric
taken [] = []
taken (none ∷ gots) = taken gots
taken (some batch ∷ gots) = map (λ m. m.rpc) batch ++ taken gots

sent-append :
    (rs : List CollectReply) (r : CollectReply)
    → sent (rs ++ (r ∷ [])) ≡ sent rs ++ r.metrics_reply.metrics
sent-append [] r = append-nil r.metrics_reply.metrics
sent-append (x ∷ rs) r =
    ap (λ ms. x.metrics_reply.metrics ++ ms) (sent-append rs r)
    ∙ sym (append_assoc x.metrics_reply.metrics (sent rs) r.metrics_reply.metrics)

module _ (clock : ℕ → ℤ) where
  -- `flush` writes the reply with the waiting metrics, unless none wait, and leaves none.
  pub flush_cases :
      (s : Sender) (ms : List Rpc.Metric)
      → buffer s ≡ ms
      → ((ms ≡ []) × ((flush clock s).writes ≡ s.writes))
        ⊎ ((0 < length ms) × ((flush clock s).writes ≡ s.writes ++ (s.collect_reply ∷ [])))
  unfolding flush
  flush_cases s [] e = inl (refl, ground arith)
  flush_cases s (m ∷ ms) e = inr (ground arith, ground arith)

  pub flush_lem :
      (s : Sender)
      → (buffer (flush clock s) ≡ [])
        × ((flush clock s).max_metrics_buffer ≡ s.max_metrics_buffer)
        × ((flush clock s).collect_reply.error ≡ s.collect_reply.error)
  unfolding flush
  flush_lem s = ground arith

  pub flush-flow : (s : Sender) → flow (flush clock s) ≡ flow s
  flush-flow s = elim (flush_cases s (buffer s) refl) [
    | inl (blank, same) ↦ ground (arith, flush_lem s, ap sent same)
    | inr (_, out) ↦ ground (
      arith,
      flush_lem s,
      ap sent out,
      sent-append s.writes s.collect_reply,
      append-nil (sent (flush clock s).writes),
    )
  ]

  pub send_metric-flow :
      (m : Rpc.Metric) (s : Sender) → flow (send_metric clock m s) ≡ flow s ++ (m ∷ [])
  unfolding send_metric
  send_metric-flow m s = ground (
    arith,
    flush-flow (set_buffer (buffer s ++ (m ∷ [])) s),
    append_assoc (sent s.writes) (buffer s) (m ∷ []),
  )

  send_metrics_loop-flow :
      (ms : List Rpc.Metric) (s : Sender) → flow (send_metrics_loop clock ms s) ≡ flow s ++ ms
  unfolding send_metrics_loop
  send_metrics_loop-flow [] s = sym (append-nil (flow s))
  send_metrics_loop-flow (m ∷ ms) s =
      send_metrics_loop-flow ms (send_metric clock m s)
      ∙ ap (λ xs. xs ++ ms) (send_metric-flow m s)
      ∙ append_assoc (flow s) (m ∷ []) ms

  send_batch-flow :
      (ms : List Rpc.Metric) (s : Sender) → flow (send_batch clock ms s) ≡ flow s ++ ms
  unfolding send_batch
  send_batch-flow [] s = sym (append-nil (flow s))
  send_batch-flow (m ∷ ms) s =
      ground
        (arith, flush-flow (send_metrics_loop clock (m ∷ ms) s), send_metrics_loop-flow (m ∷ ms) s)

  pub send_due-flow : (s : Sender) → flow (send_due clock s) ≡ flow s
  unfolding send_due
  send_due-flow s = ground (arith, flush-flow (record s { readings = s.readings + 1 }))

  -- Over any rounds of `metricSend`, for any limits and times: what was written and then what waits
  -- is what there was before, and then the metrics of the batches, in their order.
  pub metric_send-flow :
      (gots : List (Option (List Metric))) (s : Sender)
      → flow (metric_send clock gots s) ≡ flow s ++ taken gots
  unfolding metric_send
  metric_send-flow [] s = sym (append-nil (flow s))
  metric_send-flow (none ∷ gots) s =
      metric_send-flow gots (send_due clock s) ∙ ap (λ ms. ms ++ taken gots) (send_due-flow s)
  metric_send-flow (some batch ∷ gots) s =
      metric_send-flow gots (send_due clock (send_batch clock rpcs s))
      ∙ ap (λ ms. ms ++ taken gots)
          (send_due-flow (send_batch clock rpcs s) ∙ send_batch-flow rpcs s)
      ∙ append_assoc (flow s) rpcs (taken gots)
    where
      rpcs : List Rpc.Metric
      rpcs = map (λ m. m.rpc) batch

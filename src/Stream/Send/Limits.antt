-- ===== src/Stream/Send/Limits.antt =====
-- How the limit on the buffer governs what `metricSend` writes, and what `errorSend` adds to it.
use snap_plugin_lib_cpp.Base.{
  ℕ, ◌+◌, ◌≤◌, ◌<◌, ◌≡◌, refl, inl, inr, ◌∙◌, Option, none, some, List, [], ◌∷◌, ◌++◌, map, length,
  length-append, All, All-append, if_split, arith,
}
use snap_plugin_lib_cpp.Base.Int.{ℤ, pos, scale, ◌-ℤ◌, leb_ℤ, eqb_ℤ}
use snap_plugin_lib_cpp.Rpc
use snap_plugin_lib_cpp.Rpc.Stream.{CollectReply}
use snap_plugin_lib_cpp.Metric.{Metric}
use snap_plugin_lib_cpp.Stream.Send.{
  Sender, buffer, set_buffer, flush, send_metric, send_metrics_loop, send_batch, send_due,
  metric_send,
}
use snap_plugin_lib_cpp.Stream.Send.Flow.{flush_cases, flush_lem}

-- A reply that is neither empty nor above the limit.
abbrev pub IsPacket : ℕ → CollectReply → Type 0
IsPacket k r = (0 < length r.metrics_reply.metrics) × (length r.metrics_reply.metrics ≤ k)

-- Under the limit `k`, the buffer has room and each reply is a packet.
pub record IsBounded (k : ℕ) (s : Sender) : Type 0 where
  pub limit : s.max_metrics_buffer ≡ pos k
  pub room : length (buffer s) < k
  pub packets : All (IsPacket k) s.writes

module _ (clock : ℕ → ℤ) (k : ℕ) where
  flush-IsBounded :
      (s : Sender)
      → 0 < k
      → s.max_metrics_buffer ≡ pos k
      → length (buffer s) ≤ k
      → All (IsPacket k) s.writes
      → IsBounded k (flush clock s)
  flush-IsBounded s positive limit fits packets = record {
    limit = (flush_lem clock s).1 ∙ limit;
    room = ground (arith, flush_lem clock s);
    packets = elim (flush_cases clock s (buffer s) refl) [
      | inl (_, same) ↦ rw same packets
      | inr (some_wait, out) ↦
          rw out (
            All-append (IsPacket k) s.writes (s.collect_reply ∷ []) packets ((some_wait, fits), tt))
    ];
  }

  send_metric-IsBounded :
      (m : Rpc.Metric) (s : Sender) → IsBounded k s → IsBounded k (send_metric clock m s)
  unfolding send_metric
  send_metric-IsBounded m s b =
      if_split (IsBounded k) (eqb_ℤ (pos (length (buffer s'))) s'.max_metrics_buffer)
        (λ full. flush-IsBounded s' (omega (arith, b.room)) b.limit fits b.packets)
        (λ more. record {
          limit = b.limit;
          room = ground (arith, grown, b.limit, b.room);
          packets = b.packets;
        })
    where
      s' : Sender
      s' = set_buffer (buffer s ++ (m ∷ [])) s

      grown : length (buffer s ++ (m ∷ [])) ≡ length (buffer s) + 1
      grown = length-append (buffer s) (m ∷ [])

      fits : length (buffer s ++ (m ∷ [])) ≤ k
      fits = omega (arith, grown, b.room)

  send_metrics_loop-IsBounded :
      (ms : List Rpc.Metric) (s : Sender)
      → IsBounded k s
      → IsBounded k (send_metrics_loop clock ms s)
  unfolding send_metrics_loop
  send_metrics_loop-IsBounded [] s b = b
  send_metrics_loop-IsBounded (m ∷ ms) s b =
      send_metrics_loop-IsBounded ms (send_metric clock m s) (send_metric-IsBounded m s b)

  send_batch-IsBounded :
      (ms : List Rpc.Metric) (s : Sender)
      → 0 < k
      → IsBounded k s
      → IsBounded k (send_batch clock ms s)
  unfolding send_batch
  send_batch-IsBounded [] s p b = b
  send_batch-IsBounded (m ∷ ms) s p b =
      if_split (IsBounded k) (eqb_ℤ (send_metrics_loop clock (m ∷ ms) s).max_metrics_buffer (pos 0))
        (λ zero_. again-flushed) (λ more. again)
    where
      again : IsBounded k (send_metrics_loop clock (m ∷ ms) s)
      again = send_metrics_loop-IsBounded (m ∷ ms) s b

      again-flushed : IsBounded k (flush clock (send_metrics_loop clock (m ∷ ms) s))
      again-flushed = flush-IsBounded _ p again.limit (omega (arith, again.room)) again.packets

  send_due-IsBounded : (s : Sender) → 0 < k → IsBounded k s → IsBounded k (send_due clock s)
  unfolding send_due
  send_due-IsBounded s p b =
      if_split (IsBounded k)
        (leb_ℤ (scale 1_000_000_000 s.max_collect_duration) (clock s.readings -ℤ s.start))
        (λ due. flush-IsBounded _ p b.limit (omega (arith, b.room)) b.packets)
        (λ early. record { limit = b.limit; room = b.room; packets = b.packets })

  -- While the limit is a positive number that stays, every reply that the rounds of `metricSend`
  -- write holds at least one metric and at most that many, and fewer than that many wait between
  -- the rounds.
  metric_send-IsBounded :
      (gots : List (Option (List Metric))) (s : Sender)
      → 0 < k
      → IsBounded k s
      → IsBounded k (metric_send clock gots s)
  unfolding metric_send
  metric_send-IsBounded [] s p b = b
  metric_send-IsBounded (none ∷ gots) s p b =
      metric_send-IsBounded gots (send_due clock s) p (send_due-IsBounded s p b)
  metric_send-IsBounded (some batch ∷ gots) s p b =
      metric_send-IsBounded gots _ p
        (send_due-IsBounded _ p (send_batch-IsBounded (map (λ m. m.rpc) batch) s p b))

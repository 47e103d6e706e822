-- ===== src/Stream/Send/Stall.antt =====
-- Two extremes of the limit: 0, and a limit below what is waiting already.
use snap_plugin_lib_cpp.Base.{
  ℕ, ◌≤◌, ◌<◌, ◌≡◌, refl, ap, sym, ◌∙◌, ◌+◌, false, Option, none, some, map, List, [], ◌∷◌, ◌++◌,
  append-nil, append_assoc, length, length-append, arith,
}
use snap_plugin_lib_cpp.Base.Int.{ℤ, pos, scale, ◌-ℤ◌, leb_ℤ}
use snap_plugin_lib_cpp.Rpc
use snap_plugin_lib_cpp.Metric.{Metric}
use snap_plugin_lib_cpp.Stream.Send.{
  Sender, buffer, set_buffer, send_metric, send_metrics_loop, send_batch, send_due, metric_send,
}
use snap_plugin_lib_cpp.Stream.Send.Flow.{flush_cases, flush_lem, taken}

module _ (clock : ℕ → ℤ) where
  send_metric-stalled :
      (m : Rpc.Metric) (s : Sender) (k : ℕ)
      → s.max_metrics_buffer ≡ pos k
      → k ≤ length (buffer s)
      → send_metric clock m s ≡ set_buffer (buffer s ++ (m ∷ [])) s
  unfolding send_metric
  send_metric-stalled m s k e h = ground (arith, length-append (buffer s) (m ∷ []))

  -- Once as many wait as the limit says, or the limit is 0, the loop only adds to the buffer.
  send_metrics_loop-stalled :
      (ms : List Rpc.Metric) (s : Sender) (k : ℕ)
      → s.max_metrics_buffer ≡ pos k
      → k ≤ length (buffer s)
      → send_metrics_loop clock ms s ≡ set_buffer (buffer s ++ ms) s
  unfolding send_metrics_loop
  send_metrics_loop-stalled [] s k e h = ap (λ b. set_buffer b s) (sym (append-nil (buffer s)))
  send_metrics_loop-stalled (m ∷ ms) s k e h =
      ap (send_metrics_loop clock ms) (send_metric-stalled m s k e h)
      ∙ send_metrics_loop-stalled ms (set_buffer (buffer s ++ (m ∷ [])) s) k e
          (omega (arith, length-append (buffer s) (m ∷ [])))
      ∙ ap (λ b. set_buffer b s) (append_assoc (buffer s) (m ∷ []) ms)

  -- Where the limit is 0 and nothing waits, a batch that is not empty goes out at once and whole, in
  -- one reply, and nothing waits afterwards.
  send_batch-immediate :
      (m : Rpc.Metric) (ms : List Rpc.Metric) (s : Sender)
      → s.max_metrics_buffer ≡ pos 0
      → buffer s ≡ []
      → ((send_batch clock (m ∷ ms) s).writes
          ≡ s.writes ++ ((set_buffer (m ∷ ms) s).collect_reply ∷ []))
        × (buffer (send_batch clock (m ∷ ms) s) ≡ [])
  unfolding send_batch
  send_batch-immediate m ms s e b = rw held (
      ground (
        arith,
        e,
        flush_cases clock (set_buffer (m ∷ ms) s) (m ∷ ms) refl,
        flush_lem clock (set_buffer (m ∷ ms) s),
      ))
    where
      held : send_metrics_loop clock (m ∷ ms) s ≡ set_buffer (m ∷ ms) s
      held =
          send_metrics_loop-stalled (m ∷ ms) s 0 e (omega arith)
          ∙ ap (λ xs. set_buffer (xs ++ m ∷ ms) s) b

  -- Where at least as many metrics wait as a positive limit says (so after a message that lowers
  -- the limit) the size of the buffer never causes a write again: a batch of any length is only
  -- added to what waits.
  pub send_batch-stalled :
      (ms : List Rpc.Metric) (s : Sender) (k : ℕ)
      → s.max_metrics_buffer ≡ pos k
      → 0 < k
      → k ≤ length (buffer s)
      → send_batch clock ms s ≡ set_buffer (buffer s ++ ms) s
  unfolding send_batch
  send_batch-stalled [] s k e p h = ap (λ b. set_buffer b s) (sym (append-nil (buffer s)))
  send_batch-stalled (m ∷ ms) s k e p h =
      rw (send_metrics_loop-stalled (m ∷ ms) s k e h) (ground (arith, e))

  send_due-early :
      (s : Sender)
      → leb_ℤ (scale 1_000_000_000 s.max_collect_duration) (clock s.readings -ℤ s.start) ≡ false
      → send_due clock s ≡ record s { readings = s.readings + 1 }
  unfolding send_due
  send_due-early s early = rw (early, send_due) refl

  -- At none of the next readings of the clock the time is up.
  abbrev pub IsEarly : ℕ → Sender → Type 0
  IsEarly rounds s =
      (n : ℕ)
      → n < s.readings + rounds
      → leb_ℤ (scale 1_000_000_000 s.max_collect_duration) (clock n -ℤ s.start) ≡ false

  -- So over any rounds nothing is written as long as the time is not up, and the batches wait.
  pub metric_send-stalled :
      (gots : List (Option (List Metric))) (s : Sender) (k : ℕ)
      → s.max_metrics_buffer ≡ pos k
      → 0 < k
      → k ≤ length (buffer s)
      → IsEarly (length gots) s
      → ((metric_send clock gots s).writes ≡ s.writes)
        × (buffer (metric_send clock gots s) ≡ buffer s ++ taken gots)
  unfolding metric_send
  metric_send-stalled [] s k e p h early = (refl, sym (append-nil (buffer s)))
  metric_send-stalled (none ∷ gots) s k e p h early =
      let s' = record s { readings = s.readings + 1 } in
      let passes : metric_send clock (none ∷ gots) s ≡ metric_send clock gots s' =
        ap (metric_send clock gots) (send_due-early s (early s.readings (omega arith))) in
      rw passes (metric_send-stalled gots s' k e p h (λ n b. early n (omega arith)))
  metric_send-stalled (some batch ∷ gots) s k e p h early =
      let rpcs = map (λ m. m.rpc) batch in
      let t = set_buffer (buffer s ++ rpcs) s in
      let t' = record t { readings = t.readings + 1 } in
      let passes : metric_send clock (some batch ∷ gots) s ≡ metric_send clock gots t' =
        ap (λ x. metric_send clock gots (send_due clock x)) (send_batch-stalled rpcs s k e p h)
        ∙ ap (metric_send clock gots) (send_due-early t (early s.readings (omega arith))) in
      let (writes, waits) =
        metric_send-stalled gots t' k e p (omega (arith, h, length-append (buffer s) rpcs))
          (λ n b. early n (omega arith)) in
      rw passes (writes, waits ∙ append_assoc (buffer s) rpcs (taken gots))

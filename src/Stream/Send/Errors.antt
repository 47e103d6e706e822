-- ===== src/Stream/Send/Errors.antt =====
-- What `errorSend` does to the replies: the error and the metrics share one message.
use snap_plugin_lib_cpp.Base.{
  ℕ, ◌+◌, ◌≡◌, refl, ap, sym, inl, inr, ◌∙◌, Option, none, some, List, [], ◌∷◌, ◌++◌, map,
  append-nil, append_assoc, All, All-append, String, if_split, length,
}
use snap_plugin_lib_cpp.Base.Int.{ℤ, pos, scale, ◌-ℤ◌, leb_ℤ, eqb_ℤ}
use snap_plugin_lib_cpp.Rpc
use snap_plugin_lib_cpp.Rpc.Stream.{CollectReply}
use snap_plugin_lib_cpp.Metric.{Metric}
use snap_plugin_lib_cpp.Stream.Send.{
  Sender, buffer, set_buffer, flush, send_metric, send_metrics_loop, send_batch, send_due,
  metric_send, error_send_body,
}
use snap_plugin_lib_cpp.Stream.Send.Flow.{flush_cases, flush_lem, sent, taken, metric_send-flow}
use mathlib.Core.List.{append_cancel_left}

abbrev pub HasError : String → CollectReply → Type 0
HasError e r = r.error.error ≡ e

-- From the state, more replies were written, all with the error, which still stands.
pub record Adds (e : String) (before after : List CollectReply) (now : CollectReply) : Type 0 where
  pub added : List CollectReply
  pub writes : after ≡ before ++ added
  pub marked : All (HasError e) added
  pub stands : HasError e now

abbrev pub Goes : String → Sender → Sender → Type 0
Goes e s t = Adds e s.writes t.writes t.collect_reply

pub Goes-refl : {e : String} (s : Sender) → HasError e s.collect_reply → Goes e s s
Goes-refl s h = record { added = []; writes = sym (append-nil s.writes); marked = tt; stands = h }

Adds-trans :
    {e : String} {before middle after : List CollectReply} {now then_ : CollectReply}
    → Adds e before middle now
    → Adds e middle after then_
    → Adds e before after then_
Adds-trans {e} {before} g h = record {
  added = g.added ++ h.added;
  writes = h.writes ∙ ap (λ ws. ws ++ h.added) g.writes ∙ append_assoc before g.added h.added;
  marked = All-append (HasError e) g.added h.added g.marked h.marked;
  stands = h.stands;
}

module _ (clock : ℕ → ℤ) (e : String) where
  pub flush-Goes : (s : Sender) → HasError e s.collect_reply → Goes e s (flush clock s)
  flush-Goes s h = elim (flush_cases clock s (buffer s) refl) [
    | inl (_, same) ↦ record {
      added = [];
      writes = same ∙ sym (append-nil s.writes);
      marked = tt;
      stands = ap (λ x. x.error) (flush_lem clock s).2 ∙ h;
    }
    | inr (_, out) ↦ record {
      added = s.collect_reply ∷ [];
      writes = out;
      marked = (h, tt);
      stands = ap (λ x. x.error) (flush_lem clock s).2 ∙ h;
    }
  ]

  pub send_metric-Goes :
      (m : Rpc.Metric) (s : Sender) → HasError e s.collect_reply → Goes e s (send_metric clock m s)
  unfolding send_metric
  send_metric-Goes m s h =
      if_split (Goes e s) (eqb_ℤ (pos (length (buffer s'))) s'.max_metrics_buffer)
        (λ _. flush-Goes s' h) (λ _. Goes-refl s' h)
    where
      s' : Sender
      s' = set_buffer (buffer s ++ (m ∷ [])) s

  send_metrics_loop-Goes :
      (ms : List Rpc.Metric) (s : Sender)
      → HasError e s.collect_reply
      → Goes e s (send_metrics_loop clock ms s)
  unfolding send_metrics_loop
  send_metrics_loop-Goes [] s h = Goes-refl s h
  send_metrics_loop-Goes (m ∷ ms) s h =
      let first = send_metric-Goes m s h in
      Adds-trans first (send_metrics_loop-Goes ms (send_metric clock m s) first.stands)

  send_batch-Goes :
      (ms : List Rpc.Metric) (s : Sender)
      → HasError e s.collect_reply
      → Goes e s (send_batch clock ms s)
  unfolding send_batch
  send_batch-Goes [] s h = Goes-refl s h
  send_batch-Goes (m ∷ ms) s h =
      if_split (Goes e s) (eqb_ℤ (send_metrics_loop clock (m ∷ ms) s).max_metrics_buffer (pos 0))
        (λ _. Adds-trans looped (flush-Goes _ looped.stands)) (λ _. looped)
    where
      looped : Goes e s (send_metrics_loop clock (m ∷ ms) s)
      looped = send_metrics_loop-Goes (m ∷ ms) s h

  pub send_due-Goes : (s : Sender) → HasError e s.collect_reply → Goes e s (send_due clock s)
  unfolding send_due
  send_due-Goes s h =
      if_split (Goes e s)
        (leb_ℤ (scale 1_000_000_000 s.max_collect_duration) (clock s.readings -ℤ s.start))
        (λ _. flush-Goes (record s { readings = s.readings + 1 }) h)
        (λ _. Goes-refl (record s { readings = s.readings + 1 }) h)

  metric_send-Goes :
      (gots : List (Option (List Metric))) (s : Sender)
      → HasError e s.collect_reply
      → Goes e s (metric_send clock gots s)
  unfolding metric_send
  metric_send-Goes [] s h = Goes-refl s h
  metric_send-Goes (none ∷ gots) s h =
      let first = send_due-Goes s h in Adds-trans first (metric_send-Goes gots _ first.stands)
  metric_send-Goes (some batch ∷ gots) s h =
      let first = send_batch-Goes (map (λ m. m.rpc) batch) s h in
      let second = send_due-Goes _ first.stands in
      Adds-trans first (Adds-trans second (metric_send-Goes gots _ second.stands))

  sent-append_all : (rs ss : List CollectReply) → sent (rs ++ ss) ≡ sent rs ++ sent ss
  sent-append_all [] ss = refl
  sent-append_all (r ∷ rs) ss =
      ap (λ ms. r.metrics_reply.metrics ++ ms) (sent-append_all rs ss)
      ∙ sym (append_assoc r.metrics_reply.metrics (sent rs) (sent ss))

  -- What was added to the stream since a state carries what waited there and what was taken since.
  sent-added :
      (gots : List (Option (List Metric))) (s : Sender) (h : HasError e s.collect_reply)
      → sent (metric_send-Goes gots s h).added ++ buffer (metric_send clock gots s)
        ≡ buffer s ++ taken gots
  sent-added gots s h =
      let g = metric_send-Goes gots s h in
      let waiting = buffer (metric_send clock gots s) in
      append_cancel_left (sent s.writes) _ _ (
        sym (append_assoc (sent s.writes) (sent g.added) waiting)
        ∙ ap (λ ms. ms ++ waiting) (sym (sent-append_all s.writes g.added))
        ∙ ap (λ ws. sent ws ++ waiting) (sym g.writes)
        ∙ metric_send-flow clock gots s
        ∙ append_assoc (sent s.writes) (buffer s) (taken gots))

  -- A reply with an error repeats the metrics that wait, which stay in the buffer; and the error is
  -- never cleared. Over any later rounds of `metricSend`, the replies that it adds all carry the error
  -- again, and their metrics, with those that wait in the end, are first the ones that the reply with
  -- the error has sent already, and then those of the batches.
  pub error_send_lem :
      (gots : List (Option (List Metric))) (s : Sender)
      → let t = error_send_body e s in
        (t.writes ≡ s.writes ++ (t.collect_reply ∷ []))
        × (t.collect_reply.metrics_reply ≡ s.collect_reply.metrics_reply)
        × HasError e t.collect_reply
        × (g : Goes e t (metric_send clock gots t)) × (sent g.added
              ++ buffer (metric_send clock gots t)
            ≡ buffer s ++ taken gots)
  unfolding error_send_body
  error_send_lem gots s =
      let t = error_send_body e s in
      (refl, refl, refl, metric_send-Goes gots t refl, sent-added gots t refl)

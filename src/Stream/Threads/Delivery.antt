-- ===== src/Stream/Threads/Delivery.antt =====
-- What reaches the stream, against what the plugin hands over, in any interleaving of the threads.
use snap_plugin_lib_cpp.Base.{
  ℕ, ◌≡◌, refl, ap, sym, inl, inr, ◌∙◌, Bool, true, not, some, List, [], ◌∷◌, ◌++◌, concat,
  is_empty, if◌then◌else◌,
}
use snap_plugin_lib_cpp.Base.Int.{ℤ}
use snap_plugin_lib_cpp.Metric.{Metric}
use snap_plugin_lib_cpp.Stream.Channel
use snap_plugin_lib_cpp.Stream.Channel.{Channel, concat-append}
use snap_plugin_lib_cpp.Stream.Send.{Sender, buffer}
use snap_plugin_lib_cpp.Stream.Receive.{Plugin, set_limits}
use snap_plugin_lib_cpp.Stream.Threads.{
  SenderPc, ErrorPc, PutterPc, Channels, System, rpcs, start, Step, Reach, here, next, cancel,
  plugin_acts, sender_begins, sender_enters, sender_gets, sender_adds, sender_ends_batch,
  sender_times, sender_closes, error_enters, error_writes, error_misses, error_closes,
  receiver_enters, receiver_reads, receiver_closes, receiver_fails, putter_enters, putter_sends,
  putter_errs, putter_receives, putter_fails_sending, putter_fails_reporting, putter_leaves,
}
use snap_plugin_lib_cpp.Stream.Threads.Replies.{
  in_hand, queued, IsDelivered, send_metric-Moves, send_due-Moves, end_batch-Moves,
}
use snap_plugin_lib_cpp.Stream.Threads.Kept.{
  sender-IsDelivered, error-IsDelivered, same-IsDelivered, handed-IsDelivered,
}
use snap_plugin_lib_cpp.Stream.Threads.Effects.{
  get-content, send_part-queued, err_part-same, recv_part-same, stream_recv_body-same,
}

module _ {S : Type 0} (plugin : Plugin S) (clock : ℕ → ℤ) where
  sender_gets-IsDelivered :
      (s : System S) (got : Bool) (mets : List Metric) (c : Channel (List Metric))
      → s.sender_pc ≡ SenderPc.waits
      → Channel.get [] true s.exchange.send_chan ≡ some (got, mets, c)
      → IsDelivered s
      → IsDelivered (record s {
        exchange = record s.exchange { send_chan = c };
        sender_pc = if got then SenderPc.adds (not (is_empty mets)) (rpcs mets) else SenderPc.times;
      })
  sender_gets-IsDelivered s got mets c p g h =
      let none_in_hand : in_hand s.sender_pc ≡ [] = ap in_hand p in
      same-IsDelivered s h _ refl refl
        (elim (get-content _ got mets s.exchange.send_chan c refl g) [
          | inl (full, content) ↦
              rw full (content ∙ sym (ap (λ x. x ++ queued s.exchange) none_in_hand))
          | inr (blank, content) ↦
              rw blank (content ∙ sym (ap (λ x. x ++ queued s.exchange) none_in_hand))
        ])
        refl refl

  Step-IsDelivered : {s t : System S} → Step plugin clock s t → IsDelivered s → IsDelivered t
  unfolding Channel.close set_limits
  Step-IsDelivered {s} (cancel e) h = rw e (same-IsDelivered s h _ refl refl refl refl refl)
  Step-IsDelivered {s} (plugin_acts state e) h =
      rw e (same-IsDelivered s h _ refl refl refl refl refl)
  Step-IsDelivered {s} (sender_begins p e) h = rw e (
      same-IsDelivered s h _ refl refl (ap (λ pc. in_hand pc ++ queued s.exchange) (sym p)) refl
        refl)
  Step-IsDelivered {s} (sender_enters p c e) h = rw e (
      same-IsDelivered s h _ refl refl (ap (λ pc. in_hand pc ++ queued s.exchange) (sym p)) refl
        refl)
  Step-IsDelivered {s} (sender_gets got mets c p g e) h =
      rw e (sender_gets-IsDelivered s got mets c p g h)
  Step-IsDelivered {s} (sender_adds had m ms p e) h = rw e (
      sender-IsDelivered s h (m ∷ []) _ (SenderPc.adds had ms) (send_metric-Moves clock m s.sender)
        (ap in_hand p))
  Step-IsDelivered {s} (sender_ends_batch had p e) h = rw e (
      sender-IsDelivered s h [] _ SenderPc.times (end_batch-Moves clock had s.sender)
        (ap in_hand p))
  Step-IsDelivered {s} (sender_times p e) h =
      rw e
        (sender-IsDelivered s h [] _ SenderPc.tests (send_due-Moves clock s.sender) (ap in_hand p))
  Step-IsDelivered {s} (sender_closes p c e) h = rw e (
      same-IsDelivered s h _ refl refl (ap (λ pc. in_hand pc ++ queued s.exchange) (sym p)) refl
        refl)
  Step-IsDelivered {s} (error_enters p c e) h =
      rw e (same-IsDelivered s h _ refl refl refl refl refl)
  Step-IsDelivered {s} (error_writes message c p g e) h =
      rw e (error-IsDelivered s h message _ ErrorPc.tests refl)
  Step-IsDelivered {s} (error_misses p g c e) h =
      rw e (same-IsDelivered s h _ refl refl refl refl refl)
  Step-IsDelivered {s} (error_closes p c e) h =
      rw e (same-IsDelivered s h _ refl refl refl refl refl)
  Step-IsDelivered {s} (receiver_enters p c e) h =
      rw e (same-IsDelivered s h _ refl refl refl refl refl)
  Step-IsDelivered {s} (receiver_reads arg sender c p r e) h =
      let (w, b) = stream_recv_body-same arg s.sender sender s.exchange.recv_chan c r in
      rw e (same-IsDelivered s h _ w b refl refl refl)
  Step-IsDelivered {s} (receiver_fails arg p r e) h =
      rw e (same-IsDelivered s h _ refl refl refl refl refl)
  Step-IsDelivered {s} (receiver_closes p c e) h =
      rw e (same-IsDelivered s h _ refl refl refl refl refl)
  Step-IsDelivered {s} (putter_enters p c e) h =
      rw e (same-IsDelivered s h _ refl refl refl refl refl)
  Step-IsDelivered {s} (putter_sends x p r e) h =
      rw e (handed-IsDelivered s h x PutterPc.errs _ (send_part-queued plugin s.exchange x r))
  Step-IsDelivered {s} (putter_errs x p r e) h = rw e (
      same-IsDelivered s h _ refl refl
        (ap (λ (c : Channel (List Metric)). in_hand s.sender_pc ++ rpcs (concat c.queue))
          (err_part-same plugin s.exchange x r))
        refl refl)
  Step-IsDelivered {s} (putter_receives x p r e) h = rw e (
      same-IsDelivered s h _ refl refl
        (ap (λ (c : Channel (List Metric)). in_hand s.sender_pc ++ rpcs (concat c.queue))
          (recv_part-same plugin s.exchange x r))
        refl refl)
  Step-IsDelivered {s} (putter_fails_sending p r e) h =
      rw e (same-IsDelivered s h _ refl refl refl refl refl)
  Step-IsDelivered {s} (putter_fails_reporting p r e) h =
      rw e (same-IsDelivered s h _ refl refl refl refl refl)
  Step-IsDelivered {s} (putter_leaves p c e) h =
      rw e (same-IsDelivered s h _ refl refl refl refl refl)

  -- From a stream with nothing written and nothing waiting, in the reply or in the channel of metrics,
  -- whose channels may be open or closed: in every interleaving of the four threads, with any changes
  -- that the plugin makes and any limits that arrive, the metrics that the plugin handed over are, in
  -- their order and without loss or repetition, those in the replies of `metricSend`, those that wait
  -- in the reply, those of the batch in hand and those in the channel; the other replies are those of
  -- `errorSend`, one for each message, in their order.
  pub Reach-IsDelivered :
      {sender : Sender} {channels : Channels} {state : S} {s : System S}
      → sender.writes ≡ []
      → buffer sender ≡ []
      → channels.send_chan.queue ≡ []
      → Reach plugin clock (start sender channels state) s
      → IsDelivered s
  Reach-IsDelivered {sender} w b q here = record {
    replies = [];
    on_stream = sym w;
    kept = rw (b, q) refl;
    reported = refl;
  }
  Reach-IsDelivered w b q (next r st) = Step-IsDelivered st (Reach-IsDelivered w b q r)

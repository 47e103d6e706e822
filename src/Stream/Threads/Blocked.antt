-- ===== src/Stream/Threads/Blocked.antt =====
-- A cancellation that leaves `metricSend` waiting: only it closes its channel, and only after its loop.
use snap_plugin_lib_cpp.Base.{ℕ, ◌+◌, ◌≡◌, refl, ap, true, false, [], arith}
use snap_plugin_lib_cpp.Base.Int.{ℤ}
use snap_plugin_lib_cpp.Stream.Channel
use snap_plugin_lib_cpp.Stream.Channel.{open_channel}
use snap_plugin_lib_cpp.Stream.Send.{Sender}
use snap_plugin_lib_cpp.Stream.Receive.{Plugin}
use snap_plugin_lib_cpp.Stream.Threads.{
  SenderPc, PutterPc, Channels, System, start, tell, Step, Reach, here, next, cancel, plugin_acts,
  sender_begins, sender_enters, sender_gets, sender_adds, sender_ends_batch, sender_times,
  sender_closes, error_enters, error_writes, error_misses, error_closes, receiver_enters,
  receiver_reads, receiver_closes, receiver_fails, putter_enters, putter_sends, putter_errs,
  putter_receives, putter_fails_sending, putter_fails_reporting, putter_leaves,
}

-- `metricSend` waits on an empty, open channel, and the thread that could fill it has returned.
pub record IsBlocked {S : Type 0} (s : System S) : Type 0 where
  pub asked : s.cancelled ≡ true
  pub waiting : s.sender_pc ≡ SenderPc.waits
  pub alone : s.putter_pc ≡ PutterPc.returned
  pub empty : s.exchange.send_chan.queue ≡ []
  pub unclosed : s.exchange.send_chan.closed ≡ false

module _ {S : Type 0} (plugin : Plugin S) (clock : ℕ → ℤ) where
  Step-IsBlocked : {s t : System S} → Step plugin clock s t → IsBlocked s → IsBlocked t
  unfolding Channel.get
  Step-IsBlocked (cancel e) b = ground arith
  Step-IsBlocked (plugin_acts state e) b = ground arith
  Step-IsBlocked (sender_begins p e) b = absurd (cc)
  Step-IsBlocked (sender_enters p c e) b = absurd (cc)
  Step-IsBlocked (sender_gets got mets c p g e) b = ground arith
  Step-IsBlocked (sender_adds had m ms p e) b = absurd (cc)
  Step-IsBlocked (sender_ends_batch had p e) b = absurd (cc)
  Step-IsBlocked (sender_times p e) b = absurd (cc)
  Step-IsBlocked (sender_closes p c e) b = absurd (cc)
  Step-IsBlocked (error_enters p c e) b = ground arith
  Step-IsBlocked (error_writes message c p g e) b = ground arith
  Step-IsBlocked (error_misses p g c e) b = ground arith
  Step-IsBlocked (error_closes p c e) b = ground arith
  Step-IsBlocked (receiver_enters p c e) b = ground arith
  Step-IsBlocked (receiver_reads arg sender c p r e) b = ground arith
  Step-IsBlocked (receiver_fails arg p r e) b = ground arith
  Step-IsBlocked (receiver_closes p c e) b = ground arith
  Step-IsBlocked (putter_enters p c e) b = absurd (cc)
  Step-IsBlocked (putter_sends x p r e) b = absurd (cc)
  Step-IsBlocked (putter_errs x p r e) b = absurd (cc)
  Step-IsBlocked (putter_receives x p r e) b = absurd (cc)
  Step-IsBlocked (putter_fails_sending p r e) b = absurd (cc)
  Step-IsBlocked (putter_fails_reporting p r e) b = absurd (cc)
  Step-IsBlocked (putter_leaves p c e) b = absurd (cc)

  Reach-IsBlocked : {s t : System S} → Reach plugin clock s t → IsBlocked s → IsBlocked t
  Reach-IsBlocked here b = b
  Reach-IsBlocked (next r st) b = Step-IsBlocked st (Reach-IsBlocked r b)

  -- Whatever the plugin is, a stream that finds the channel of metrics open and empty, as the first of
  -- a service does, can come from its start to a state from which `metricSend` never returns and never
  -- closes its channel, whatever happens, though the stream is cancelled: if it waits for metrics when
  -- the thread that puts them sees the cancellation.
  pub shutdown_blocks :
      (sender : Sender) (channels : Channels) (state : S)
      → channels.send_chan ≡ open_channel
      → (t : System S) × Reach plugin clock (start sender channels state) t
        × ((u : System S) → Reach plugin clock t u → IsBlocked u)
  shutdown_blocks sender channels state fresh =
      let s₀ : System S = start sender channels state in
      let s₁ : System S = record s₀ {
        sender = record sender { start = clock sender.readings; readings = sender.readings + 1 };
        sender_pc = SenderPc.tests;
      } in
      let s₂ : System S = record s₁ { sender_pc = SenderPc.waits } in
      let s₃ : System S = record s₂ { cancelled = true } in
      let s₄ : System S = record s₃ {
        exchange = tell plugin s₃.exchange;
        putter_pc = PutterPc.returned;
      } in
      (
        s₄,
        next
            (next (next (next here (sender_begins refl refl)) (sender_enters refl refl refl))
              (cancel refl))
            (putter_leaves refl refl refl),
        λ u r. Reach-IsBlocked r (record {
          asked = refl;
          waiting = refl;
          alone = refl;
          empty = ap (λ c. c.queue) fresh;
          unclosed = ap (λ c. c.closed) fresh;
        }),
      )

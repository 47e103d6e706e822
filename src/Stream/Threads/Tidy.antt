-- ===== src/Stream/Threads/Tidy.antt =====
-- What waits in the reply between two batches, while the limit on the buffer is 0.
use snap_plugin_lib_cpp.Base.{
  ℕ, ◌+◌, ◌++◌, ◌≡◌, ◌≢◌, ◌⊎◌, refl, ◌∙◌, sym, inl, inr, Bool, true, false, not, Bool-cases, some,
  List, [], ◌∷◌, is_empty, if◌then◌else◌, arith,
}
use snap_plugin_lib_cpp.Base.Int.{ℤ, pos, eqb_ℤ}
use snap_plugin_lib_cpp.Rpc
use snap_plugin_lib_cpp.Rpc.Stream.{CollectArg}
use snap_plugin_lib_cpp.Metric.{Metric}
use snap_plugin_lib_cpp.Stream.Channel
use snap_plugin_lib_cpp.Stream.Channel.{Channel}
use snap_plugin_lib_cpp.Stream.Send.{
  Sender, buffer, set_buffer, send_metric, send_due, error_send_body,
}
use snap_plugin_lib_cpp.Stream.Send.Flow.{flush_lem}
use snap_plugin_lib_cpp.Stream.Receive.{Plugin, set_limits, stream_recv_body}
use snap_plugin_lib_cpp.Stream.Threads.{
  SenderPc, Channels, System, rpcs, end_batch, start, Step, Reach, here, next, cancel, plugin_acts,
  sender_begins, sender_enters, sender_gets, sender_adds, sender_ends_batch, sender_times,
  sender_closes, error_enters, error_writes, error_misses, error_closes, receiver_enters,
  receiver_reads, receiver_closes, receiver_fails, putter_enters, putter_sends, putter_errs,
  putter_receives, putter_fails_sending, putter_fails_reporting, putter_leaves,
}
use snap_plugin_lib_cpp.Stream.Threads.Effects.{stream_recv_body-same}

-- Only within a batch that has metrics may metrics wait.
abbrev pub Tidies : SenderPc → List Rpc.Metric → Type 0
Tidies (SenderPc.adds true ms) waiting = Unit
Tidies (SenderPc.adds false ms) waiting = (ms ≡ []) × (waiting ≡ [])
Tidies _ waiting = waiting ≡ []

-- The limit is not 0, or the thread is tidy; and it has returned only after a cancellation.
pub record IsTidy {S : Type 0} (s : System S) : Type 0 where
  pub tidy : (s.sender.max_metrics_buffer ≢ pos 0) ⊎ Tidies s.sender_pc (buffer s.sender)
  pub alive : (s.sender_pc ≢ SenderPc.returned) ⊎ (s.cancelled ≡ true)

module _ (clock : ℕ → ℤ) where
  pub send_metric-limit :
      (m : Rpc.Metric) (s : Sender)
      → (send_metric clock m s).max_metrics_buffer ≡ s.max_metrics_buffer
  unfolding send_metric
  send_metric-limit m s = ground (arith, flush_lem clock (set_buffer (buffer s ++ (m ∷ [])) s))

  pub send_due-limit : (s : Sender) → (send_due clock s).max_metrics_buffer ≡ s.max_metrics_buffer
  unfolding send_due
  send_due-limit s = ground (arith, flush_lem clock (record s { readings = s.readings + 1 }))

  send_due-empty : (s : Sender) → buffer s ≡ [] → buffer (send_due clock s) ≡ []
  unfolding send_due
  send_due-empty s e = ground (arith, flush_lem clock (record s { readings = s.readings + 1 }))

  pub end_batch-limit :
      (had : Bool) (s : Sender) → (end_batch clock had s).max_metrics_buffer ≡ s.max_metrics_buffer
  unfolding end_batch
  end_batch-limit had s = ground (arith, flush_lem clock s)

  end_batch-empty :
      (had : Bool) (s : Sender)
      → s.max_metrics_buffer ≡ pos 0
      → Tidies (SenderPc.adds had []) (buffer s)
      → buffer (end_batch clock had s) ≡ []
  unfolding end_batch
  end_batch-empty true s limit h = ground (arith, flush_lem clock s)
  end_batch-empty false s limit h = h.1

set_limits-limit :
    (arg : CollectArg) (s : Sender)
    → s.max_metrics_buffer ≢ pos 0
    → (set_limits arg s).max_metrics_buffer ≢ pos 0
unfolding set_limits
set_limits-limit arg s h = ground arith

stream_recv_body-limit :
    (arg : CollectArg) (s s' : Sender) (c c' : Channel (List Metric))
    → stream_recv_body arg (s, c) ≡ some (s', c')
    → s.max_metrics_buffer ≢ pos 0
    → s'.max_metrics_buffer ≢ pos 0
unfolding stream_recv_body Channel.put set_limits
stream_recv_body-limit arg s s' c c' e h = ground arith

module _ {S : Type 0} (plugin : Plugin S) (clock : ℕ → ℤ) where
  -- A step of `metricSend`, which leaves the limit.
  moved :
      {s : System S} (t : System S)
      → t.sender.max_metrics_buffer ≡ s.sender.max_metrics_buffer
      → (s.sender.max_metrics_buffer ≡ pos 0
          → Tidies s.sender_pc (buffer s.sender)
          → Tidies t.sender_pc (buffer t.sender))
      → t.sender_pc ≢ SenderPc.returned
      → IsTidy s
      → IsTidy t
  moved {s} t limit keeps runs h = record {
    tidy = elim h.tidy [
      | inl other ↦ inl (λ e. other (sym limit ∙ e))
      | inr tidy ↦ elim (Bool-cases (eqb_ℤ s.sender.max_metrics_buffer (pos 0))) [
        | inl zero_ ↦ inr (keeps (ground arith) tidy)
        | inr other ↦ inl (ground arith)
      ]
    ];
    alive = inl runs;
  }

  -- A step of another thread.
  same :
      {s : System S} (t : System S)
      → t.sender.max_metrics_buffer ≡ s.sender.max_metrics_buffer
      → buffer t.sender ≡ buffer s.sender
      → t.sender_pc ≡ s.sender_pc
      → t.cancelled ≡ s.cancelled
      → IsTidy s
      → IsTidy t
  same t limit waiting pc cancelled h = record {
    tidy = elim h.tidy [
      | inl other ↦ inl (λ e. other (sym limit ∙ e))
      | inr tidy ↦ inr (rw (pc, waiting) tidy)
    ];
    alive = rw (pc, cancelled) h.alive;
  }

  after_get : (got : Bool) (mets : List Metric) → SenderPc
  after_get got mets =
      if got then SenderPc.adds (not (is_empty mets)) (rpcs mets) else SenderPc.times

  Tidies-get :
      (got : Bool) (mets : List Metric) (waiting : List Rpc.Metric)
      → waiting ≡ []
      → Tidies (after_get got mets) waiting
  unfolding after_get
  Tidies-get true [] waiting e = (refl, e)
  Tidies-get true (m ∷ mets) waiting e = tt
  Tidies-get false mets waiting e = e

  get-ne-returned : (got : Bool) (mets : List Metric) → after_get got mets ≢ SenderPc.returned
  unfolding after_get
  get-ne-returned true mets e = cc
  get-ne-returned false mets e = cc

  Tidies-adds :
      (had : Bool) (m : Rpc.Metric) (ms waiting waiting' : List Rpc.Metric)
      → Tidies (SenderPc.adds had (m ∷ ms)) waiting
      → Tidies (SenderPc.adds had ms) waiting'
  Tidies-adds true m ms waiting waiting' h = tt
  Tidies-adds false m ms waiting waiting' h = absurd (cc)

  Step-IsTidy : {s t : System S} → Step plugin clock s t → IsTidy s → IsTidy t
  unfolding after_get error_send_body set_limits
  Step-IsTidy (cancel e) h = rw e (record { tidy = h.tidy; alive = inr refl })
  Step-IsTidy (plugin_acts state e) h = rw e (same _ refl refl refl refl h)
  Step-IsTidy (sender_begins p e) h = rw e (moved _ refl (λ l k. rw p at k) (λ q. cc) h)
  Step-IsTidy (sender_enters p c e) h = rw e (moved _ refl (λ l k. rw p at k) (λ q. cc) h)
  Step-IsTidy (sender_gets got mets c p g e) h =
      rw e (moved _ refl (λ l k. Tidies-get got mets _ (rw p at k)) (get-ne-returned got mets) h)
  Step-IsTidy {s} (sender_adds had m ms p e) h = rw e (
      moved _ (send_metric-limit clock m s.sender)
        (λ l k. Tidies-adds had m ms (buffer s.sender) _ (rw p at k)) (λ q. cc) h)
  Step-IsTidy {s} (sender_ends_batch had p e) h = rw e (
      moved _ (end_batch-limit clock had s.sender)
        (λ l k. end_batch-empty clock had s.sender l (rw p at k)) (λ q. cc) h)
  Step-IsTidy {s} (sender_times p e) h = rw e (
      moved _ (send_due-limit clock s.sender) (λ l k. send_due-empty clock s.sender (rw p at k))
        (λ q. cc) h)
  Step-IsTidy (sender_closes p c e) h = rw e (record {
    tidy = elim h.tidy [ inl other ↦ inl other | inr tidy ↦ inr (rw p at tidy) ];
    alive = inr c;
  })
  Step-IsTidy (error_enters p c e) h = rw e (same _ refl refl refl refl h)
  Step-IsTidy (error_writes message c p g e) h = rw e (same _ refl refl refl refl h)
  Step-IsTidy (error_misses p g c e) h = rw e (same _ refl refl refl refl h)
  Step-IsTidy (error_closes p c e) h = rw e (same _ refl refl refl refl h)
  Step-IsTidy (receiver_enters p c e) h = rw e (same _ refl refl refl refl h)
  Step-IsTidy {s} (receiver_reads arg sender c p r e) h =
      let (_, waiting) = stream_recv_body-same arg s.sender sender s.exchange.recv_chan c r in
      rw e (record {
        tidy = elim h.tidy [
          | inl other ↦
              inl (stream_recv_body-limit arg s.sender sender s.exchange.recv_chan c r other)
          | inr tidy ↦ inr (rw waiting tidy)
        ];
        alive = h.alive;
      })
  Step-IsTidy {s} (receiver_fails arg p r e) h = rw e (record {
    tidy = elim h.tidy [
      | inl other ↦ inl (set_limits-limit arg s.sender other)
      | inr tidy ↦ inr tidy
    ];
    alive = h.alive;
  })
  Step-IsTidy (receiver_closes p c e) h = rw e (same _ refl refl refl refl h)
  Step-IsTidy (putter_enters p c e) h = rw e (same _ refl refl refl refl h)
  Step-IsTidy (putter_sends x p r e) h = rw e (same _ refl refl refl refl h)
  Step-IsTidy (putter_errs x p r e) h = rw e (same _ refl refl refl refl h)
  Step-IsTidy (putter_receives x p r e) h = rw e (same _ refl refl refl refl h)
  Step-IsTidy (putter_fails_sending p r e) h = rw e (same _ refl refl refl refl h)
  Step-IsTidy (putter_fails_reporting p r e) h = rw e (same _ refl refl refl refl h)
  Step-IsTidy (putter_leaves p c e) h = rw e (same _ refl refl refl refl h)

  pub Reach-IsTidy :
      {sender : Sender} {channels : Channels} {state : S} {s : System S}
      → buffer sender ≡ []
      → Reach plugin clock (start sender channels state) s
      → IsTidy s
  Reach-IsTidy b here = record { tidy = inr b; alive = inl (λ e. cc) }
  Reach-IsTidy b (next r st) = Step-IsTidy st (Reach-IsTidy b r)

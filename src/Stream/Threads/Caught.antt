-- ===== src/Stream/Threads/Caught.antt =====
-- How `metricSend`, by its own steps, catches up with what it was given.
use snap_plugin_lib_cpp.Base.{
  ℕ, ◌≡◌, ◌≢◌, refl, ap, ◌∙◌, sym, inl, inr, Bool, true, false, not, some, List, [], ◌∷◌, ◌++◌,
  append-nil, concat, map, is_empty, arith,
}
use snap_plugin_lib_cpp.Base.Int.{ℤ, pos}
use snap_plugin_lib_cpp.Rpc
use snap_plugin_lib_cpp.Rpc.Stream.{CollectReply}
use snap_plugin_lib_cpp.Metric.{Metric}
use snap_plugin_lib_cpp.Plugin.{StreamLimits}
use snap_plugin_lib_cpp.Stream.Channel
use snap_plugin_lib_cpp.Stream.Channel.{Channel}
use snap_plugin_lib_cpp.Stream.Send.{Sender, buffer, send_metric, send_due}
use snap_plugin_lib_cpp.Stream.Send.Flow.{sent}
use snap_plugin_lib_cpp.Stream.Receive.{Plugin}
use snap_plugin_lib_cpp.Stream.Threads.{
  SenderPc, Channels, new_channels, System, rpcs, stream_collector_impl, end_batch, start, Reach,
  here, next, sender_begins, sender_enters, sender_gets, sender_adds, sender_ends_batch,
  sender_times,
}
use snap_plugin_lib_cpp.Stream.Threads.Replies.{marked, unmarked, in_hand, error_text}
use snap_plugin_lib_cpp.Stream.Threads.Delivery.{Reach-IsDelivered}
use snap_plugin_lib_cpp.Stream.Threads.Tidy.{
  Tidies, send_metric-limit, send_due-limit, end_batch-limit, Reach-IsTidy,
}

module _ {S : Type 0} (plugin : Plugin S) (clock : ℕ → ℤ) where
  joined :
      {s t u : System S} → Reach plugin clock s t → Reach plugin clock t u → Reach plugin clock s u
  joined r here = r
  joined r (next q st) = next (joined r q) st

  module _ (s : System S) (alive : s.cancelled ≡ false) where
    -- The system with the sending thread at another place.
    abbrev at : Sender → SenderPc → Channel (List Metric) → System S
    at x pc c = record s {
      sender = x;
      exchange = record s.exchange { send_chan = c };
      sender_pc = pc;
    }

    -- What is reached from there by that thread: nothing queued, and the limit is still 0.
    record Caught (t : System S) : Type 0 where
      sender : Sender
      pc : SenderPc
      chan : Channel (List Metric)
      limit : sender.max_metrics_buffer ≡ pos 0
      idle : (ms : List Rpc.Metric) → Tidies pc ms → ms ≡ []
      spare : in_hand pc ≡ []
      empty : chan.queue ≡ []
      reached : Reach plugin clock t (at sender pc chan)

    earlier : (t u : System S) → Reach plugin clock t u → Caught u → Caught t
    earlier t u r h = record {
      sender = h.sender;
      pc = h.pc;
      chan = h.chan;
      limit = h.limit;
      idle = h.idle;
      spare = h.spare;
      empty = h.empty;
      reached = joined r h.reached;
    }

    -- Through the rest of a batch to the test of the loop.
    batch :
        (had : Bool) (ms : List Rpc.Metric) (x : Sender) (c : Channel (List Metric))
        → x.max_metrics_buffer ≡ pos 0
        → (y : Sender) × (y.max_metrics_buffer ≡ pos 0)
          × Reach plugin clock (at x (SenderPc.adds had ms) c) (at y SenderPc.tests c)
    batch had [] x c limit =
        let x' = end_batch clock had x in
        (
          send_due clock x',
          send_due-limit clock x' ∙ end_batch-limit clock had x ∙ limit,
          next (next here (sender_ends_batch had refl refl)) (sender_times refl refl),
        )
    batch had (m ∷ ms) x c limit =
        let (y, limit', r) =
          batch had ms (send_metric clock m x) c (send_metric-limit clock m x ∙ limit) in
        (y, limit', joined (next here (sender_adds had m ms refl refl)) r)

    get-front :
        (front : List Metric) (queue : List (List Metric)) (c : Channel (List Metric))
        → c.queue ≡ front ∷ queue
        → Channel.get [] true c ≡ some (true, front, record c { queue = queue })
    unfolding Channel.get
    get-front front queue c q = ground arith

    -- Through all the batches of the channel.
    from_tests :
        (queue : List (List Metric)) (x : Sender) (c : Channel (List Metric))
        → c.queue ≡ queue
        → x.max_metrics_buffer ≡ pos 0
        → Caught (at x SenderPc.tests c)
    from_tests [] x c q limit = record {
      sender = x;
      pc = SenderPc.tests;
      chan = c;
      limit = limit;
      idle = λ ms e. e;
      spare = refl;
      empty = q;
      reached = here;
    }
    from_tests (front ∷ queue) x c q limit =
        let c' = record c { queue = queue } in
        let (y, limit', r) = batch (not (is_empty front)) (rpcs front) x c' limit in
        let gets =
          next (next here (sender_enters refl alive refl))
            (sender_gets true front c' refl (get-front front queue c q) refl) in
        earlier _ _ (joined gets r) (from_tests queue y c' refl limit')

    from_waits :
        (queue : List (List Metric)) (x : Sender) (c : Channel (List Metric))
        → c.queue ≡ queue
        → x.max_metrics_buffer ≡ pos 0
        → Caught (at x SenderPc.waits c)
    from_waits [] x c q limit = record {
      sender = x;
      pc = SenderPc.waits;
      chan = c;
      limit = limit;
      idle = λ ms e. e;
      spare = refl;
      empty = q;
      reached = here;
    }
    from_waits (front ∷ queue) x c q limit =
        let c' = record c { queue = queue } in
        let (y, limit', r) = batch (not (is_empty front)) (rpcs front) x c' limit in
        let gets = next here (sender_gets true front c' refl (get-front front queue c q) refl) in
        earlier _ _ (joined gets r) (from_tests queue y c' refl limit')

    catches_up :
        (pc : SenderPc) (x : Sender) (c : Channel (List Metric))
        → pc ≢ SenderPc.returned
        → x.max_metrics_buffer ≡ pos 0
        → Caught (at x pc c)
    catches_up SenderPc.begins x c runs limit =
        earlier _ _ (next here (sender_begins refl refl)) (from_tests c.queue _ c refl limit)
    catches_up SenderPc.tests x c runs limit = from_tests c.queue x c refl limit
    catches_up SenderPc.waits x c runs limit = from_waits c.queue x c refl limit
    catches_up (SenderPc.adds had ms) x c runs limit =
        let (y, limit', r) = batch had ms x c limit in
        earlier _ _ r (from_tests c.queue y c refl limit')
    catches_up SenderPc.times x c runs limit =
        earlier _ _ (next here (sender_times refl refl))
          (from_tests c.queue (send_due clock x) c refl (send_due-limit clock x ∙ limit))
    catches_up SenderPc.returned x c runs limit = absurd (runs refl)

    -- Behind it nothing waits.
    caught_lem :
        {sender : Sender} {channels : Channels} {state : S} (h : Caught s)
        → buffer sender ≡ []
        → Reach plugin clock (start sender channels state) s
        → buffer h.sender ≡ []
    caught_lem h b r = elim (Reach-IsTidy plugin clock b (joined r h.reached)).tidy [
      | inl other ↦ absurd (other h.limit)
      | inr tidy ↦ h.idle (buffer h.sender) tidy
    ]

returns_not :
    {S : Type 0} (plugin : Plugin S) (clock : ℕ → ℤ) {sender : Sender} {channels : Channels}
    {state : S} {s : System S}
    → buffer sender ≡ []
    → Reach plugin clock (start sender channels state) s
    → s.cancelled ≡ false
    → s.sender_pc ≢ SenderPc.returned
returns_not plugin clock b r alive = elim (Reach-IsTidy plugin clock b r).alive [
  | inl runs ↦ runs
  | inr cancelled ↦ absurd (cc)
]

-- A stream of a new service that is not cancelled has come, in any interleaving, to a state in which the
-- limit on the buffer is 0. Then it can go on, with the plugin's state and what the plugin handed over
-- left as they are, until all of the latter is written: the replies on the stream can be told apart
-- so that the metrics in the first kind are those that were handed over, in their order and without
-- loss or repetition, and the second kind are those with the messages that `errorSend` took.
pub Reach-catches_up :
    {S : Type 0} (plugin : Plugin S) (clock : ℕ → ℤ) (limits : StreamLimits) (state : S)
    (s : System S)
    → s.cancelled ≡ false
    → s.sender.max_metrics_buffer ≡ pos 0
    → Reach plugin clock (start (stream_collector_impl limits) new_channels state) s
    → (t : System S) × (replies : List (Bool × CollectReply)) × Reach plugin clock s t
      × (t.exchange.state ≡ s.exchange.state)
      × (t.handed ≡ s.handed)
      × (unmarked replies ≡ t.sender.writes)
      × (sent (marked true replies) ≡ s.handed)
      × (map error_text (marked false replies) ≡ s.errors)
Reach-catches_up plugin clock limits state s alive limit r =
    let h =
      catches_up plugin clock s alive s.sender_pc s.sender s.exchange.send_chan
        (returns_not plugin clock refl r alive) limit in
    let t = at plugin clock s alive h.sender h.pc h.chan in
    let d = Reach-IsDelivered plugin clock refl refl refl (joined plugin clock r h.reached) in
    let nothing : buffer h.sender ++ (in_hand h.pc ++ rpcs (concat h.chan.queue)) ≡ [] =
      rw (caught_lem plugin clock s alive h refl r, h.spare, h.empty) refl in
    (
      t,
      d.replies,
      h.reached,
      refl,
      refl,
      d.on_stream,
      sym (append-nil (sent (marked true d.replies)))
          ∙ ap (λ ms. sent (marked true d.replies) ++ ms) (sym nothing)
          ∙ d.kept,
      d.reported,
    )

-- ===== src/Stream/Threads/Replies.antt =====
-- The replies of the two threads that write on the stream, told apart, and what `metricSend` adds.
use mathlib.Core.List.{append_cancel_left}
use snap_plugin_lib_cpp.Base.{
  ℕ, ◌≡◌, refl, ap, sym, ◌∙◌, Bool, true, false, ◌&&◌, List, [], ◌∷◌, ◌++◌, map, append-nil,
  append_assoc, concat, String, if_split,
}
use snap_plugin_lib_cpp.Base.Int.{ℤ, pos, eqb_ℤ}
use snap_plugin_lib_cpp.Rpc
use snap_plugin_lib_cpp.Rpc.Stream.{CollectReply}
use snap_plugin_lib_cpp.Stream.Send.{Sender, buffer, send_metric, send_due}
use snap_plugin_lib_cpp.Stream.Send.Flow.{sent, flow, flush-flow, send_metric-flow, send_due-flow}
use snap_plugin_lib_cpp.Stream.Send.Errors.{
  Goes, Goes-refl, flush-Goes, send_metric-Goes, send_due-Goes,
}
use snap_plugin_lib_cpp.Stream.Receive.{Exchange}
use snap_plugin_lib_cpp.Stream.Threads.{SenderPc, System, rpcs, end_batch}

-- The replies with the mark, in their order: `true` for those of `metricSend`, `false` for those of
-- `errorSend`.
abbrev pub marked : Bool → List (Bool × CollectReply) → List CollectReply
marked b [] = []
marked true ((true, r) ∷ rs) = r ∷ marked true rs
marked true ((false, r) ∷ rs) = marked true rs
marked false ((true, r) ∷ rs) = marked false rs
marked false ((false, r) ∷ rs) = r ∷ marked false rs

abbrev pub unmarked : List (Bool × CollectReply) → List CollectReply
unmarked = map (λ p. p.1)

-- The metrics of the batch that `metricSend` has taken and not added yet.
abbrev pub in_hand : SenderPc → List Rpc.Metric
in_hand (SenderPc.adds had ms) = ms
in_hand _ = []

-- The metrics in the channel.
abbrev pub queued : {S : Type 0} → Exchange S → List Rpc.Metric
queued x = rpcs (concat x.send_chan.queue)

abbrev pub error_text : CollectReply → String
error_text r = r.error.error

-- The replies on the stream can be told apart into those of `metricSend` and those of `errorSend`.
-- The first hold, with what waits, what is in hand and what is queued, the metrics that were handed
-- over, all and in their order; the second carry the messages, in their order.
pub record IsDelivered {S : Type 0} (s : System S) : Type 0 where
  pub replies : List (Bool × CollectReply)
  pub on_stream : unmarked replies ≡ s.sender.writes
  pub kept :
      sent (marked true replies) ++ (buffer s.sender ++ (in_hand s.sender_pc ++ queued s.exchange))
      ≡ s.handed
  pub reported : map error_text (marked false replies) ≡ s.errors

pub marked-append :
    (b : Bool) (xs ys : List (Bool × CollectReply))
    → marked b (xs ++ ys) ≡ marked b xs ++ marked b ys
marked-append b [] ys = refl
marked-append true ((true, r) ∷ xs) ys = ap (λ rs. r ∷ rs) (marked-append true xs ys)
marked-append true ((false, r) ∷ xs) ys = marked-append true xs ys
marked-append false ((true, r) ∷ xs) ys = marked-append false xs ys
marked-append false ((false, r) ∷ xs) ys = ap (λ rs. r ∷ rs) (marked-append false xs ys)

pub sent-append : (xs ys : List CollectReply) → sent (xs ++ ys) ≡ sent xs ++ sent ys
sent-append [] ys = refl
sent-append (x ∷ xs) ys =
    ap (λ ms. x.metrics_reply.metrics ++ ms) (sent-append xs ys)
    ∙ sym (append_assoc x.metrics_reply.metrics (sent xs) (sent ys))

-- All the replies of `metricSend`.
pub of_sender : List CollectReply → List (Bool × CollectReply)
of_sender = map (λ r. (true, r))

pub of_sender_lem :
    (rs : List CollectReply)
    → (unmarked (of_sender rs) ≡ rs)
      × (marked true (of_sender rs) ≡ rs)
      × (marked false (of_sender rs) ≡ [])
unfolding of_sender
of_sender_lem [] = (refl, refl, refl)
of_sender_lem (r ∷ rs) =
    let (a, b, c) = of_sender_lem rs in (ap (λ xs. r ∷ xs) a, ap (λ xs. r ∷ xs) b, c)

-- A step of `metricSend` writes some replies, and what these hold and what waits then is what waited
-- and what is new.
pub record Moves (new : List Rpc.Metric) (s t : Sender) : Type 0 where
  pub out : List CollectReply
  pub writes : t.writes ≡ s.writes ++ out
  pub moved : sent out ++ buffer t ≡ buffer s ++ new

Goes-Moves :
    (new : List Rpc.Metric) (e : String) (s t : Sender)
    → Goes e s t
    → flow t ≡ flow s ++ new
    → Moves new s t
Goes-Moves new e s t g f = record {
  out = g.added;
  writes = g.writes;
  moved = append_cancel_left (sent s.writes) (sent g.added ++ buffer t) (buffer s ++ new) (
      sym (append_assoc (sent s.writes) (sent g.added) (buffer t))
      ∙ ap (λ ms. ms ++ buffer t) (sym (sent-append s.writes g.added) ∙ sym (ap sent g.writes))
      ∙ f
      ∙ append_assoc (sent s.writes) (buffer s) new);
}

module _ (clock : ℕ → ℤ) where
  pub send_metric-Moves : (m : Rpc.Metric) (s : Sender) → Moves (m ∷ []) s (send_metric clock m s)
  send_metric-Moves m s =
      Goes-Moves (m ∷ []) _ s _ (send_metric-Goes clock _ m s refl) (send_metric-flow clock m s)

  pub send_due-Moves : (s : Sender) → Moves [] s (send_due clock s)
  send_due-Moves s =
      Goes-Moves [] _ s _ (send_due-Goes clock _ s refl)
        (send_due-flow clock s ∙ sym (append-nil (flow s)))

  pub end_batch-Moves : (had : Bool) (s : Sender) → Moves [] s (end_batch clock had s)
  unfolding end_batch
  end_batch-Moves had s =
      if_split (Moves [] s) (had && eqb_ℤ s.max_metrics_buffer (pos 0))
        (λ _.
          Goes-Moves [] _ s _ (flush-Goes clock _ s refl)
            (flush-flow clock s ∙ sym (append-nil (flow s))))
        (λ _. Goes-Moves [] _ s s (Goes-refl s refl) (sym (append-nil (flow s))))

-- ===== src/Stream/Threads/Effects.antt =====
-- What the calls on the channels, and a message that is read, do to the metrics under way.
use snap_plugin_lib_cpp.Base.{
  map-append, ◌≡◌, ◌⊎◌, ap, sym, inl, inr, ◌∙◌, Bool, true, false, some, List, [], ◌∷◌, ◌++◌,
  append-nil, concat, Option-cases, Bool-cases, arith,
}
use snap_plugin_lib_cpp.Rpc.Stream.{CollectArg}
use snap_plugin_lib_cpp.Metric.{Metric}
use snap_plugin_lib_cpp.Stream.Channel
use snap_plugin_lib_cpp.Stream.Channel.{Channel, concat-append}
use snap_plugin_lib_cpp.Stream.Send.{Sender, buffer}
use snap_plugin_lib_cpp.Stream.Receive.{
  Plugin, Exchange, send_part, err_part, recv_part, stream_recv_body,
}
use snap_plugin_lib_cpp.Stream.Threads.{rpcs, handing}
use snap_plugin_lib_cpp.Stream.Threads.Replies.{queued}

rpcs-append : (xs ys : List Metric) → rpcs (xs ++ ys) ≡ rpcs xs ++ rpcs ys
rpcs-append = map-append (λ m. m.rpc)

-- `get` hands out the front of the channel, or nothing.
pub get-content :
    (queue : List (List Metric)) (got : Bool) (mets : List Metric) (c c' : Channel (List Metric))
    → c.queue ≡ queue
    → Channel.get [] true c ≡ some (got, mets, c')
    → ((got ≡ true) × (rpcs mets ++ rpcs (concat c'.queue) ≡ rpcs (concat c.queue)))
      ⊎ ((got ≡ false) × (rpcs (concat c'.queue) ≡ rpcs (concat c.queue)))
unfolding Channel.get
get-content [] got mets c c' q e =
    let same : c'.queue ≡ c.queue = ground arith in
    inr (ground arith, ap (λ x. rpcs (concat x)) same)
get-content (front ∷ queue) got mets c c' q e =
    let a : mets ≡ front = ground arith in
    let b : c'.queue ≡ queue = ground arith in
    inl (
      ground arith,
      ap (λ x. rpcs x ++ rpcs (concat c'.queue)) a
          ∙ ap (λ x. rpcs front ++ rpcs (concat x)) b
          ∙ sym (rpcs-append front (concat queue))
          ∙ ap (λ x. rpcs (concat x)) (sym q),
    )

module _ {S : Type 0} (plugin : Plugin S) where
  pub send_part-queued :
      (x y : Exchange S) → send_part plugin x ≡ some y → queued y ≡ queued x ++ handing plugin x
  unfolding send_part Channel.put
  send_part-queued x y e = elim (Bool-cases (plugin.put_mets x.state)) [
    | inl puts ↦
        let out = (plugin.put_metrics_out x.state).0 in
        let q : y.send_chan.queue ≡ x.send_chan.queue ++ (out ∷ []) = ground arith in
        let f : handing plugin x ≡ rpcs out = ground arith in
        ap (λ c. rpcs (concat c)) q
        ∙ ap rpcs (concat-append x.send_chan.queue out)
        ∙ rpcs-append (concat x.send_chan.queue) out
        ∙ ap (λ ms. queued x ++ ms) (sym f)
    | inr skips ↦
        let q : y.send_chan.queue ≡ x.send_chan.queue = ground arith in
        let f : handing plugin x ≡ [] = ground arith in
        ap (λ c. rpcs (concat c)) q
        ∙ sym (append-nil (queued x))
        ∙ ap (λ ms. queued x ++ ms) (sym f)
  ]

  pub err_part-same : (x y : Exchange S) → err_part plugin x ≡ some y → y.send_chan ≡ x.send_chan
  unfolding err_part Channel.put
  err_part-same x y e = ground arith

  pub recv_part-same : (x y : Exchange S) → recv_part plugin x ≡ some y → y.send_chan ≡ x.send_chan
  unfolding recv_part
  recv_part-same x y e = elim (Option-cases (Channel.get x.recv_mets false x.recv_chan)) [
    | inl nothing ↦ absurd (ground arith)
    | inr ((got, mets, c), found) ↦ ground arith
  ]

pub stream_recv_body-same :
    (arg : CollectArg) (s s' : Sender) (c c' : Channel (List Metric))
    → stream_recv_body arg (s, c) ≡ some (s', c')
    → (s'.writes ≡ s.writes) × (buffer s' ≡ buffer s)
unfolding stream_recv_body Channel.put
stream_recv_body-same arg s s' c c' e = ground arith

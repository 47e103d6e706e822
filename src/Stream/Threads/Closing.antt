-- ===== src/Stream/Threads/Closing.antt =====
-- Who closes the channels, and when a thread meets a closed one.
use snap_plugin_lib_cpp.Base.{
  ℕ, ◌≡◌, ◌≢◌, ◌⊎◌, refl, inl, inr, Bool, true, false, ◌||◌, none, some, List, [], String,
  Option-cases, arith,
}
use snap_plugin_lib_cpp.Base.Int.{ℤ}
use snap_plugin_lib_cpp.Rpc.Stream.{CollectArg}
use snap_plugin_lib_cpp.Metric.{Metric}
use snap_plugin_lib_cpp.Stream.Channel
use snap_plugin_lib_cpp.Stream.Channel.{Channel}
use snap_plugin_lib_cpp.Stream.Send.{Sender}
use snap_plugin_lib_cpp.Stream.Receive.{
  Plugin, Exchange, send_part, err_part, recv_part, stream_recv_body,
}
use snap_plugin_lib_cpp.Stream.Threads.{
  SenderPc, ErrorPc, ReceiverPc, PutterPc, Channels, System, get_text, start, Step, Reach, here,
  next, cancel, plugin_acts, sender_begins, sender_enters, sender_gets, sender_adds,
  sender_ends_batch, sender_times, sender_closes, error_enters, error_writes, error_misses,
  error_closes, receiver_enters, receiver_reads, receiver_closes, receiver_fails, putter_enters,
  putter_sends, putter_errs, putter_receives, putter_fails_sending, putter_fails_reporting,
  putter_leaves,
}

-- Which of the three channels are closed.
pub record Closed : Type 0 where
  pub send : Bool
  pub err : Bool
  pub recv : Bool

module _ {S : Type 0} where
  abbrev pub closed : Exchange S → Closed
  closed x = record {
    send = x.send_chan.closed;
    err = x.err_chan.closed;
    recv = x.recv_chan.closed;
  }

  module _ (plugin : Plugin S) where
    pub send_part-closed : (x y : Exchange S) → send_part plugin x ≡ some y → closed y ≡ closed x
    unfolding send_part Channel.put
    send_part-closed x y e = ground arith

    pub err_part-closed : (x y : Exchange S) → err_part plugin x ≡ some y → closed y ≡ closed x
    unfolding err_part Channel.put
    err_part-closed x y e = ground arith

    pub recv_part-closed : (x y : Exchange S) → recv_part plugin x ≡ some y → closed y ≡ closed x
    unfolding recv_part
    recv_part-closed x y e = elim (Option-cases (Channel.get x.recv_mets false x.recv_chan)) [
      | inl none_ ↦ absurd (ground arith)
      | inr ((got, mets, c), found) ↦
          ground (arith, Channel.get-closed x.recv_mets false got mets x.recv_chan c found)
    ]

    -- A part fails only at a closed channel.
    send_part-fails : (x : Exchange S) → send_part plugin x ≡ none → x.send_chan.closed ≡ true
    unfolding send_part Channel.put
    send_part-fails x e = ground arith

    err_part-fails : (x : Exchange S) → err_part plugin x ≡ none → x.err_chan.closed ≡ true
    unfolding err_part Channel.put
    err_part-fails x e = ground arith

get_text-closed :
    (c c' : Channel String) (message : String)
    → get_text c ≡ some (message, c')
    → c'.closed ≡ c.closed
unfolding get_text
get_text-closed c c' message e = ground arith

stream_recv_body-closed :
    (arg : CollectArg) (s s' : Sender) (c c' : Channel (List Metric))
    → stream_recv_body arg (s, c) ≡ some (s', c')
    → c'.closed ≡ c.closed
unfolding stream_recv_body Channel.put
stream_recv_body-closed arg s s' c c' e = ground arith

stream_recv_body-fails :
    (arg : CollectArg) (s : Sender) (c : Channel (List Metric))
    → stream_recv_body arg (s, c) ≡ none
    → c.closed ≡ true
unfolding stream_recv_body Channel.put
stream_recv_body-fails arg s c e = ground arith

abbrev pub has_failed : PutterPc → Bool
has_failed PutterPc.failed = true
has_failed _ = false

abbrev pub gave_up : ReceiverPc → Bool
gave_up ReceiverPc.failed = true
gave_up _ = false

-- A channel that the stream has closed means that its thread returned, and that means that the stream
-- was cancelled. An exception means a channel that was closed when the stream began, or a cancellation.
pub record IsSettled {S : Type 0} (channels : Channels) (s : System S) : Type 0 where
  pub send :
      (s.exchange.send_chan.closed ≡ channels.send_chan.closed)
      ⊎ ((s.sender_pc ≡ SenderPc.returned) × (s.cancelled ≡ true))
  pub err :
      (s.exchange.err_chan.closed ≡ channels.err_chan.closed)
      ⊎ ((s.error_pc ≡ ErrorPc.returned) × (s.cancelled ≡ true))
  pub recv :
      (s.exchange.recv_chan.closed ≡ channels.recv_chan.closed)
      ⊎ ((s.receiver_pc ≡ ReceiverPc.returned) × (s.cancelled ≡ true))
  pub putter :
      (has_failed s.putter_pc ≡ false)
      ⊎ ((channels.send_chan.closed || channels.err_chan.closed || s.cancelled) ≡ true)
  pub receiver : (gave_up s.receiver_pc ≡ false) ⊎ (channels.recv_chan.closed ≡ true)

module _ {S : Type 0} (plugin : Plugin S) (clock : ℕ → ℤ) (channels : Channels) where
  Step-IsSettled :
      {s t : System S} → Step plugin clock s t → IsSettled channels s → IsSettled channels t
  Step-IsSettled (cancel e) o = ground arith
  Step-IsSettled (plugin_acts state e) o = ground arith
  Step-IsSettled (sender_begins p e) o = ground arith
  Step-IsSettled (sender_enters p c e) o = ground arith
  Step-IsSettled {s} (sender_gets got mets c p g e) o =
      ground (arith, Channel.get-closed [] true got mets s.exchange.send_chan c g)
  Step-IsSettled (sender_adds had m ms p e) o = ground arith
  Step-IsSettled (sender_ends_batch had p e) o = ground arith
  Step-IsSettled (sender_times p e) o = ground arith
  Step-IsSettled (sender_closes p c e) o = ground arith
  Step-IsSettled (error_enters p c e) o = ground arith
  Step-IsSettled {s} (error_writes message c p g e) o =
      ground (arith, get_text-closed s.exchange.err_chan c message g)
  Step-IsSettled (error_misses p g c e) o = ground arith
  Step-IsSettled (error_closes p c e) o = ground arith
  Step-IsSettled (receiver_enters p c e) o = ground arith
  Step-IsSettled {s} (receiver_reads arg sender c p r e) o =
      ground (arith, stream_recv_body-closed arg s.sender sender s.exchange.recv_chan c r)
  Step-IsSettled {s} (receiver_fails arg p r e) o =
      ground (arith, stream_recv_body-fails arg s.sender s.exchange.recv_chan r)
  Step-IsSettled (receiver_closes p c e) o = ground arith
  Step-IsSettled (putter_enters p c e) o = ground arith
  Step-IsSettled {s} (putter_sends x p r e) o =
      ground (arith, send_part-closed plugin s.exchange x r)
  Step-IsSettled {s} (putter_errs x p r e) o = ground (arith, err_part-closed plugin s.exchange x r)
  Step-IsSettled {s} (putter_receives x p r e) o =
      ground (arith, recv_part-closed plugin s.exchange x r)
  Step-IsSettled {s} (putter_fails_sending p r e) o =
      ground (arith, send_part-fails plugin s.exchange r)
  Step-IsSettled {s} (putter_fails_reporting p r e) o =
      ground (arith, err_part-fails plugin s.exchange r)
  Step-IsSettled (putter_leaves p c e) o = ground arith

  -- In every state that the four threads and the plugin reach from the start of `StreamMetrics`, on any
  -- channels that earlier streams left: each channel is as closed as at the start, or the thread that
  -- closes it has returned, after a cancellation; `PutSendMetsAndErrMsg` has ended by the exception of
  -- a closed channel only after a cancellation or where the channel of metrics or of errors was closed
  -- from the start; and `streamRecv` only where its channel was.
  pub Reach-IsSettled :
      {sender : Sender} {state : S} {s : System S}
      → Reach plugin clock (start sender channels state) s
      → IsSettled channels s
  Reach-IsSettled here = record {
    send = inl refl;
    err = inl refl;
    recv = inl refl;
    putter = inl refl;
    receiver = inl refl;
  }
  Reach-IsSettled (next r st) = Step-IsSettled st (Reach-IsSettled r)

  -- Where its channel is open at the start, `streamRecv` never meets a closed one: in a state that is
  -- reached, what it reads is accepted, whatever it is.
  stream_recv_body-ne-none :
      {sender : Sender} {state : S} {s : System S} (arg : CollectArg)
      → channels.recv_chan.closed ≡ false
      → Reach plugin clock (start sender channels state) s
      → s.receiver_pc ≡ ReceiverPc.reads
      → stream_recv_body arg (s.sender, s.exchange.recv_chan) ≢ none
  stream_recv_body-ne-none {s = s} arg open_ r p e =
      let o = Reach-IsSettled r in
      ground (arith, stream_recv_body-fails arg s.sender s.exchange.recv_chan e)

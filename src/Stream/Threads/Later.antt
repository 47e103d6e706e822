-- ===== src/Stream/Threads/Later.antt =====
-- A stream of a service whose channel of metrics an earlier stream closed: nothing opens it again.
use snap_plugin_lib_cpp.Base.{ℕ, ◌≡◌, refl, true, none, some, [], arith, if◌then◌else◌}
use snap_plugin_lib_cpp.Base.Int.{ℤ}
use snap_plugin_lib_cpp.Stream.Channel
use snap_plugin_lib_cpp.Stream.Send.{Sender}
use snap_plugin_lib_cpp.Stream.Receive.{Plugin, Exchange, send_part}
use snap_plugin_lib_cpp.Stream.Threads.{
  Channels, System, start, handing, Step, Reach, here, next, cancel, plugin_acts, sender_begins,
  sender_enters, sender_gets, sender_adds, sender_ends_batch, sender_times, sender_closes,
  error_enters, error_writes, error_misses, error_closes, receiver_enters, receiver_reads,
  receiver_fails, receiver_closes, putter_enters, putter_sends, putter_errs, putter_receives,
  putter_fails_sending, putter_fails_reporting, putter_leaves,
}
use snap_plugin_lib_cpp.Stream.Threads.Closing.{send_part-closed, err_part-closed, recv_part-closed}

module _ {S : Type 0} (plugin : Plugin S) (clock : ℕ → ℤ) where
  send_part-shut :
      (x : Exchange S)
      → x.send_chan.closed ≡ true
      → send_part plugin x ≡ (if plugin.put_mets x.state then none else some x)
  unfolding send_part Channel.put
  send_part-shut x shut = ground arith

  handing-shut :
      (x y : Exchange S)
      → x.send_chan.closed ≡ true
      → send_part plugin x ≡ some y
      → handing plugin x ≡ []
  handing-shut x y shut e = ground (arith, send_part-shut x shut)

  -- The channel is closed, and it accepted nothing.
  record IsShut (s : System S) : Type 0 where
    closed : s.exchange.send_chan.closed ≡ true
    nothing : s.handed ≡ []

  Step-IsShut : {s t : System S} → Step plugin clock s t → IsShut s → IsShut t
  unfolding Channel.close
  Step-IsShut (cancel e) h = ground arith
  Step-IsShut (plugin_acts state e) h = ground arith
  Step-IsShut (sender_begins p e) h = ground arith
  Step-IsShut (sender_enters p c e) h = ground arith
  Step-IsShut {s} (sender_gets got mets c p g e) h =
      ground (arith, Channel.get-closed [] true got mets s.exchange.send_chan c g)
  Step-IsShut (sender_adds had m ms p e) h = ground arith
  Step-IsShut (sender_ends_batch had p e) h = ground arith
  Step-IsShut (sender_times p e) h = ground arith
  Step-IsShut (sender_closes p c e) h = rw e (record { closed = refl; nothing = h.nothing })
  Step-IsShut (error_enters p c e) h = ground arith
  Step-IsShut (error_writes message c p g e) h = ground arith
  Step-IsShut (error_misses p g c e) h = ground arith
  Step-IsShut (error_closes p c e) h = ground arith
  Step-IsShut (receiver_enters p c e) h = ground arith
  Step-IsShut (receiver_reads arg sender c p r e) h = ground arith
  Step-IsShut (receiver_fails arg p r e) h = ground arith
  Step-IsShut (receiver_closes p c e) h = ground arith
  Step-IsShut (putter_enters p c e) h = ground arith
  Step-IsShut {s} (putter_sends x p r e) h =
      ground (arith, send_part-closed plugin s.exchange x r, handing-shut s.exchange x h.closed r)
  Step-IsShut {s} (putter_errs x p r e) h = ground (arith, err_part-closed plugin s.exchange x r)
  Step-IsShut {s} (putter_receives x p r e) h =
      ground (arith, recv_part-closed plugin s.exchange x r)
  Step-IsShut (putter_fails_sending p r e) h = ground arith
  Step-IsShut (putter_fails_reporting p r e) h = ground arith
  Step-IsShut (putter_leaves p c e) h = ground arith

  Reach-IsShut : {s t : System S} → Reach plugin clock s t → IsShut s → IsShut t
  Reach-IsShut here h = h
  Reach-IsShut (next r st) h = Step-IsShut st (Reach-IsShut r h)

  -- In every interleaving of the threads of a stream that finds the channel of metrics closed, as one
  -- after a stream whose `metricSend` returned does, not one metric that the plugin offers is accepted:
  -- in each state that is reached nothing was handed over, and `PutSendMetsAndErrMsg` would end by the
  -- exception of a closed channel at the next offer.
  pub Reach-shut :
      (sender : Sender) (channels : Channels) (state : S) (s : System S)
      → channels.send_chan.closed ≡ true
      → Reach plugin clock (start sender channels state) s
      → (s.handed ≡ [])
        × (send_part plugin s.exchange
            ≡ (if plugin.put_mets s.exchange.state then none else some s.exchange))
  Reach-shut sender channels state s shut r =
      let h = Reach-IsShut r (record { closed = shut; nothing = refl }) in
      (h.nothing, send_part-shut s.exchange h.closed)

-- ===== src/Stream/Threads/Capped.antt =====
-- The limit on the metrics of one reply, through all the threads of a stream and from the flag on.
use snap_plugin_lib_cpp.Base.{
  ℕ, ◌≤◌, ◌<◌, ◌≡◌, refl, inl, inr, ◌∙◌, Bool, false, [], ◌∷◌, ◌++◌, length, length-append, All,
  All-append, if_split, ◌&&◌, String, arith,
}
use snap_plugin_lib_cpp.Base.Int.{ℤ, pos, scale, ◌-ℤ◌, leb_ℤ, eqb_ℤ}
use snap_plugin_lib_cpp.Rpc
use snap_plugin_lib_cpp.Rpc.Stream.{CollectReply}
use snap_plugin_lib_cpp.Flags.{Flags, is_parsed_flag, get_flag_int64_value}
use snap_plugin_lib_cpp.Plugin.{Meta, StreamLimits, start_stream_collector}
use snap_plugin_lib_cpp.Stream.Send.{
  Sender, buffer, set_buffer, flush, send_metric, send_due, error_send_body,
}
use snap_plugin_lib_cpp.Stream.Send.Flow.{flush_cases, flush_lem}
use snap_plugin_lib_cpp.Stream.Receive.{Plugin, set_limits}
use snap_plugin_lib_cpp.Stream.Threads.{
  Channels, System, Step, start, stream_collector_impl, end_batch, cancel, plugin_acts,
  sender_begins, sender_enters, sender_gets, sender_adds, sender_ends_batch, sender_times,
  sender_closes, error_enters, error_writes, error_misses, error_closes, receiver_enters,
  receiver_reads, receiver_closes, receiver_fails, putter_enters, putter_sends, putter_errs,
  putter_receives, putter_fails_sending, putter_fails_reporting, putter_leaves,
}
use snap_plugin_lib_cpp.Stream.Threads.Effects.{stream_recv_body-same}

-- A system reached by steps that each leave the limit at `k`.
pub data Steady {S : Type 0} (plugin : Plugin S) (clock : ℕ → ℤ) (k : ℕ) (s : System S)
    : System S → Type 0 where
  here : Steady plugin clock k s s
  next :
      {t u : System S}
      → Steady plugin clock k s t
      → Step plugin clock t u
      → u.sender.max_metrics_buffer ≡ pos k
      → Steady plugin clock k s u

abbrev pub Fits : ℕ → CollectReply → Type 0
Fits k r = length r.metrics_reply.metrics ≤ k

-- Fewer than `k` metrics wait, and no reply on the stream has more than `k`.
pub record IsCapped (k : ℕ) (s : Sender) : Type 0 where
  pub room : length (buffer s) < k
  pub capped : All (Fits k) s.writes

module _ (k : ℕ) where
  moved : (s t : Sender) → t.writes ≡ s.writes → buffer t ≡ buffer s → IsCapped k s → IsCapped k t
  moved s t w b h = record { room = rw b h.room; capped = rw w h.capped }

  error_send_body-IsCapped :
      (message : String) (s : Sender) → IsCapped k s → IsCapped k (error_send_body message s)
  unfolding error_send_body
  error_send_body-IsCapped message s h = record {
    room = h.room;
    capped = All-append (Fits k) s.writes _ h.capped (omega (arith, h.room), tt);
  }

  module _ (clock : ℕ → ℤ) where
    flush-IsCapped :
        (s : Sender)
        → 0 < k
        → length (buffer s) ≤ k
        → All (Fits k) s.writes
        → IsCapped k (flush clock s)
    flush-IsCapped s positive fits capped = record {
      room = ground (arith, flush_lem clock s);
      capped = elim (flush_cases clock s (buffer s) refl) [
        | inl (_, same) ↦ rw same capped
        | inr (_, out) ↦
            rw out (All-append (Fits k) s.writes (s.collect_reply ∷ []) capped (fits, tt))
      ];
    }

    send_metric-IsCapped :
        (m : Rpc.Metric) (s : Sender)
        → s.max_metrics_buffer ≡ pos k
        → IsCapped k s
        → IsCapped k (send_metric clock m s)
    unfolding send_metric
    send_metric-IsCapped m s limit h =
        let s' = set_buffer (buffer s ++ (m ∷ [])) s in
        let grown = length-append (buffer s) (m ∷ []) in
        if_split (IsCapped k) (eqb_ℤ (pos (length (buffer s'))) s'.max_metrics_buffer)
          (λ full.
            flush-IsCapped s' (omega (arith, h.room)) (omega (arith, grown, h.room)) h.capped)
          (λ more. record { room = ground (arith, grown, limit, h.room); capped = h.capped })

    end_batch-IsCapped :
        (had : Bool) (s : Sender) → IsCapped k s → IsCapped k (end_batch clock had s)
    unfolding end_batch
    end_batch-IsCapped had s h =
        if_split (IsCapped k) (had && eqb_ℤ s.max_metrics_buffer (pos 0))
          (λ zero_. flush-IsCapped s (omega (arith, h.room)) (omega (arith, h.room)) h.capped)
          (λ more. h)

    send_due-IsCapped : (s : Sender) → IsCapped k s → IsCapped k (send_due clock s)
    unfolding send_due
    send_due-IsCapped s h =
        if_split (IsCapped k)
          (leb_ℤ (scale 1_000_000_000 s.max_collect_duration) (clock s.readings -ℤ s.start))
          (λ due. flush-IsCapped _ (omega (arith, h.room)) (omega (arith, h.room)) h.capped)
          (λ early. record { room = h.room; capped = h.capped })

    module _ {S : Type 0} (plugin : Plugin S) where
      Step-IsCapped :
          {s t : System S}
          → Step plugin clock s t
          → s.sender.max_metrics_buffer ≡ pos k
          → IsCapped k s.sender
          → IsCapped k t.sender
      unfolding set_limits
      Step-IsCapped (cancel e) l h = rw e h
      Step-IsCapped (plugin_acts state e) l h = rw e h
      Step-IsCapped {s} (sender_begins p e) l h = rw e (moved s.sender _ refl refl h)
      Step-IsCapped (sender_enters p c e) l h = rw e h
      Step-IsCapped (sender_gets got mets c p g e) l h = rw e h
      Step-IsCapped {s} (sender_adds had m ms p e) l h = rw e (send_metric-IsCapped m s.sender l h)
      Step-IsCapped {s} (sender_ends_batch had p e) l h = rw e (end_batch-IsCapped had s.sender h)
      Step-IsCapped {s} (sender_times p e) l h = rw e (send_due-IsCapped s.sender h)
      Step-IsCapped (sender_closes p c e) l h = rw e h
      Step-IsCapped (error_enters p c e) l h = rw e h
      Step-IsCapped {s} (error_writes message c p g e) l h =
          rw e (error_send_body-IsCapped message s.sender h)
      Step-IsCapped (error_misses p g c e) l h = rw e h
      Step-IsCapped (error_closes p c e) l h = rw e h
      Step-IsCapped (receiver_enters p c e) l h = rw e h
      Step-IsCapped {s} (receiver_reads arg sender c p r e) l h =
          let (w, b) = stream_recv_body-same arg s.sender sender s.exchange.recv_chan c r in
          rw e (moved s.sender sender w b h)
      Step-IsCapped {s} (receiver_fails arg p r e) l h = rw e (moved s.sender _ refl refl h)
      Step-IsCapped (receiver_closes p c e) l h = rw e h
      Step-IsCapped (putter_enters p c e) l h = rw e h
      Step-IsCapped (putter_sends x p r e) l h = rw e h
      Step-IsCapped (putter_errs x p r e) l h = rw e h
      Step-IsCapped (putter_receives x p r e) l h = rw e h
      Step-IsCapped (putter_fails_sending p r e) l h = rw e h
      Step-IsCapped (putter_fails_reporting p r e) l h = rw e h
      Step-IsCapped (putter_leaves p c e) l h = rw e h

      Steady-limit :
          {s t : System S}
          → Steady plugin clock k s t
          → s.sender.max_metrics_buffer ≡ pos k
          → t.sender.max_metrics_buffer ≡ pos k
      Steady-limit here l = l
      Steady-limit (next r st kept) l = kept

      Steady-IsCapped :
          {s t : System S}
          → Steady plugin clock k s t
          → s.sender.max_metrics_buffer ≡ pos k
          → IsCapped k s.sender
          → IsCapped k t.sender
      Steady-IsCapped here l h = h
      Steady-IsCapped (next r st kept) l h =
          Step-IsCapped st (Steady-limit r l) (Steady-IsCapped r l h)

start_stream_collector-limit :
    (cli : Flags) (limits : StreamLimits) (m : Meta)
    → is_parsed_flag "version" cli ≡ false
    → (start_stream_collector cli limits m).1.max_metrics_buffer
      ≡ get_flag_int64_value "max-metrics-buffer" cli
unfolding start_stream_collector
start_stream_collector-limit cli limits m served = ground arith

-- A streaming collector is started with the flag `max-metrics-buffer` above 0 and not for its version.
-- Then in every interleaving of the four threads of its stream, on any channels, that leaves that limit
-- as it is, no reply, also none with an error, has more metrics than the flag says, and fewer than that
-- wait.
pub start_stream_collector-IsCapped :
    {S : Type 0} (plugin : Plugin S) (clock : ℕ → ℤ) (k : ℕ) (cli : Flags) (limits : StreamLimits)
    (m : Meta) (channels : Channels) (state : S) (t : System S)
    → 0 < k
    → is_parsed_flag "version" cli ≡ false
    → get_flag_int64_value "max-metrics-buffer" cli ≡ pos k
    → Steady plugin clock k
        (start (stream_collector_impl (start_stream_collector cli limits m).1) channels state)
        t
    → IsCapped k t.sender
start_stream_collector-IsCapped plugin clock k cli limits m channels state t positive served flag
      r =
    Steady-IsCapped k clock plugin r (start_stream_collector-limit cli limits m served ∙ flag)
      (record { room = positive; capped = tt })

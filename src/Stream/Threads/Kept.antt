-- ===== src/Stream/Threads/Kept.antt =====
-- What each kind of step keeps of the delivery.
use snap_plugin_lib_cpp.Base.{
  map-append, ◌≡◌, ap, sym, ◌∙◌, true, false, List, [], ◌∷◌, ◌++◌, map, append-nil, append_assoc,
  concat, String,
}
use snap_plugin_lib_cpp.Rpc
use snap_plugin_lib_cpp.Rpc.Stream.{CollectReply}
use snap_plugin_lib_cpp.Metric.{Metric}
use snap_plugin_lib_cpp.Stream.Channel.{Channel}
use snap_plugin_lib_cpp.Stream.Send.{Sender, buffer, error_send_body}
use snap_plugin_lib_cpp.Stream.Send.Flow.{sent}
use snap_plugin_lib_cpp.Stream.Receive.{Exchange}
use snap_plugin_lib_cpp.Stream.Threads.{SenderPc, ErrorPc, PutterPc, System, rpcs}
use snap_plugin_lib_cpp.Stream.Threads.Replies.{
  marked, unmarked, in_hand, queued, error_text, IsDelivered, marked-append, sent-append, of_sender,
  of_sender_lem, Moves,
}

regroup :
    (a b c d e f g h : List Rpc.Metric)
    → b ++ c ≡ d ++ e
    → h ≡ e ++ f
    → (a ++ b) ++ (c ++ (f ++ g)) ≡ a ++ (d ++ (h ++ g))
regroup a b c d e f g h p q =
    append_assoc a b (c ++ (f ++ g))
    ∙ ap (λ x. a ++ x)
        (sym (append_assoc b c (f ++ g))
          ∙ ap (λ x. x ++ (f ++ g)) p
          ∙ append_assoc d e (f ++ g)
          ∙ ap (λ x. d ++ x) (sym (append_assoc e f g) ∙ ap (λ x. x ++ g) (sym q)))

module _ {S : Type 0} (s : System S) (h : IsDelivered s) where
  -- After a step of `metricSend` on the replies.
  pub sender-IsDelivered :
      (new : List Rpc.Metric) (t : Sender) (pc : SenderPc)
      → Moves new s.sender t
      → in_hand s.sender_pc ≡ new ++ in_hand pc
      → IsDelivered (record s { sender = t; sender_pc = pc })
  sender-IsDelivered new t pc m e =
      let (a, b, c) = of_sender_lem m.out in
      record {
        replies = h.replies ++ of_sender m.out;
        on_stream =
            map-append (λ p. p.1) h.replies (of_sender m.out)
            ∙ ap (λ rs. rs ++ unmarked (of_sender m.out)) h.on_stream
            ∙ ap (λ rs. s.sender.writes ++ rs) a
            ∙ sym m.writes;
        kept =
            ap (λ rs. sent rs ++ (buffer t ++ (in_hand pc ++ queued s.exchange)))
              (marked-append true h.replies (of_sender m.out)
                ∙ ap (λ rs. marked true h.replies ++ rs) b)
            ∙ ap (λ ms. ms ++ (buffer t ++ (in_hand pc ++ queued s.exchange)))
                (sent-append (marked true h.replies) m.out)
            ∙ regroup (sent (marked true h.replies)) (sent m.out) (buffer t) (buffer s.sender) new
                (in_hand pc) (queued s.exchange) (in_hand s.sender_pc) m.moved e
            ∙ h.kept;
        reported =
            ap (map error_text) (
              marked-append false h.replies (of_sender m.out)
              ∙ ap (λ rs. marked false h.replies ++ rs) c
              ∙ append-nil (marked false h.replies))
            ∙ h.reported;
      }

  -- After a step of `errorSend`.
  pub error-IsDelivered :
      (message : String) (x : Exchange S) (pc : ErrorPc)
      → x.send_chan ≡ s.exchange.send_chan
      → IsDelivered (record s {
        sender = error_send_body message s.sender;
        exchange = x;
        error_pc = pc;
        errors = s.errors ++ (message ∷ []);
      })
  unfolding error_send_body
  error-IsDelivered message x pc same =
      let r : CollectReply = record s.sender.collect_reply { error = record { error = message } } in
      record {
        replies = h.replies ++ ((false, r) ∷ []);
        on_stream =
            map-append (λ p. p.1) h.replies ((false, r) ∷ [])
            ∙ ap (λ rs. rs ++ (r ∷ [])) h.on_stream;
        kept =
            ap (λ rs. sent rs ++ (buffer s.sender ++ (in_hand s.sender_pc ++ queued x)))
              (marked-append true h.replies ((false, r) ∷ []) ∙ append-nil (marked true h.replies))
            ∙ ap
                (λ (c : Channel (List Metric)).
                  sent (marked true h.replies)
                  ++ (buffer s.sender ++ (in_hand s.sender_pc ++ rpcs (concat c.queue))))
                same
            ∙ h.kept;
        reported =
            ap (map error_text) (marked-append false h.replies ((false, r) ∷ []))
            ∙ map-append error_text (marked false h.replies) (r ∷ [])
            ∙ ap (λ es. es ++ (message ∷ [])) h.reported;
      }

  -- After a step that changes none of what the invariant speaks of.
  pub same-IsDelivered :
      (t : System S)
      → t.sender.writes ≡ s.sender.writes
      → buffer t.sender ≡ buffer s.sender
      → in_hand t.sender_pc ++ queued t.exchange ≡ in_hand s.sender_pc ++ queued s.exchange
      → t.handed ≡ s.handed
      → t.errors ≡ s.errors
      → IsDelivered t
  same-IsDelivered t w b q a e = record {
    replies = h.replies;
    on_stream = h.on_stream ∙ sym w;
    kept =
        ap (λ x. sent (marked true h.replies) ++ (x ++ (in_hand t.sender_pc ++ queued t.exchange)))
          b
        ∙ ap (λ x. sent (marked true h.replies) ++ (buffer s.sender ++ x)) q
        ∙ h.kept
        ∙ sym a;
    reported = h.reported ∙ sym e;
  }

  -- After the plugin has handed over some more.
  pub handed-IsDelivered :
      (x : Exchange S) (pc : PutterPc) (new : List Rpc.Metric)
      → queued x ≡ queued s.exchange ++ new
      → IsDelivered (record s { exchange = x; putter_pc = pc; handed = s.handed ++ new })
  handed-IsDelivered x pc new q = record {
    replies = h.replies;
    on_stream = h.on_stream;
    kept =
        ap (λ y. sent (marked true h.replies) ++ (buffer s.sender ++ (in_hand s.sender_pc ++ y))) q
        ∙ four (sent (marked true h.replies)) (buffer s.sender) (in_hand s.sender_pc)
            (queued s.exchange) new
        ∙ ap (λ y. y ++ new) h.kept;
    reported = h.reported;
  }
    where
      four :
          (a b c d e : List Rpc.Metric) → a ++ (b ++ (c ++ (d ++ e))) ≡ (a ++ (b ++ (c ++ d))) ++ e
      four a b c d e =
          ap (λ y. a ++ (b ++ y)) (sym (append_assoc c d e))
          ∙ ap (λ y. a ++ y) (sym (append_assoc b (c ++ d) e))
          ∙ sym (append_assoc a (b ++ (c ++ d)) e)

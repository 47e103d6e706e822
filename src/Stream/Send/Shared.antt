-- ===== src/Stream/Send/Shared.antt =====
-- The reply that `metricSend` and `errorSend` share (src/snap/proxy/stream_collector_proxy.cc), with the
-- statements of the two threads in any order: nothing keeps one thread from acting between the
-- `Write` and the `clear_metrics` of the other, or between its `set_error` and its `Write`.
use mathlib.Core.List.{Memᴰ}
use snap_plugin_lib_cpp.Base.{
  ◌≡◌, ◌≢◌, ◌⊎◌, refl, ap, sym, ◌∙◌, inl, inr, Bool, true, false, List, [], ◌∷◌, ◌++◌, append-nil,
  append_assoc, String,
}
use snap_plugin_lib_cpp.Rpc
use snap_plugin_lib_cpp.Rpc.Stream.{CollectReply}
use snap_plugin_lib_cpp.Stream.Send.Flow.{sent}

pub record Shared : Type 0 where
  pub collect_reply : CollectReply
  pub writes : List CollectReply
  -- `metricSend` is between `sendReply` and `clear_metrics`
  pub sent_reply : Bool
  -- `errorSend` is between `set_error` and `Write`
  pub set_error : Bool
  -- history: the metrics that were added
  pub added : List Rpc.Metric

abbrev pub waiting : Shared → List Rpc.Metric
waiting s = s.collect_reply.metrics_reply.metrics

abbrev pub with_metrics : List Rpc.Metric → CollectReply → CollectReply
with_metrics ms r = record r { metrics_reply = record r.metrics_reply { metrics = ms } }

abbrev pub with_error : String → CollectReply → CollectReply
with_error message r = record r { error = record { error = message } }

-- A statement of one of the two threads. (Which limit makes `metricSend` call `sendReply` is left open.)
pub data Act (s t : Shared) : Type 0 where
  adds :
      (m : Rpc.Metric)
      → s.sent_reply ≡ false
      → t ≡ record s {
        collect_reply = with_metrics (waiting s ++ (m ∷ [])) s.collect_reply;
        added = s.added ++ (m ∷ []);
      }
      → Act s t
  sends_nothing :
      s.sent_reply ≡ false → waiting s ≡ [] → t ≡ record s { sent_reply = true } → Act s t
  sends :
      s.sent_reply ≡ false
      → waiting s ≢ []
      → t ≡ record s { writes = s.writes ++ (s.collect_reply ∷ []); sent_reply = true }
      → Act s t
  clears :
      s.sent_reply ≡ true
      → t ≡ record s { collect_reply = with_metrics [] s.collect_reply; sent_reply = false }
      → Act s t
  sets_error :
      (message : String)
      → s.set_error ≡ false
      → t ≡ record s { collect_reply = with_error message s.collect_reply; set_error = true }
      → Act s t
  writes_error :
      s.set_error ≡ true
      → t ≡ record s { writes = s.writes ++ (s.collect_reply ∷ []); set_error = false }
      → Act s t

pub data Acts (s : Shared) : Shared → Type 0 where
  here : Acts s s
  next : {t u : Shared} → Acts s t → Act t u → Acts s u

-- Each metric that was added is in a reply or waits; behind `sendReply` what waits is in a reply too.
pub record IsCovered (s : Shared) : Type 0 where
  pub covered : (m : Rpc.Metric) → Memᴰ m s.added → Memᴰ m (sent s.writes) ⊎ Memᴰ m (waiting s)
  pub cleared :
      (s.sent_reply ≡ false) ⊎ ((m : Rpc.Metric) → Memᴰ m (waiting s) → Memᴰ m (sent s.writes))

left : {m : Rpc.Metric} (xs ys : List Rpc.Metric) → Memᴰ m xs → Memᴰ m (xs ++ ys)
left xs ys (Memᴰ.head e) = Memᴰ.head e
left (x ∷ xs) ys (Memᴰ.tail h) = Memᴰ.tail (left xs ys h)

right : {m : Rpc.Metric} (xs ys : List Rpc.Metric) → Memᴰ m ys → Memᴰ m (xs ++ ys)
right [] ys h = h
right (x ∷ xs) ys h = Memᴰ.tail (right xs ys h)

parts : {m : Rpc.Metric} (xs ys : List Rpc.Metric) → Memᴰ m (xs ++ ys) → Memᴰ m xs ⊎ Memᴰ m ys
parts [] ys h = inr h
parts (x ∷ xs) ys (Memᴰ.head e) = inl (Memᴰ.head e)
parts (x ∷ xs) ys (Memᴰ.tail h) = elim (parts xs ys h) [ inl a ↦ inl (Memᴰ.tail a) | inr b ↦ inr b ]

sent-write :
    (ws : List CollectReply) (r : CollectReply)
    → sent (ws ++ (r ∷ [])) ≡ sent ws ++ r.metrics_reply.metrics
sent-write [] r = append-nil r.metrics_reply.metrics
sent-write (w ∷ ws) r =
    ap (λ ms. w.metrics_reply.metrics ++ ms) (sent-write ws r)
    ∙ sym (append_assoc w.metrics_reply.metrics (sent ws) r.metrics_reply.metrics)

grow :
    {m : Rpc.Metric} (ws : List CollectReply) (r : CollectReply)
    → Memᴰ m (sent ws)
    → Memᴰ m (sent (ws ++ (r ∷ [])))
grow ws r h = rw (sent-write ws r) (left (sent ws) r.metrics_reply.metrics h)

Act-IsCovered : {s t : Shared} → Act s t → IsCovered s → IsCovered t
Act-IsCovered {s} (adds m p e) h = rw e (record {
  covered = λ x inside. elim (parts s.added (m ∷ []) inside) [
    | inl old ↦ elim (h.covered x old) [
      | inl out ↦ inl out
      | inr waits ↦ inr (left (waiting s) (m ∷ []) waits)
    ]
    | inr new ↦ inr (right (waiting s) (m ∷ []) new)
  ];
  cleared = inl p;
})
Act-IsCovered {s} (sends_nothing p none_ e) h = rw e (record {
  covered = h.covered;
  cleared = inr (λ x inside. absurd (elim (rw none_ at inside) [ ]));
})
Act-IsCovered {s} (sends p some_ e) h = rw e (record {
  covered = λ x inside. elim (h.covered x inside) [
    | inl out ↦ inl (grow s.writes s.collect_reply out)
    | inr waits ↦ inr waits
  ];
  cleared = inr (λ x waits.
      rw (sent-write s.writes s.collect_reply) (right (sent s.writes) (waiting s) waits));
})
Act-IsCovered {s} (clears p e) h = rw e (record {
  covered = λ x inside. elim (h.covered x inside) [
    | inl out ↦ inl out
    | inr waits ↦ elim h.cleared [ inl not_sent ↦ absurd (cc) | inr out ↦ inl (out x waits) ]
  ];
  cleared = inl refl;
})
Act-IsCovered {s} (sets_error message p e) h =
    rw e (record { covered = h.covered; cleared = h.cleared })
Act-IsCovered {s} (writes_error p e) h = rw e (record {
  covered = λ x inside. elim (h.covered x inside) [
    | inl out ↦ inl (grow s.writes s.collect_reply out)
    | inr waits ↦ inr waits
  ];
  cleared = elim h.cleared [
    | inl before ↦ inl before
    | inr out ↦ inr (λ x waits. grow s.writes s.collect_reply (out x waits))
  ];
})

-- However the statements of the two threads follow each other, no metric is lost: if nothing had been
-- added when they began, then each metric that was added is in a reply or waits, and while
-- `metricSend` is between `sendReply` and `clear_metrics` each one that waits is in a reply.
pub Acts-IsCovered : (s t : Shared) → s.added ≡ [] → s.sent_reply ≡ false → Acts s t → IsCovered t
Acts-IsCovered s t none_ idle here = record {
  covered = λ x inside. absurd (elim (rw none_ at inside) [ ]);
  cleared = inl idle;
}
Acts-IsCovered s t none_ idle (next {t = u} r a) = Act-IsCovered a (Acts-IsCovered s u none_ idle r)

-- Both threads are between their calls, and metrics wait. Then by an error that is written between the
-- `Write` and the `clear_metrics` of `metricSend` the metrics are written twice; and by a `Write` of
-- `metricSend` between the `set_error` and the `Write` of `errorSend` the message is written twice,
-- first with the metrics and then without.
pub reply_race :
    (s : Shared) (message : String)
    → s.sent_reply ≡ false
    → s.set_error ≡ false
    → waiting s ≢ []
    → ((t : Shared) × Acts s t
        × (t.added ≡ s.added)
        × (waiting t ≡ [])
        × (sent t.writes ≡ sent s.writes ++ (waiting s ++ waiting s)))
      × ((t : Shared) × Acts s t
          × (t.writes
              ≡ s.writes
                ++ (with_error message s.collect_reply
                    ∷ with_metrics [] (with_error message s.collect_reply)
                    ∷ [])))
reply_race s message idle quiet some_ =
    let reported = with_error message s.collect_reply in
    (
      (
        _,
        next
            (next (next (next here (sends idle some_ refl)) (sets_error message quiet refl))
              (writes_error refl refl))
            (clears refl refl),
        refl,
        refl,
        sent-write (s.writes ++ (s.collect_reply ∷ [])) reported
            ∙ ap (λ ms. ms ++ waiting s) (sent-write s.writes s.collect_reply)
            ∙ append_assoc (sent s.writes) (waiting s) (waiting s),
      ),
      (
        _,
        next
            (next (next (next here (sets_error message quiet refl)) (sends idle some_ refl))
              (clears refl refl))
            (writes_error refl refl),
        append_assoc s.writes (reported ∷ []) (with_metrics [] reported ∷ []),
      ),
    )

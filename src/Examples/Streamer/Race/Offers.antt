-- ===== src/Examples/Streamer/Race/Offers.antt =====
-- What the streaming collector offers, statement by statement.
use snap_plugin_lib_cpp.Base.{
  ℕ, zero, suc, ◌≡◌, ◌⊎◌, refl, inl, inr, Bool, true, false, none, some, List, [], ◌∷◌, map,
  get_elem?, All, All-append, if_split, is_empty, arith,
}
use snap_plugin_lib_cpp.Base.Int.{ℤ}
use snap_plugin_lib_cpp.Metric.{Metric, copy}
use snap_plugin_lib_cpp.Metric.Memo.{IsCoherent, blank}
use snap_plugin_lib_cpp.Examples.Types.{Conversions, IsTyping, metric_types-IsTyping}
use snap_plugin_lib_cpp.Examples.Streamer.{Rando, new_rando, fill}
use snap_plugin_lib_cpp.Examples.Streamer.Filled.{IsFilled, IsDone, fill_cases}
use snap_plugin_lib_cpp.Examples.Streamer.Race.{
  StreamPc, DrainPc, Threads, invalidate, assign, stream_test, drain_test, Act, stream_enters,
  stream_reads, stream_fills, stream_offers, drain_enters, drain_reads, drain_clears_message,
  drain_clears_metrics, drain_copies, drain_resets, hands_over, reports, cancels, OrderlyRun,
}
use snap_plugin_lib_cpp.Examples.Streamer.Race.Apart.{
  IsApart, streaming, resting, draining, is_waiting, threads, OrderlyRun-IsApart,
}

-- Past the reading of `_put_mets`.
abbrev is_past : DrainPc → Bool
is_past DrainPc.tests = false
is_past DrainPc.reads_get = false
is_past DrainPc.reads_put = false
is_past _ = true

module _ (c : Conversions) where
  -- The first elements are done.
  abbrev DoneUpTo : ℕ → List Metric → Type 0
  DoneUpTo zero ms = Unit {0}
  DoneUpTo (suc i) [] = Unit {0}
  DoneUpTo (suc i) (m ∷ ms) = IsDone c m × DoneUpTo i ms

  -- Those before the iterator.
  abbrev DoneBefore : StreamPc → List Metric → Type 0
  DoneBefore (StreamPc.fills i) ms = DoneUpTo i ms
  DoneBefore _ ms = Unit {0}

  assign-All :
      (P : Metric → Type 0) (i : ℕ) (m : Metric) (ms : List Metric)
      → P m
      → All P ms
      → All P (assign i m ms)
  assign-All P i m [] p h = tt
  assign-All P zero m (x ∷ ms) p (hx, hs) = (p, hs)
  assign-All P (suc i) m (x ∷ ms) p (hx, hs) = (hx, assign-All P i m ms p hs)

  assign-DoneUpTo :
      (i : ℕ) (m : Metric) (ms : List Metric)
      → IsDone c m
      → DoneUpTo i ms
      → DoneUpTo (suc i) (assign i m ms)
  assign-DoneUpTo i m [] d h = tt
  assign-DoneUpTo zero m (x ∷ ms) d h = (d, tt)
  assign-DoneUpTo (suc i) m (x ∷ ms) d (hx, hs) = (hx, assign-DoneUpTo i m ms d hs)

  get_elem?-All :
      (P : Metric → Type 0) (ms : List Metric) (i : ℕ) (m : Metric)
      → get_elem? ms i ≡ some m
      → All P ms
      → P m
  get_elem?-All P [] i m e h = absurd (cc)
  get_elem?-All P (x ∷ ms) zero m e (hx, hs) = let same : x ≡ m = cc in rw⁻¹ same hx
  get_elem?-All P (x ∷ ms) (suc i) m e (hx, hs) = get_elem?-All P ms i m e hs

  DoneUpTo-end :
      (i : ℕ) (ms : List Metric) → get_elem? ms i ≡ none → DoneUpTo i ms → All (IsDone c) ms
  DoneUpTo-end i [] e h = tt
  DoneUpTo-end zero (x ∷ ms) e h = absurd (cc)
  DoneUpTo-end (suc i) (x ∷ ms) e (hx, hs) = (hx, DoneUpTo-end i ms e hs)

  copies-IsCoherent : (ms : List Metric) → All IsCoherent (map copy ms)
  unfolding copy
  copies-IsCoherent [] = tt
  copies-IsCoherent (m ∷ ms) = (blank refl, copies-IsCoherent ms)

  DoneBefore-invalidate : (pc : StreamPc) (ms : List Metric) → DoneBefore (invalidate pc) ms
  DoneBefore-invalidate StreamPc.tests ms = tt
  DoneBefore-invalidate StreamPc.reads_out ms = tt
  DoneBefore-invalidate StreamPc.reads_get ms = tt
  DoneBefore-invalidate StreamPc.reads_put ms = tt
  DoneBefore-invalidate StreamPc.reads_err ms = tt
  DoneBefore-invalidate (StreamPc.fills i) ms = tt
  DoneBefore-invalidate StreamPc.dangles ms = tt

  DoneBefore-test :
      (pc : StreamPc) (s : Rando) (ms : List Metric)
      → DoneBefore pc ms
      → DoneBefore (stream_test pc s) ms
  DoneBefore-test StreamPc.tests s ms h = tt
  DoneBefore-test StreamPc.reads_out s ms h =
      if_split (λ pc. DoneBefore pc ms) (is_empty s.metrics_out) (λ _. tt) (λ _. tt)
  DoneBefore-test StreamPc.reads_get s ms h =
      if_split (λ pc. DoneBefore pc ms) s.get_mets (λ _. tt) (λ _. tt)
  DoneBefore-test StreamPc.reads_put s ms h =
      if_split (λ pc. DoneBefore pc ms) s.put_mets (λ _. tt) (λ _. tt)
  DoneBefore-test StreamPc.reads_err s ms h =
      if_split (λ pc. DoneBefore pc ms) s.put_err (λ _. tt) (λ _. tt)
  DoneBefore-test (StreamPc.fills i) s ms h = h
  DoneBefore-test StreamPc.dangles s ms h = h

  -- What is past the reading of `_put_mets` found it unset.
  is_past-test :
      (pc : DrainPc) (s : Rando)
      → (is_past pc ≡ false) ⊎ (s.put_mets ≡ false)
      → (is_past (drain_test pc s) ≡ false) ⊎ (s.put_mets ≡ false)
  is_past-test DrainPc.tests s h = inl refl
  is_past-test DrainPc.reads_get s h = inl (ground arith)
  is_past-test DrainPc.reads_put s h = ground arith
  is_past-test DrainPc.reads_err s (inl e) = absurd (cc)
  is_past-test DrainPc.reads_err s (inr e) = inr e
  is_past-test DrainPc.clears_message s h = h
  is_past-test DrainPc.clears_metrics s h = h
  is_past-test DrainPc.copies s h = h
  is_past-test DrainPc.resets s h = h

  record IsOffering (s : Threads) : Type 0 where
    typing : IsTyping s.rando.types
    no_error : s.rando.put_err ≡ false
    coherent : All IsCoherent s.rando.metrics_out
    offered : (s.rando.put_mets ≡ false) ⊎ All (IsDone c) s.rando.metrics_out
    before : DoneBefore s.stream_pc s.rando.metrics_out
    unset : (is_past s.drain_pc ≡ false) ⊎ (s.rando.put_mets ≡ false)

  -- The other thread is not past its test while this one is in its loop.
  apart-is_past :
      (s : Threads) (i : ℕ)
      → s.stream_pc ≡ StreamPc.fills i
      → IsApart s
      → is_past s.drain_pc ≡ false
  apart-is_past s i p (streaming v d g) = waits s.drain_pc d
    where
      waits : (pc : DrainPc) → is_waiting pc ≡ true → is_past pc ≡ false
      waits DrainPc.tests d = refl
      waits DrainPc.reads_get d = refl
      waits DrainPc.reads_put d = refl
      waits DrainPc.reads_err d = absurd (cc)
      waits DrainPc.clears_message d = absurd (cc)
      waits DrainPc.clears_metrics d = absurd (cc)
      waits DrainPc.copies d = absurd (cc)
      waits DrainPc.resets d = absurd (cc)
  apart-is_past s i p (resting q d) = absurd (cc)
  apart-is_past s i p (draining q g) = absurd (cc)

  stream_fills-IsOffering :
      (s : Threads) (clock : ℕ → ℤ) (r i : ℕ) (m m' : Metric) (rando : Rando)
      → s.stream_pc ≡ StreamPc.fills i
      → get_elem? s.rando.metrics_out i ≡ some m
      → fill c clock r i m s.rando ≡ some (m', rando)
      → IsOffering s
      → IsOffering (record s {
        rando = record rando { metrics_out = assign i m' rando.metrics_out };
        stream_pc = StreamPc.fills (suc i);
      })
  stream_fills-IsOffering s clock r i m m' rando p at f h =
      elim (fill_cases c clock r i m s.rando
        (get_elem?-All IsCoherent s.rando.metrics_out i m at h.coherent) h.typing) [
          | inl fails ↦ absurd (cc)
          | inr (m'', types, e, done, typed) ↦
              let same : record s.rando { types = types } ≡ rando = ground arith in
              let same_m : m'' ≡ m' = ground arith in
              let done' : IsDone c m' = rw⁻¹ same_m done in
              let ms = s.rando.metrics_out in
              rw⁻¹ same (record {
                typing = typed;
                no_error = h.no_error;
                coherent = assign-All IsCoherent i m' ms done'.1 h.coherent;
                offered = elim h.offered [
                  | inl unset ↦ inl unset
                  | inr all ↦ inr (assign-All (IsDone c) i m' ms done' all)
                ];
                before = assign-DoneUpTo i m' ms done' (rw p at h.before);
                unset = h.unset;
              })
        ]

  -- A step that leaves the vector.
  same :
      (s t : Threads)
      → t.rando.types ≡ s.rando.types
      → t.rando.put_err ≡ false
      → t.rando.metrics_out ≡ s.rando.metrics_out
      → (t.rando.put_mets ≡ false) ⊎ All (IsDone c) s.rando.metrics_out
      → DoneBefore t.stream_pc s.rando.metrics_out
      → (is_past t.drain_pc ≡ false) ⊎ (t.rando.put_mets ≡ false)
      → IsOffering s
      → IsOffering t
  same s t types quiet ms offered before unset h = record {
    typing = rw types h.typing;
    no_error = quiet;
    coherent = rw ms h.coherent;
    offered = rw ms offered;
    before = rw ms before;
    unset = unset;
  }

  Act-IsOffering : {s t : Threads} → Act c s t → IsApart s → IsOffering s → IsOffering t
  Act-IsOffering {s} (stream_enters p n e) a h =
      rw e (same s _ refl h.no_error refl h.offered tt h.unset h)
  Act-IsOffering {s} (stream_reads e) a h = rw e (
      same s _ refl h.no_error refl h.offered
        (DoneBefore-test s.stream_pc s.rando s.rando.metrics_out h.before) h.unset h)
  Act-IsOffering {s} (stream_fills clock r i m m' rando p at f e) a h =
      rw e (stream_fills-IsOffering s clock r i m m' rando p at f h)
  Act-IsOffering {s} (stream_offers i p at e) a h = rw e (
      same s _ refl h.no_error refl (inr (DoneUpTo-end i s.rando.metrics_out at (rw p at h.before)))
        tt (inl (apart-is_past s i p a)) h)
  Act-IsOffering {s} (drain_enters p n e) a h =
      rw e (same s _ refl h.no_error refl h.offered h.before (inl refl) h)
  Act-IsOffering {s} (drain_reads e) a h =
      rw e (
        same s _ refl h.no_error refl h.offered h.before (is_past-test s.drain_pc s.rando h.unset)
          h)
  Act-IsOffering {s} (drain_clears_message p e) a h =
      let unset : s.rando.put_mets ≡ false = ground (arith, h.unset) in
      rw e (same s _ refl h.no_error refl h.offered h.before (inr unset) h)
  Act-IsOffering {s} (drain_clears_metrics p e) a h =
      let unset : s.rando.put_mets ≡ false = ground (arith, h.unset) in
      rw e (record {
        typing = h.typing;
        no_error = h.no_error;
        coherent = tt;
        offered = inl unset;
        before = DoneBefore-invalidate s.stream_pc [];
        unset = inr unset;
      })
  Act-IsOffering {s} (drain_copies p e) a h =
      let unset : s.rando.put_mets ≡ false = ground (arith, h.unset) in
      rw e (record {
        typing = h.typing;
        no_error = h.no_error;
        coherent =
            All-append IsCoherent s.rando.metrics_out (map copy s.rando.metrics_in) h.coherent
              (copies-IsCoherent s.rando.metrics_in);
        offered = inl unset;
        before = DoneBefore-invalidate s.stream_pc _;
        unset = inr unset;
      })
  Act-IsOffering {s} (drain_resets p e) a h =
      rw e (same s _ refl h.no_error refl h.offered h.before (inl refl) h)
  Act-IsOffering {s} (hands_over p e) a h =
      rw e (same s _ refl h.no_error refl (inl refl) h.before (inr refl) h)
  Act-IsOffering {s} (reports p e) a h = rw e (same s _ refl refl refl h.offered h.before h.unset h)
  Act-IsOffering {s} (cancels e) a h =
      rw e (same s _ refl h.no_error refl h.offered h.before h.unset h)

  new_rando-IsApart : IsApart (threads new_rando)
  new_rando-IsApart = resting refl refl

  OrderlyRun-IsOffering : {t : Threads} → OrderlyRun c (threads new_rando) t → IsOffering t
  OrderlyRun-IsOffering OrderlyRun.here = record {
    typing = metric_types-IsTyping;
    no_error = refl;
    coherent = tt;
    offered = inl refl;
    before = tt;
    unset = inl refl;
  }
  OrderlyRun-IsOffering (OrderlyRun.act r a) =
      Act-IsOffering a (OrderlyRun-IsApart c r new_rando-IsApart) (OrderlyRun-IsOffering r)
  OrderlyRun-IsOffering (OrderlyRun.come {t} mets r p) =
      let h = OrderlyRun-IsOffering r in same t _ refl h.no_error refl h.offered h.before h.unset h

  done-IsFilled : (ms : List Metric) → All (IsDone c) ms → All (λ m. IsFilled c m.rpc) ms
  done-IsFilled [] h = tt
  done-IsFilled (m ∷ ms) (h, hs) = (h.0, done-IsFilled ms hs)

-- From a new collector, if metrics come in only while `stream_it` is before the test of its `while`: in
-- every interleaving of the statements of the two threads with the calls of the library, the flag of
-- an error is never set, so that the "Invalid type" of `stream_it` is never reported; and unless the
-- flag of an offer is unset, each metric in the vector that is offered has a datum of the type that the
-- fifth name of its namespace asks for.
pub OrderlyRun-IsFilled :
    (c : Conversions) (t : Threads)
    → OrderlyRun c (threads new_rando) t
    → (t.rando.put_err ≡ false)
      × ((t.rando.put_mets ≡ false) ⊎ All (λ m. IsFilled c m.rpc) t.rando.metrics_out)
OrderlyRun-IsFilled c t r =
    let h = OrderlyRun-IsOffering c r in
    (
      h.no_error,
      elim h.offered [
        | inl unset ↦ inl unset
        | inr all ↦ inr (done-IsFilled c t.rando.metrics_out all)
      ],
    )

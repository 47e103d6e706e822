-- ===== src/Examples/Streamer/Race/Apart.antt =====
-- When the two threads of the streaming collector keep apart, and when not.
use snap_plugin_lib_cpp.Base.{
  ℕ, zero, suc, ◌≤◌, ◌<◌, ◌≡◌, ◌≢◌, ◌⊎◌, refl, ap, ◌∙◌, Bool, Bool-cases, if_split, is_empty, inl,
  inr, true, false, some, Option-cases, List, [], ◌∷◌, map, get_elem?, length, arith,
}
use snap_plugin_lib_cpp.Base.Int.{ℤ}
use snap_plugin_lib_cpp.Namespace
use snap_plugin_lib_cpp.Metric
use snap_plugin_lib_cpp.Metric.{Metric, copy}
use snap_plugin_lib_cpp.Examples.Types.{Conversions, index, random_data}
use snap_plugin_lib_cpp.Examples.Streamer.{Rando, fill}
use snap_plugin_lib_cpp.Examples.Streamer.Race.{
  StreamPc, DrainPc, Threads, invalidate, assign, may_stream, may_drain, stream_test, drain_test,
  Act, stream_enters, stream_reads, drain_reads, stream_fills, stream_offers, drain_enters,
  drain_clears_message, drain_clears_metrics, drain_copies, drain_resets, hands_over, reports,
  cancels, Run, OrderlyRun,
}

-- Before the reading of `_get_mets`.
abbrev pub is_out : StreamPc → Bool
is_out StreamPc.tests = true
is_out StreamPc.reads_out = true
is_out StreamPc.reads_get = true
is_out _ = false

abbrev pub is_waiting : DrainPc → Bool
is_waiting DrainPc.tests = true
is_waiting DrainPc.reads_get = true
is_waiting _ = false

-- An iterator is within the vector.
abbrev IsValid : StreamPc → ℕ → Type 0
IsValid (StreamPc.fills i) n = i ≤ n
IsValid StreamPc.dangles n = ⊥
IsValid _ n = Unit {0}

-- While `stream_it` is past its reading of `_get_mets` the iterator is within the vector and the other
-- thread waits; the other thread is past that reading only while `_get_mets` is set.
pub data IsApart (s : Threads) : Type 0 where
  streaming :
      IsValid s.stream_pc (length s.rando.metrics_out)
      → is_waiting s.drain_pc ≡ true
      → s.rando.get_mets ≡ false
      → IsApart s
  resting : is_out s.stream_pc ≡ true → is_waiting s.drain_pc ≡ true → IsApart s
  draining : is_out s.stream_pc ≡ true → s.rando.get_mets ≡ true → IsApart s

length-assign : (i : ℕ) (m : Metric) (ms : List Metric) → length (assign i m ms) ≡ length ms
length-assign i m [] = refl
length-assign zero m (x ∷ xs) = refl
length-assign (suc i) m (x ∷ xs) = ap suc (length-assign i m xs)

get_elem?-length : (ms : List Metric) (i : ℕ) (m : Metric) → get_elem? ms i ≡ some m → i < length ms
get_elem?-length [] i m e = absurd (cc)
get_elem?-length (x ∷ xs) zero m e = omega arith
get_elem?-length (x ∷ xs) (suc i) m e = omega (arith, get_elem?-length xs i m e)

module _ (c : Conversions) where
  fill_keeps :
      (clock : ℕ → ℤ) (r i : ℕ) (m m' : Metric) (s s' : Rando)
      → fill c clock r i m s ≡ some (m', s')
      → (s'.get_mets ≡ s.get_mets) × (s'.metrics_out ≡ s.metrics_out)
  unfolding fill
  fill_keeps clock r i m m' s s' e = elim (Option-cases (Namespace.at (Metric.ns m).0 4)) [
    | inl missing ↦ absurd (ground arith)
    | inr (element, found) ↦ elim (Option-cases (random_data c r (index element.value s.types).0)) [
      | inl none_ ↦ ground arith
      | inr (v, drawn) ↦ ground arith
    ]
  ]

  -- What concerns the two threads stays.
  kept :
      (s t : Threads)
      → t.stream_pc ≡ s.stream_pc
      → t.drain_pc ≡ s.drain_pc
      → t.rando.get_mets ≡ s.rando.get_mets
      → t.rando.metrics_out ≡ s.rando.metrics_out
      → IsApart s
      → IsApart t
  kept s t a b g o (streaming v d n) = streaming (rw (a, o) v) (ap is_waiting b ∙ d) (g ∙ n)
  kept s t a b g o (resting p d) = resting (ap is_out a ∙ p) (ap is_waiting b ∙ d)
  kept s t a b g o (draining p n) = draining (ap is_out a ∙ p) (g ∙ n)

  -- A reading of `stream_it`.
  stream_test-IsValid :
      (pc : StreamPc) (s : Rando) (n : ℕ) → IsValid pc n → IsValid (stream_test pc s) n
  stream_test-IsValid StreamPc.tests s n v = tt
  stream_test-IsValid StreamPc.reads_out s n v =
      if_split (λ pc. IsValid pc n) (is_empty s.metrics_out) (λ _. tt) (λ _. tt)
  stream_test-IsValid StreamPc.reads_get s n v =
      if_split (λ pc. IsValid pc n) s.get_mets (λ _. tt) (λ _. tt)
  stream_test-IsValid StreamPc.reads_put s n v =
      if_split (λ pc. IsValid pc n) s.put_mets (λ _. tt) (λ _. tt)
  stream_test-IsValid StreamPc.reads_err s n v =
      if_split (λ pc. IsValid pc n) s.put_err (λ _. tt) (λ _. omega arith)
  stream_test-IsValid (StreamPc.fills i) s n v = v
  stream_test-IsValid StreamPc.dangles s n v = v

  stream_test-is_out :
      (pc : StreamPc) (s : Rando)
      → is_out pc ≡ true
      → (is_out (stream_test pc s) ≡ true) ⊎ ((pc ≡ StreamPc.reads_get) × (s.get_mets ≡ false))
  stream_test-is_out StreamPc.tests s p = inl refl
  stream_test-is_out StreamPc.reads_out s p = inl (ground arith)
  stream_test-is_out StreamPc.reads_get s p = elim (Bool-cases s.get_mets) [
    | inl set ↦ inl (rw set refl)
    | inr unset ↦ inr (refl, unset)
  ]
  stream_test-is_out StreamPc.reads_put s p = absurd (cc)
  stream_test-is_out StreamPc.reads_err s p = absurd (cc)
  stream_test-is_out (StreamPc.fills i) s p = absurd (cc)
  stream_test-is_out StreamPc.dangles s p = absurd (cc)

  drain_test-is_waiting :
      (pc : DrainPc) (s : Rando)
      → is_waiting pc ≡ true
      → (is_waiting (drain_test pc s) ≡ true) ⊎ (s.get_mets ≡ true)
  drain_test-is_waiting DrainPc.tests s p = inl refl
  drain_test-is_waiting DrainPc.reads_get s p = ground arith
  drain_test-is_waiting DrainPc.reads_put s p = absurd (cc)
  drain_test-is_waiting DrainPc.reads_err s p = absurd (cc)
  drain_test-is_waiting DrainPc.clears_message s p = absurd (cc)
  drain_test-is_waiting DrainPc.clears_metrics s p = absurd (cc)
  drain_test-is_waiting DrainPc.copies s p = absurd (cc)
  drain_test-is_waiting DrainPc.resets s p = absurd (cc)

  stream_reads-IsApart :
      (s : Threads) → IsApart s → IsApart (record s { stream_pc = stream_test s.stream_pc s.rando })
  stream_reads-IsApart s (streaming v d g) =
      streaming (stream_test-IsValid s.stream_pc s.rando (length s.rando.metrics_out) v) d g
  stream_reads-IsApart s (resting p d) = elim (stream_test-is_out s.stream_pc s.rando p) [
    | inl out ↦ resting out d
    | inr (at, unset) ↦ streaming (rw (at, unset) tt) d unset
  ]
  stream_reads-IsApart s (draining p g) = elim (stream_test-is_out s.stream_pc s.rando p) [
    | inl out ↦ draining out g
    | inr (at, unset) ↦ absurd (cc)
  ]

  drain_reads-IsApart :
      (s : Threads) → IsApart s → IsApart (record s { drain_pc = drain_test s.drain_pc s.rando })
  drain_reads-IsApart s (streaming v d g) = elim (drain_test-is_waiting s.drain_pc s.rando d) [
    | inl waits ↦ streaming v waits g
    | inr set ↦ absurd (cc)
  ]
  drain_reads-IsApart s (resting p d) = elim (drain_test-is_waiting s.drain_pc s.rando d) [
    | inl waits ↦ resting p waits
    | inr set ↦ draining p set
  ]
  drain_reads-IsApart s (draining p g) = draining p g

  -- A statement of `drain_metrics` behind its test.
  invalidate-is_out : (pc : StreamPc) → is_out pc ≡ true → is_out (invalidate pc) ≡ true
  invalidate-is_out StreamPc.tests p = p
  invalidate-is_out StreamPc.reads_out p = p
  invalidate-is_out StreamPc.reads_get p = p
  invalidate-is_out StreamPc.reads_put p = p
  invalidate-is_out StreamPc.reads_err p = p
  invalidate-is_out (StreamPc.fills i) p = absurd (cc)
  invalidate-is_out StreamPc.dangles p = p

  drained :
      (s t : Threads)
      → is_waiting s.drain_pc ≡ false
      → t.stream_pc ≡ invalidate s.stream_pc
      → t.rando.get_mets ≡ s.rando.get_mets
      → IsApart s
      → IsApart t
  drained s t busy a g (streaming v d n) = absurd (cc)
  drained s t busy a g (resting p d) = absurd (cc)
  drained s t busy a g (draining p n) =
      draining (ap is_out a ∙ invalidate-is_out s.stream_pc p) (g ∙ n)

  filled :
      (s t : Threads) (i : ℕ)
      → s.stream_pc ≡ StreamPc.fills i
      → IsValid t.stream_pc (length t.rando.metrics_out)
      → t.drain_pc ≡ s.drain_pc
      → t.rando.get_mets ≡ s.rando.get_mets
      → IsApart s
      → IsApart t
  filled s t i p v d g (streaming v' d' n) = streaming v (ap is_waiting d ∙ d') (g ∙ n)
  filled s t i p v d g (resting q d') = absurd (cc)
  filled s t i p v d g (draining q n) = absurd (cc)

  Act-IsApart : {s t : Threads} → Act c s t → IsApart s → IsApart t
  Act-IsApart (stream_enters p n e) (streaming v d g) = rw e (streaming tt d g)
  Act-IsApart (stream_enters p n e) (resting q d) = rw e (resting refl d)
  Act-IsApart (stream_enters p n e) (draining q g) = rw e (draining refl g)
  Act-IsApart {s} (stream_reads e) h = rw e (stream_reads-IsApart s h)
  Act-IsApart {s} (stream_fills clock r i m m' rando p at f e) h =
      let (gets, outs) = fill_keeps clock r i m m' s.rando rando f in
      rw e (
        filled s _ i p
          (ground (
            arith,
            length-assign i m' rando.metrics_out,
            outs,
            get_elem?-length s.rando.metrics_out i m at,
          ))
          refl gets h)
  Act-IsApart {s} (stream_offers i p at e) h = rw e (filled s _ i p tt refl refl h)
  Act-IsApart (drain_enters p n e) (streaming v d g) = rw e (streaming v refl g)
  Act-IsApart (drain_enters p n e) (resting q d) = rw e (resting q refl)
  Act-IsApart (drain_enters p n e) (draining q g) = rw e (draining q g)
  Act-IsApart {s} (drain_reads e) h = rw e (drain_reads-IsApart s h)
  Act-IsApart {s} (drain_clears_message p e) (streaming v d g) = absurd (cc)
  Act-IsApart {s} (drain_clears_message p e) (resting q d) = absurd (cc)
  Act-IsApart {s} (drain_clears_message p e) (draining q g) = rw e (draining q g)
  Act-IsApart {s} (drain_clears_metrics p e) h = rw e (drained s _ (ap is_waiting p) refl refl h)
  Act-IsApart {s} (drain_copies p e) h = rw e (drained s _ (ap is_waiting p) refl refl h)
  Act-IsApart {s} (drain_resets p e) (streaming v d g) = absurd (cc)
  Act-IsApart {s} (drain_resets p e) (resting q d) = absurd (cc)
  Act-IsApart {s} (drain_resets p e) (draining q g) = rw e (resting q refl)
  Act-IsApart {s} (hands_over p e) h = rw e (kept s _ refl refl refl refl h)
  Act-IsApart {s} (reports p e) h = rw e (kept s _ refl refl refl refl h)
  Act-IsApart {s} (cancels e) h = rw e (kept s _ refl refl refl refl h)

  pub OrderlyRun-IsApart : {s t : Threads} → OrderlyRun c s t → IsApart s → IsApart t
  OrderlyRun-IsApart OrderlyRun.here h = h
  OrderlyRun-IsApart (OrderlyRun.act r a) h = Act-IsApart a (OrderlyRun-IsApart r h)
  OrderlyRun-IsApart (OrderlyRun.come mets r p) h = draining (ap is_out p) refl

-- The two threads before their loops.
abbrev pub threads : Rando → Threads
threads rando = record { rando = rando; stream_pc = StreamPc.tests; drain_pc = DrainPc.tests }

-- If metrics come in only while `stream_it` is before the test of its `while`, then in every
-- interleaving, in which each flag is read on its own, its iterator stays valid and within the vector,
-- and `drain_metrics` is not past its reading of `_get_mets` while `stream_it` is.
pub OrderlyRun-ne-dangles :
    (c : Conversions) (rando : Rando) (t : Threads)
    → OrderlyRun c (threads rando) t
    → IsApart t × (t.stream_pc ≢ StreamPc.dangles)
OrderlyRun-ne-dangles c rando t r =
    let apart = OrderlyRun-IsApart c r (resting refl refl) in (apart, valid t apart)
  where
    valid : (s : Threads) → IsApart s → s.stream_pc ≢ StreamPc.dangles
    valid s (streaming v d n) e = let none_ : ⊥ = rw e at v in absurd none_
    valid s (resting p d) e = cc
    valid s (draining p n) e = cc

-- A thread that is not interrupted passes its tests.
module _ (c : Conversions) (P : Threads → Type 0)
    (act : (t u : Threads) → P t → Act c t u → P u) where
  streams_in :
      (s : Threads)
      → s.stream_pc ≡ StreamPc.tests
      → s.rando.context_cancelled ≡ false
      → may_stream s.rando ≡ true
      → P s
      → P (record s { stream_pc = StreamPc.fills 0 })
  streams_in s p alive idle r =
      let at : StreamPc → Threads = λ pc. record s { stream_pc = pc } in
      let r₁ : P (at StreamPc.reads_out) = act _ _ r (stream_enters p alive refl) in
      let r₂ : P (at StreamPc.reads_get) = act _ _ r₁ (stream_reads (ap at (ground arith))) in
      let r₃ : P (at StreamPc.reads_put) = act _ _ r₂ (stream_reads (ap at (ground arith))) in
      let r₄ : P (at StreamPc.reads_err) = act _ _ r₃ (stream_reads (ap at (ground arith))) in
      act _ _ r₄ (stream_reads (ap at (ground arith)))

  drains_in :
      (s : Threads)
      → s.drain_pc ≡ DrainPc.tests
      → s.rando.context_cancelled ≡ false
      → may_drain s.rando ≡ true
      → P s
      → P (record s { drain_pc = DrainPc.clears_message })
  drains_in s p alive idle r =
      let at : DrainPc → Threads = λ pc. record s { drain_pc = pc } in
      let r₁ : P (at DrainPc.reads_get) = act _ _ r (drain_enters p alive refl) in
      let r₂ : P (at DrainPc.reads_put) = act _ _ r₁ (drain_reads (ap at (ground arith))) in
      let r₃ : P (at DrainPc.reads_err) = act _ _ r₂ (drain_reads (ap at (ground arith))) in
      act _ _ r₃ (drain_reads (ap at (ground arith)))

-- A collector that is not cancelled has metrics to send, no flag is set, and both threads are before
-- their tests. Then there is an interleaving in which some metrics come in while `stream_it` is in its
-- loop, and the loop holds an iterator into the vector that was cleared; and there is one without that
-- in which metrics that come in while `drain_metrics` copies the last ones are lost: the vector to send
-- has copies of those, the new ones wait in the vector of what came in, and the test of
-- `drain_metrics`, before which it stands, fails.
pub threads_race :
    (c : Conversions) (rando : Rando) (old new : List Metric)
    → rando.context_cancelled ≡ false
    → may_stream rando ≡ true
    → ((t : Threads) × Run c (threads rando) t × (t.stream_pc ≡ StreamPc.dangles))
      × ((t : Threads) × OrderlyRun c (threads rando) t
          × (t.rando.metrics_out ≡ map copy (map copy old))
          × (t.rando.metrics_in ≡ map copy new)
          × (may_drain t.rando ≡ false)
          × (t.drain_pc ≡ DrainPc.tests))
threads_race c rando old new alive idle =
    let free : may_drain (record rando { get_mets = true }) ≡ true = ground arith in
    let s = threads rando in
    let run : (t u : Threads) → Run c s t → Act c t u → Run c s u = λ t u r a. Run.act r a in
    let orderly : (t u : Threads) → OrderlyRun c s t → Act c t u → OrderlyRun c s u =
      λ t u r a. OrderlyRun.act r a in
    (
      (
        _,
        Run.act
            (Run.act
              (drains_in c (Run c s) run _ refl alive free
                (Run.come new (streams_in c (Run c s) run s refl alive idle Run.here)))
              (drain_clears_message refl refl))
            (drain_clears_metrics refl refl),
        refl,
      ),
      (
        _,
        OrderlyRun.act
            (OrderlyRun.come new
              (OrderlyRun.act
                (OrderlyRun.act
                  (OrderlyRun.act
                    (drains_in c (OrderlyRun c s) orderly _ refl alive free
                      (OrderlyRun.come old OrderlyRun.here refl))
                    (drain_clears_message refl refl))
                  (drain_clears_metrics refl refl))
                (drain_copies refl refl))
              refl)
            (drain_resets refl refl),
        refl,
        refl,
        refl,
        refl,
      ),
    )

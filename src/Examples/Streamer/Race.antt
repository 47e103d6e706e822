-- ===== src/Examples/Streamer/Race.antt =====
-- `stream_it` and `drain_metrics` of examples/streaming-collector/src/rando.cc statement by statement, and not
-- round by round: the loop over `_metrics_out` holds an iterator, which `clear` and `push_back` of the other
-- thread invalidate. Each flag of a test is read in a step of its own.
pub mod Apart
pub mod Offers
use snap_plugin_lib_cpp.Base.{
  ℕ, zero, suc, ◌≡◌, Bool, true, false, not, ◌&&◌, Option, none, some, List, [], ◌∷◌, ◌++◌, map,
  get_elem?, is_empty, if◌then◌else◌,
}
use snap_plugin_lib_cpp.Base.Int.{ℤ}
use snap_plugin_lib_cpp.Metric.{Metric, copy}
use snap_plugin_lib_cpp.Examples.Types.{Conversions}
use snap_plugin_lib_cpp.Examples.Streamer.{Rando, rando_plugin, fill}

-- `stream_it`: before the test of its `while`, before one of the four readings of its `if`, at the
-- element that its iterator names, or with an iterator that is no longer valid.
pub data StreamPc : Type 0 where
  tests reads_out reads_get reads_put reads_err dangles : StreamPc
  fills : ℕ → StreamPc

-- `drain_metrics`: before the test of its `while`, before one of the three readings of its `if`, or
-- before one of its four statements.
pub data DrainPc : Type 0 where
  tests reads_get reads_put reads_err clears_message clears_metrics copies resets : DrainPc

pub record Threads : Type 0 where
  pub rando : Rando
  pub stream_pc : StreamPc
  pub drain_pc : DrainPc

-- An iterator of `stream_it` after `_metrics_out` was changed by the other thread.
abbrev pub invalidate : StreamPc → StreamPc
invalidate (StreamPc.fills i) = StreamPc.dangles
invalidate pc = pc

-- `*mets_iter` for the iterator at an index within the list.
abbrev pub assign : ℕ → Metric → List Metric → List Metric
assign i m [] = []
assign zero m (x ∷ xs) = m ∷ xs
assign (suc i) m (x ∷ xs) = x ∷ assign i m xs

-- The two tests as a whole.
abbrev pub may_stream : Rando → Bool
may_stream s = not (is_empty s.metrics_out) && (not s.get_mets && (not s.put_mets && not s.put_err))

abbrev pub may_drain : Rando → Bool
may_drain s = s.get_mets && (not s.put_mets && not s.put_err)

-- One reading of the `if` of `stream_it`, and where it leads.
abbrev pub stream_test : StreamPc → Rando → StreamPc
stream_test StreamPc.reads_out s =
    if is_empty s.metrics_out then StreamPc.tests else StreamPc.reads_get
stream_test StreamPc.reads_get s = if s.get_mets then StreamPc.tests else StreamPc.reads_put
stream_test StreamPc.reads_put s = if s.put_mets then StreamPc.tests else StreamPc.reads_err
stream_test StreamPc.reads_err s = if s.put_err then StreamPc.tests else StreamPc.fills 0
stream_test pc s = pc

-- The same for `drain_metrics`.
abbrev pub drain_test : DrainPc → Rando → DrainPc
drain_test DrainPc.reads_get s = if s.get_mets then DrainPc.reads_put else DrainPc.tests
drain_test DrainPc.reads_put s = if s.put_mets then DrainPc.tests else DrainPc.reads_err
drain_test DrainPc.reads_err s = if s.put_err then DrainPc.tests else DrainPc.clears_message
drain_test pc s = pc

-- A statement of one of the two threads, or a call of the library that takes something out.
pub data Act (c : Conversions) (s t : Threads) : Type 0 where
  stream_enters :
      s.stream_pc ≡ StreamPc.tests
      → s.rando.context_cancelled ≡ false
      → t ≡ record s { stream_pc = StreamPc.reads_out }
      → Act c s t
  stream_reads : t ≡ record s { stream_pc = stream_test s.stream_pc s.rando } → Act c s t
  stream_fills :
      (clock : ℕ → ℤ) (random_value i : ℕ) (m m' : Metric) (rando : Rando)
      → s.stream_pc ≡ StreamPc.fills i
      → get_elem? s.rando.metrics_out i ≡ some m
      → fill c clock random_value i m s.rando ≡ some (m', rando)
      → t ≡ record s {
        rando = record rando { metrics_out = assign i m' rando.metrics_out };
        stream_pc = StreamPc.fills (suc i);
      }
      → Act c s t
  stream_offers :
      (i : ℕ)
      → s.stream_pc ≡ StreamPc.fills i
      → get_elem? s.rando.metrics_out i ≡ none
      → t ≡ record s { rando = record s.rando { put_mets = true }; stream_pc = StreamPc.tests }
      → Act c s t
  drain_enters :
      s.drain_pc ≡ DrainPc.tests
      → s.rando.context_cancelled ≡ false
      → t ≡ record s { drain_pc = DrainPc.reads_get }
      → Act c s t
  drain_reads : t ≡ record s { drain_pc = drain_test s.drain_pc s.rando } → Act c s t
  drain_clears_message :
      s.drain_pc ≡ DrainPc.clears_message
      → t ≡ record s { rando = record s.rando { err_msg = "" }; drain_pc = DrainPc.clears_metrics }
      → Act c s t
  drain_clears_metrics :
      s.drain_pc ≡ DrainPc.clears_metrics
      → t ≡ record {
        rando = record s.rando { metrics_out = [] };
        stream_pc = invalidate s.stream_pc;
        drain_pc = DrainPc.copies;
      }
      → Act c s t
  drain_copies :
      s.drain_pc ≡ DrainPc.copies
      → t ≡ record {
        rando = record s.rando { metrics_out = s.rando.metrics_out ++ map copy s.rando.metrics_in };
        stream_pc = invalidate s.stream_pc;
        drain_pc = DrainPc.resets;
      }
      → Act c s t
  drain_resets :
      s.drain_pc ≡ DrainPc.resets
      → t ≡ record s { rando = record s.rando { get_mets = false }; drain_pc = DrainPc.tests }
      → Act c s t
  hands_over :
      s.rando.put_mets ≡ true
      → t ≡ record s { rando = rando_plugin.set_put_mets false s.rando }
      → Act c s t
  reports :
      s.rando.put_err ≡ true
      → t ≡ record s { rando = rando_plugin.set_put_err false s.rando }
      → Act c s t
  cancels : t ≡ record s { rando = rando_plugin.set_context_cancelled true s.rando } → Act c s t

-- `get_metrics_in`, which the library calls.
abbrev pub bring : List Metric → Threads → Threads
bring mets s = record s { rando = (rando_plugin.get_metrics_in mets s.rando).1 }

-- Any interleaving.
pub data Run (c : Conversions) (s : Threads) : Threads → Type 0 where
  here : Run c s s
  act : {t u : Threads} → Run c s t → Act c t u → Run c s u
  come : {t : Threads} (mets : List Metric) → Run c s t → Run c s (bring mets t)

-- One in which metrics come in only while `stream_it` is before the test of its `while`.
pub data OrderlyRun (c : Conversions) (s : Threads) : Threads → Type 0 where
  here : OrderlyRun c s s
  act : {t u : Threads} → OrderlyRun c s t → Act c t u → OrderlyRun c s u
  come :
      {t : Threads} (mets : List Metric)
      → OrderlyRun c s t
      → t.stream_pc ≡ StreamPc.tests
      → OrderlyRun c s (bring mets t)

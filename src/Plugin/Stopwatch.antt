-- ===== src/Plugin/Stopwatch.antt =====
-- Stopwatch of src/snap/plugin.h and plugin.cc. A reading of the clock is its count of microseconds;
-- the quotient of a whole number and 1000.00, truncated again, is the quotient of whole numbers as
-- long as the count is exact in a `double`.
use snap_plugin_lib_cpp.Base.Int.{ℤ, pos, pos_part, ltb_ℤ, ◌-ℤ◌}
use snap_plugin_lib_cpp.Base.{
  ℕ, ◌+◌, ◌/◌, ◌≡◌, Bool, true, false, String, ltb, if◌then◌else◌, arith,
}

pub record Stopwatch : Type 0 where
  pub begin : ℤ
  pub end : ℤ
  pub started : Bool
  pub stopped : Bool
  pub unit : String

abbrev pub new_stopwatch : Stopwatch
new_stopwatch = record { begin = pos 0; end = pos 0; started = false; stopped = false; unit = "µs" }

unfoldable pub start : ℤ → Stopwatch → Stopwatch
start now w = record w { begin = now; started = true }

unfoldable pub stop : ℤ → Stopwatch → Stopwatch
stop now w = record w { end = now; stopped = true }

-- One of the two steps `if (result > 1000.00) { result /= 1000.00; unit = …; }`
scale_down : String → ℤ × String → ℤ × String
scale_down larger (result, unit) =
    if ltb_ℤ (pos 1000) result then (pos (pos_part result / 1000), larger) else (result, unit)

-- `print_elapsed`, at the two readings of the clock that it may take: the number and the unit that
-- it prints, and the stopwatch after it.
unfoldable pub print_elapsed : ℤ → ℤ → Stopwatch → (ℤ × String) × Stopwatch
unfolding scale_down start stop ◌-ℤ◌
print_elapsed n k w =
    let w₁ = if w.started then w else start n w in
    let w₂ = if w₁.stopped then w₁ else stop k w₁ in
    let printed = scale_down "s" (scale_down "ms" (w₂.end -ℤ w₂.begin, w₂.unit)) in
    (printed, record w₂ { unit = printed.1 })

-- A new stopwatch that was started at `n` and prints at `n + d` shows `d` in the largest unit in
-- which the number stays above zero: microseconds up to 1000, milliseconds up to 1000, or seconds,
-- rounded down.
print_elapsed_lem :
    (n d : ℕ) (k : ℤ)
    → (print_elapsed k (pos (n + d)) (start (pos n) new_stopwatch)).0 ≡ (
        if ltb 1_000_999 d
        then (pos (d / 1_000_000), "s")
        else if ltb 1000 d
        then (pos (d / 1000), "ms")
        else (pos d, "µs"))
unfolding print_elapsed
print_elapsed_lem n d k = ground arith

-- ===== src/Metric/Clock.antt =====
-- The time stamps of a metric (src/snap/metric.cc). A time point is the `int64_t` count of
-- nanoseconds since 1970 of `system_clock`; an overflow of that count is undefined behaviour, `none`.
use snap_plugin_lib_cpp.Base.{
  ℕ, ◌+◌, ◌*◌, ◌/◌, ◌%◌, ◌^◌, ◌<◌, ◌≡◌, ap, ◌∙◌, ◌-◌, Option, none, some, ltb, leb, arith,
  if◌then◌else◌, ◌&&◌,
}
use snap_plugin_lib_cpp.Base.Int.{
  ℤ, pos, negsuc, pos_part, neg_part, to_uint64, scale, ◌+ℤ◌, leb_ℤ, IsInt64,
}
use snap_plugin_lib_cpp.Rpc
use snap_plugin_lib_cpp.Metric.{Metric}

-- `std::nano::den`
abbrev pub den : ℕ
den = 1_000_000_000

-- The two halves of `set_ts` and `set_last_advert_tm`: `nanos` is the count, converted to unsigned.
split_time : ℤ → Rpc.Time
split_time tp =
    let nanos : ℕ = to_uint64 tp in record { sec = pos (nanos / den); nsec = pos (nanos % den) }

unfoldable pub set_ts : ℤ → Metric → Metric
unfolding split_time
set_ts tp m = record m { rpc = record m.rpc { timestamp = some (split_time tp) } }

unfoldable pub set_last_advert_tm : ℤ → Metric → Metric
unfolding split_time
set_last_advert_tm tp m = record m {
  rpc = record m.rpc { last_advertised_time = some (split_time tp) };
}

-- `set_timestamp(tp)`; `set_timestamp()` is the same at the clock's reading.
unfoldable pub set_timestamp : ℤ → Metric → Metric
unfolding set_ts
set_timestamp tp m = set_ts tp m

-- `set_last_advertised_time(tp)`, and `set_last_advertised_time()` at the clock's reading
unfoldable pub set_last_advertised_time : ℤ → Metric → Metric
unfolding set_last_advert_tm
set_last_advertised_time tp m = set_last_advert_tm tp m

-- A result of signed 64-bit arithmetic.
unfoldable pub checked : ℤ → Option ℤ
checked a = if ltb (pos_part a) (2 ^ 63) && leb (neg_part a) (2 ^ 63) then some a else none

-- `system_clock::time_point tp(seconds(sec))` and `tp + nanoseconds(nsec)`
join_time : Rpc.Time → Option ℤ
unfolding checked scale ◌+ℤ◌
join_time t = elim (checked (scale den t.sec)) [ none ↦ none | some tp ↦ checked (tp +ℤ t.nsec) ]

unfoldable pub timestamp : Metric → Option ℤ
unfolding join_time
timestamp m = join_time (Rpc.or_default_time m.rpc.timestamp)

join_time-pos :
    (q r n : ℕ)
    → den * q + r ≡ n
    → join_time (record { sec = pos q; nsec = pos r })
      ≡ (if ltb n (2 ^ 63) then some (pos n) else none)
unfolding join_time checked scale ◌+ℤ◌
join_time-pos q r n h = ground arith

split_pos : (n : ℕ) → den * (n / den) + n % den ≡ n
split_pos n = omega arith

join_time-split_time :
    (tp : ℤ) → IsInt64 tp → join_time (split_time tp) ≡ (if leb_ℤ (pos 0) tp then some tp else none)
unfolding split_time
join_time-split_time (pos n) h =
    join_time-pos (n % 2 ^ 64 / den) (n % 2 ^ 64 % den) n (omega arith) ∙ ground arith
join_time-split_time (negsuc n) h =
    join_time-pos ((2 ^ 64 - 1 - n % 2 ^ 64) / den) ((2 ^ 64 - 1 - n % 2 ^ 64) % den)
      (2 ^ 64 - 1 - n) (omega arith)
    ∙ ground arith

-- A time point of the clock's range from 1970 on that is set is read back as it was; one before
-- 1970 cannot be read back: its count, converted to unsigned, overflows the clock's count.
pub timestamp-set_timestamp :
    (tp : ℤ) (m : Metric)
    → IsInt64 tp
    → timestamp (set_timestamp tp m) ≡ (if leb_ℤ (pos 0) tp then some tp else none)
unfolding timestamp set_timestamp
timestamp-set_timestamp tp m h = join_time-split_time tp h

split_time-pos :
    (n : ℕ) → n < 2 ^ 63 → split_time (pos n) ≡ record { sec = pos (n / den); nsec = pos (n % den) }
unfolding split_time
split_time-pos n h = rw (fits n h)
  where
    fits : (n : ℕ) → n < 2 ^ 63 → n % 2 ^ 64 ≡ n
    fits n h = omega arith

-- The two stamps are independent, and each holds the seconds and, below 1,000,000,000, the
-- nanoseconds of a time point from 1970 on.
set_times_lem :
    (n k : ℕ) (m : Metric)
    → n < 2 ^ 63
    → k < 2 ^ 63
    → let m' = set_last_advertised_time (pos k) (set_timestamp (pos n) m) in
      (m'.rpc.timestamp ≡ some (record { sec = pos (n / den); nsec = pos (n % den) }))
      × (m'.rpc.last_advertised_time ≡ some (record { sec = pos (k / den); nsec = pos (k % den) }))
      × (n % den < den)
      × (k % den < den)
unfolding set_timestamp set_last_advertised_time
set_times_lem n k m hn hk =
    (ap some (split_time-pos n hn), ap some (split_time-pos k hk), omega arith, omega arith)

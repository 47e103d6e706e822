-- ===== src/Proxy/Heartbeat.antt =====
-- PluginImpl (src/snap/proxy/plugin_proxy.h and .cc): the ping and the loop that watches for it.
-- Time points and durations are counts of nanoseconds; what is printed is left out.
use snap_plugin_lib_cpp.Base.{
  ℕ, ◌+◌, ◌≤◌, ◌≡◌, refl, Bool, true, false, ◌&&◌, ◌||◌, Option, none, some, List, [], ◌∷◌, map,
  leb, arith, if◌then◌else◌,
}
use snap_plugin_lib_cpp.Base.Int.{ℤ, pos, ◌-ℤ◌, leb_ℤ}

-- `Ping` sets this member, and `HeartbeatWatch` when it starts.
pub record PluginImpl : Type 0 where
  pub last_ping : ℤ

unfoldable pub ping : ℤ → PluginImpl → PluginImpl
ping now p = record p { last_ping = now }

abbrev pub ping_timeout_limit : ℕ
ping_timeout_limit = 3

-- `_pingTimeoutDuration.count()`, of `std::chrono::seconds{3}`
abbrev pub ping_timeout_duration : ℕ
ping_timeout_duration = 3

-- `(now() - _lastPing).count() >= _pingTimeoutDuration.count()`
unfoldable pub times_out : ℤ × ℤ → Bool
unfolding ◌-ℤ◌
times_out (now, last_ping) = leb_ℤ (pos ping_timeout_duration) (now -ℤ last_ping)

-- The rounds of the loop of `HeartbeatWatch`, each by its reading of the clock and of `_lastPing`,
-- from the number of timeouts so far; `none`: the process exits.
unfoldable pub watch : List (ℤ × ℤ) → ℕ → Option ℕ
watch [] count = some count
watch (r ∷ rounds) count =
    let next = watch rounds (count + 1) in
    let reset = watch rounds 0 in
    if times_out r then (if leb ping_timeout_limit (count + 1) then none else next) else reset

unfoldable pub heartbeat_watch : List (ℤ × ℤ) → Option ℕ
unfolding watch
heartbeat_watch rounds = watch rounds 0

-- Three in a row.
abbrev pub three_in_row : List Bool → Bool
three_in_row [] = false
three_in_row (a ∷ []) = false
three_in_row (a ∷ b ∷ []) = false
three_in_row (a ∷ b ∷ c ∷ rest) = (a && b && c) || three_in_row (b ∷ c ∷ rest)

abbrev pub exits : Option ℕ → Bool
exits none = true
exits (some count) = false

watch_lem :
    (rounds : List (ℤ × ℤ))
    → (exits (watch rounds 0) ≡ three_in_row (map times_out rounds))
      × (exits (watch rounds 1) ≡ three_in_row (true ∷ map times_out rounds))
      × (exits (watch rounds 2) ≡ three_in_row (true ∷ true ∷ map times_out rounds))
unfolding watch
watch_lem [] = (refl, refl, refl)
watch_lem (r ∷ []) = ground arith
watch_lem (r ∷ s ∷ rounds) = ground (arith, watch_lem (s ∷ rounds))

-- The process exits exactly when three rounds in a row time out.
pub heartbeat_watch_lem :
    (rounds : List (ℤ × ℤ)) → exits (heartbeat_watch rounds) ≡ three_in_row (map times_out rounds)
unfolding heartbeat_watch
heartbeat_watch_lem rounds = (watch_lem rounds).0

-- The limit of 3 seconds is compared with a count of nanoseconds: where in each of three rounds the
-- last ping is at least 3 nanoseconds old, the process exits.
heartbeat_watch-late :
    (a b c x y z : ℕ)
    → 3 ≤ x
    → 3 ≤ y
    → 3 ≤ z
    → heartbeat_watch ((pos (a + x), pos a) ∷ (pos (b + y), pos b) ∷ (pos (c + z), pos c) ∷ [])
      ≡ none
unfolding heartbeat_watch times_out
heartbeat_watch-late a b c x y z hx hy hz = ground arith

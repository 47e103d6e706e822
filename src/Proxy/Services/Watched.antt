-- ===== src/Proxy/Services/Watched.antt =====
-- A service beside `HeartbeatWatch` (src/snap/proxy/plugin_proxy.cc), which watches the same PluginImpl: the
-- handlers' calls and the rounds of the loop in one order.
use snap_plugin_lib_cpp.Base.{
  ℕ, ◌+◌, ◌≡◌, refl, ap, sym, ◌∙◌, inl, inr, Bool-cases, Option, none, some, Option-cases, List, [],
  ◌∷◌, ◌++◌, append-nil, map, leb, arith, if◌then◌else◌,
}
use snap_plugin_lib_cpp.Base.Int.{ℤ}
use snap_plugin_lib_cpp.Proxy.Heartbeat.{
  ping, ping_timeout_limit, times_out, watch, heartbeat_watch, three_in_row, exits,
  heartbeat_watch_lem,
}
use snap_plugin_lib_cpp.Proxy.Services.{Proxy, Request, ping_request, Reply, Served, handle, run}

pub data Event : Type 0 where
  -- a call, with the clock that its handler reads
  call_event : Request → (ℕ → ℤ) → Event
  -- a round of the loop, with its reading of the clock
  round_event : ℤ → Event

-- The calls among the events.
unfoldable pub calls : List Event → List (Request × (ℕ → ℤ))
calls [] = []
calls (call_event r clock ∷ es) = (r, clock) ∷ calls es
calls (round_event now ∷ es) = calls es

-- The time of the last ping after a call.
abbrev pub pinged : Request → (ℕ → ℤ) → ℤ → ℤ
pinged ping_request clock last_ping = clock 0
pinged _ clock last_ping = last_ping

-- The rounds, each by its reading of the clock and the time of the last ping before it.
unfoldable pub readings : List Event → ℤ → List (ℤ × ℤ)
readings [] last_ping = []
readings (call_event r clock ∷ es) last_ping = readings es (pinged r clock last_ping)
readings (round_event now ∷ es) last_ping = (now, last_ping) ∷ readings es last_ping

module _ {S : Type 0} (p : Proxy S) where
  -- The replies, and what is left; `none`: the process has exited.
  unfoldable pub watched : List Event → ℕ → Served S → List (Option Reply) × Option (Served S)
  unfolding handle
  watched [] count s = ([], some s)
  watched (call_event r clock ∷ es) count s =
      let (reply, s') = handle clock p r s in
      let (replies, last) = watched es count s' in (reply ∷ replies, last)
  watched (round_event now ∷ es) count s =
      let next = watched es (count + 1) s in
      let reset = watched es 0 s in
      if times_out (now, s.plugin_impl.last_ping)
      then (if leb ping_timeout_limit (count + 1) then ([], none) else next)
      else reset

  -- The loop sets `_lastPing` when it starts.
  unfoldable pub watched_from : ℤ → List Event → Served S → List (Option Reply) × Option (Served S)
  unfolding watched ping
  watched_from start es s = watched es 0 (record s { plugin_impl = ping start s.plugin_impl })

  handle-pinged :
      (r : Request) (clock : ℕ → ℤ) (s : Served S)
      → (handle clock p r s).1.plugin_impl.last_ping ≡ pinged r clock s.plugin_impl.last_ping
  unfolding handle ping
  handle-pinged r clock s = ground arith

  watched_stops :
      (es : List Event) (count : ℕ) (s : Served S)
      → watch (readings es s.plugin_impl.last_ping) count ≡ none
      → (watched es count s).1 ≡ none
  unfolding watched watch readings
  watched_stops [] count s h = cc
  watched_stops (call_event r clock ∷ es) count s h =
      watched_stops es count (handle clock p r s).1 (rw (handle-pinged r clock s) h)
  watched_stops (round_event now ∷ es) count s h =
      ground (arith, watched_stops es (count + 1) s, watched_stops es 0 s)

  watched_goes :
      (es : List Event) (count n : ℕ) (s : Served S)
      → watch (readings es s.plugin_impl.last_ping) count ≡ some n
      → watched es count s ≡ ((run p (calls es) s).0, some (run p (calls es) s).1)
  unfolding watched watch readings calls run
  watched_goes [] count n s h = refl
  watched_goes (call_event r clock ∷ es) count n s h =
      let s' = (handle clock p r s).1 in
      let ih = watched_goes es count n s' (rw (handle-pinged r clock s) h) in
      ap (λ x. ((handle clock p r s).0 ∷ x.0, x.1)) ih
  watched_goes (round_event now ∷ es) count n s h =
      ground (arith, watched_goes es (count + 1) n s, watched_goes es 0 n s)

  -- The replies that calls would get after the exit.
  watched_prefix :
      (es : List Event) (count : ℕ) (s : Served S)
      → (rest : List (Option Reply)) × ((run p (calls es) s).0 ≡ (watched es count s).0 ++ rest)
  unfolding watched calls run
  watched_prefix [] count s = ([], refl)
  watched_prefix (call_event r clock ∷ es) count s =
      let (rest, e) = watched_prefix es count (handle clock p r s).1 in
      (rest, ap (λ replies. (handle clock p r s).0 ∷ replies) e)
  watched_prefix (round_event now ∷ es) count s =
      elim (Bool-cases (times_out (now, s.plugin_impl.last_ping))) [
        | inr early ↦ rw early (watched_prefix es 0 s)
        | inl late ↦ elim (Bool-cases (leb ping_timeout_limit (count + 1))) [
          | inl third ↦ ((run p (calls es) s).0, rw (late, third) refl)
          | inr before ↦ rw (late, before) (watched_prefix es (count + 1) s)
        ]
      ]

  -- However calls and rounds of the loop follow each other, the process exits exactly when three rounds
  -- in a row find the last ping late. If it does not, every call is replied to, and the plugin left,
  -- as by the calls alone; if it does, the replies are the first of those.
  pub watched_from_lem :
      (start : ℤ) (es : List Event) (s : Served S)
      → let late = three_in_row (map times_out (readings es start)) in
        let started = record s { plugin_impl = ping start s.plugin_impl } in
        ((watched_from start es s).1 ≡ (if late then none else some (run p (calls es) started).1))
        × (rest : List (Option Reply)) × ((run p (calls es) started).0
            ≡ (watched_from start es s).0 ++ rest)
        × ((if late then [] else rest) ≡ [])
  unfolding watched_from ping heartbeat_watch
  watched_from_lem start es s =
      let started = record s { plugin_impl = ping start s.plugin_impl } in
      let decides = sym (heartbeat_watch_lem (readings es start)) in
      elim (Option-cases (watch (readings es start) 0)) [
        | inl stops ↦
            let late = decides ∙ ap exits stops in
            let (rest, e) = watched_prefix es 0 started in
            rw late (watched_stops es 0 started stops, rest, e, refl)
        | inr (n, goes) ↦
            let early = decides ∙ ap exits goes in
            let e = watched_goes es 0 n started goes in
            rw early (
              ap (λ w. w.1) e,
              [],
              sym (append-nil (watched es 0 started).0 ∙ ap (λ w. w.0) e),
              refl,
            )
      ]

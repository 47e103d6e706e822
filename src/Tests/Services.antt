-- ===== src/Tests/Services.antt =====
-- A service with a collector that counts what it was asked for.
use snap_plugin_lib_cpp.Base.{
  ℕ, suc, ◌+◌, ◌≡◌, refl, Option, none, some, List, [], ◌∷◌, ◌++◌, map, if◌then◌else◌,
}
use snap_plugin_lib_cpp.Base.Int.{ℤ, pos}
use snap_plugin_lib_cpp.Rpc.Policy.{new_policy_reply}
use snap_plugin_lib_cpp.Proxy.Handlers.{returns, answers, status_ok}
use snap_plugin_lib_cpp.Proxy.Heartbeat.{ping, times_out, three_in_row}
use snap_plugin_lib_cpp.Proxy.Services.{
  CollectorMethods, Proxy, collector_impl, Request, ping_request, kill_request, collect_request,
  Reply, err_reply, Served, serve, new_err_reply, handle, run,
}
use snap_plugin_lib_cpp.Proxy.Services.Idle.{work, work_replies, run-work}
use snap_plugin_lib_cpp.Proxy.Services.Watched.{
  Event, call_event, round_event, calls, readings, watched_from, watched_from_lem,
}

abbrev counting : CollectorMethods ℕ
counting = record {
  config_policy = λ n. (returns new_policy_reply, n);
  metric_types = λ config n. (returns [], n);
  collect = λ mets n. (returns mets, suc n);
}

abbrev proxy : Proxy ℕ
proxy = collector_impl counting

abbrev begun : Served ℕ
begun = serve 0

abbrev clock : ℕ → ℤ
clock n = pos (10 + n)

abbrev asked : List (Request × (ℕ → ℤ))
asked =
    (collect_request [], clock)
    ∷ (ping_request, clock)
    ∷ (kill_request, clock)
    ∷ (collect_request [], clock)
    ∷ []

run-work_example :
    (work_replies asked (run proxy asked begun).0 ≡ (run proxy (work asked) begun).0)
    × ((run proxy asked begun).1.plugin ≡ (run proxy (work asked) begun).1.plugin)
    × ((run proxy ((kill_request, clock) ∷ asked) begun).0
        ≡ some (err_reply (answers new_err_reply status_ok))
          ∷ (run proxy asked (handle clock proxy kill_request begun).1).0)
run-work_example = run-work proxy asked begun clock kill_request refl

-- The calls without the pings and the kill change the collector twice.
run_counts : (run proxy asked begun).1.plugin ≡ 2
unfolding run serve
run_counts = refl

abbrev events : List Event
events =
    round_event (pos 1)
    ∷ call_event (collect_request []) clock
    ∷ call_event ping_request clock
    ∷ round_event (pos 12)
    ∷ round_event (pos 15)
    ∷ []

watched_from_lem_example :
    let late = three_in_row (map times_out (readings events (pos 0))) in
    let started = record begun { plugin_impl = ping (pos 0) begun.plugin_impl } in
    ((watched_from proxy (pos 0) events begun).1
      ≡ (if late then none else some (run proxy (calls events) started).1))
    × (rest : List (Option Reply)) × ((run proxy (calls events) started).0
        ≡ (watched_from proxy (pos 0) events begun).0 ++ rest)
    × ((if late then [] else rest) ≡ [])
watched_from_lem_example = watched_from_lem proxy (pos 0) events begun

-- The ping between the rounds keeps the process.
watched_goes_on :
    (watched_from proxy (pos 0) events begun).1
    ≡ some (record { plugin = 1; plugin_impl = record { last_ping = pos 10 } })
unfolding watched_from serve times_out
watched_goes_on = refl

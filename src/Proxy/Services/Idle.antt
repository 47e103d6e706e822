-- ===== src/Proxy/Services/Idle.antt =====
-- Ping and Kill beside the other calls of a service (src/snap/proxy).
use snap_plugin_lib_cpp.Base.{
  ℕ, ◌≡◌, refl, ap, ◌∙◌, inl, inr, Bool, true, false, Bool-cases, Option, some, List, [], ◌∷◌,
  arith, if◌then◌else◌,
}
use snap_plugin_lib_cpp.Base.Int.{ℤ}
use snap_plugin_lib_cpp.Proxy.Handlers.{answers, status_ok}
use snap_plugin_lib_cpp.Proxy.Services.{
  Proxy, Request, ping_request, kill_request, Reply, err_reply, Served, new_err_reply, handle, run,
}

abbrev pub is_idle : Request → Bool
is_idle ping_request = true
is_idle kill_request = true
is_idle _ = false

-- The calls that are neither Ping nor Kill.
unfoldable pub work : List (Request × (ℕ → ℤ)) → List (Request × (ℕ → ℤ))
work [] = []
work ((r, clock) ∷ calls) = if is_idle r then work calls else (r, clock) ∷ work calls

-- Their replies among the replies to all.
unfoldable pub work_replies : List (Request × (ℕ → ℤ)) → List (Option Reply) → List (Option Reply)
work_replies ((r, clock) ∷ calls) (reply ∷ replies) =
    if is_idle r then work_replies calls replies else reply ∷ work_replies calls replies
work_replies [] _ = []
work_replies _ [] = []

module _ {S : Type 0} (clock : ℕ → ℤ) where
  idle_handle :
      (p : Proxy S) (r : Request) (s : Served S)
      → is_idle r ≡ true
      → ((handle clock p r s).0 ≡ some (err_reply (answers new_err_reply status_ok)))
        × ((handle clock p r s).1.plugin ≡ s.plugin)
  unfolding handle
  idle_handle p r s h = ground arith

  -- A handler reads nothing of the PluginImpl.
  handle_same :
      (p : Proxy S) (r : Request) (s t : Served S)
      → s.plugin ≡ t.plugin
      → ((handle clock p r s).0 ≡ (handle clock p r t).0)
        × ((handle clock p r s).1.plugin ≡ (handle clock p r t).1.plugin)
  unfolding handle
  handle_same p r s t e = ground arith

module _ {S : Type 0} where
  run_same :
      (p : Proxy S) (calls : List (Request × (ℕ → ℤ))) (s t : Served S)
      → s.plugin ≡ t.plugin
      → (work_replies calls (run p calls s).0 ≡ (run p (work calls) t).0)
        × ((run p calls s).1.plugin ≡ (run p (work calls) t).1.plugin)
  unfolding run work work_replies
  run_same p [] s t e = (refl, e)
  run_same p ((r, clock) ∷ calls) s t e = elim (Bool-cases (is_idle r)) [
    | inl idle ↦
        let (replied, left) = idle_handle clock p r s idle in
        rw idle (run_same p calls (handle clock p r s).1 t (left ∙ e))
    | inr works ↦
        let (replied, left) = handle_same clock p r s t e in
        let (rest, last) = run_same p calls (handle clock p r s).1 (handle clock p r t).1 left in
        rw works (cc, last)
  ]

-- Pings and kills change nothing for the other calls: with them taken out of the calls to a service,
-- the others are replied to as before, also those after a Kill, and the plugin ends in the same state.
-- A Ping or a Kill itself is answered with status OK and no error, by every service.
pub run-work :
    {S : Type 0} (p : Proxy S) (calls : List (Request × (ℕ → ℤ))) (s : Served S) (clock : ℕ → ℤ)
    (r : Request)
    → is_idle r ≡ true
    → (work_replies calls (run p calls s).0 ≡ (run p (work calls) s).0)
      × ((run p calls s).1.plugin ≡ (run p (work calls) s).1.plugin)
      × ((run p ((r, clock) ∷ calls) s).0
          ≡ some (err_reply (answers new_err_reply status_ok))
            ∷ (run p calls (handle clock p r s).1).0)
unfolding run
run-work p calls s clock r idle =
    let (replies, last) = run_same p calls s s refl in
    (
      replies,
      last,
      ap (λ reply. reply ∷ (run p calls (handle clock p r s).1).0) (idle_handle clock p r s idle).0,
    )

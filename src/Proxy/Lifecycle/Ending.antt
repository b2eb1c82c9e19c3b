-- ===== src/Proxy/Lifecycle/Ending.antt =====
-- The shutdown after the context is done: how long it takes, and that it does not get stuck.
use hassh.Common.{
  ℕ, ◌+◌, ◌*◌, ◌≤◌, ◌≡◌, refl, arith, inl, inr, ◌⊎◌, Bool, Option, none, some, List, [], ◌∷◌,
  Result, ok, err, panics,
}
use hassh.Text.{Bytes}
use hassh.Proxy.Reader.{Conn}
use hassh.Proxy.Lifecycle.{
  Phase, accepting, admitting, draining, returned, Server, FetchError, keep_banner, new_server,
  reload_blocklist, refresh_upstream_banner, fetch_upstream_banner, upstream_banner_fetch_timeout,
  begin_reload, end_reload, Label, quiet, loaded, probed, Step, admit, reject, nothing_accepted,
  start_handler, handler_returns, handler_done, cancelled, start_returns, signalled, refreshed, Run,
  start, next,
}
use hassh.Proxy.Lifecycle.Limits.{Counted, Run-Counted, new_server-Counted}

-- The steps that are not those of a reload.
abbrev pub quiet_steps : List Label → ℕ
quiet_steps [] = 0
quiet_steps (quiet ∷ labels) = quiet_steps labels + 1
quiet_steps (loaded hashes ∷ labels) = quiet_steps labels
quiet_steps (probed probe ∷ labels) = quiet_steps labels

abbrev return_left : Phase → ℕ
return_left accepting = 0
return_left admitting = 0
return_left draining = 1
return_left returned = 0

-- A handler that runs has two steps ahead of it, one that frees its place and one that reports its
-- end.
abbrev steps_left : Server → ℕ
steps_left s = 2 * s.running + s.releasing + return_left s.phase

abbrev IsStopping : Server → Type 0
IsStopping s = (s.phase ≡ draining) ⊎ (s.phase ≡ returned)

abbrev Falls : Server → List Label → Server → Type 0
Falls s labels t = IsStopping t × (quiet_steps labels + steps_left t ≤ steps_left s)

no_longer_accepting : (s : Server) → s.phase ≡ accepting → ¬ IsStopping s
no_longer_accepting s e (inl d) = cc (e, d)
no_longer_accepting s e (inr r) = cc (e, r)

no_longer_admitting : (s : Server) → s.phase ≡ admitting → ¬ IsStopping s
no_longer_admitting s e (inl d) = cc (e, d)
no_longer_admitting s e (inr r) = cc (e, r)

reload-Falls :
    (s : Server) (hashes : Option (List Bytes))
    → IsStopping s
    → Falls s (loaded hashes ∷ []) (begin_reload s hashes)
unfolding reload_blocklist
reload-Falls s none h = (h, omega arith)
reload-Falls s (some hashes) h = (h, omega arith)

keep_banner-Falls :
    (s : Server) (r : Result FetchError Bytes) (probe : Option Conn)
    → IsStopping s
    → Falls s (probed probe ∷ []) (record (keep_banner s r).0 { reloading = Bool.false })
keep_banner-Falls s (ok banner) probe h = (h, omega arith)
keep_banner-Falls s (err e) probe h = (h, omega arith)
keep_banner-Falls s panics probe h = (h, omega arith)

refresh-Falls :
    (s : Server) (probe : Option Conn)
    → IsStopping s
    → Falls s (probed probe ∷ []) (end_reload s probe)
unfolding refresh_upstream_banner
refresh-Falls s probe h =
    keep_banner-Falls s (fetch_upstream_banner probe upstream_banner_fetch_timeout) probe h

Step-Falls : {s t : Server} {l : Label} → Step s l t → IsStopping s → Falls s (l ∷ []) t
Step-Falls {s} (admit phase room) h = absurd (no_longer_accepting s phase h)
Step-Falls {s} (reject phase full) h = absurd (no_longer_accepting s phase h)
Step-Falls {s} (nothing_accepted phase) h = absurd (no_longer_accepting s phase h)
Step-Falls {s} (start_handler phase) h = absurd (no_longer_admitting s phase h)
Step-Falls {s} (handler_returns running) h = (h, omega arith)
Step-Falls {s} (handler_done releasing) h = (h, omega arith)
Step-Falls {s} (cancelled phase) h = absurd (no_longer_accepting s phase h)
Step-Falls {s} (start_returns phase idle) h = (inr refl, rw phase (omega arith))
Step-Falls {s} (signalled {hashes = hashes} idle) h = reload-Falls s hashes h
Step-Falls {s} (refreshed {probe = probe} busy) h = refresh-Falls s probe h

quiet_steps_cons :
    (l : Label) (labels : List Label)
    → quiet_steps (l ∷ labels) ≡ quiet_steps (l ∷ []) + quiet_steps labels
quiet_steps_cons quiet labels = omega arith
quiet_steps_cons (loaded hashes) labels = omega arith
quiet_steps_cons (probed probe) labels = omega arith

Run-Falls : {s t : Server} {labels : List Label} → Run s labels t → IsStopping s → Falls s labels t
Run-Falls start h = (h, omega arith)
Run-Falls (next {labels = labels} {l = l} run step) h =
    let (stopping, sum) = Run-Falls run h in
    let (still, less) = Step-Falls step stopping in
    (still, omega (arith, quiet_steps_cons l labels))

-- A server that is counted right has a step to take until it has returned.
may_go_on :
    (t : Server) → Counted t → IsStopping t → (t.phase ≡ returned) ⊎ ((u : Server) × Step t quiet u)
may_go_on t c (inr over) = inl over
may_go_on t c (inl waits) = go t.running t.releasing refl refl
  where
    go :
        (n m : ℕ)
        → t.running ≡ n
        → t.releasing ≡ m
        → (t.phase ≡ returned) ⊎ ((u : Server) × Step t quiet u)
    go ℕ.zero ℕ.zero r d = inr (_, start_returns waits (omega (arith, c.handlers)))
    go ℕ.zero (ℕ.suc m) r d = inr (_, handler_done (omega arith))
    go (ℕ.suc n) m r d = inr (_, handler_returns (omega arith))

-- From the moment at which the loop of `Start` sees that the context is done, the server takes at
-- most two steps for each handler that runs, one for each that is about to report its end, and the
-- one that returns, whatever reloads come between; and as long as `Start` has not returned, one of
-- these steps is possible.
pub Run_ends :
    (probe : Option Conn) (connected : Bool) (hashes : Option (List Bytes)) {s t u : Server}
    {labels later : List Label}
    → new_server probe connected hashes ≡ ok s
    → Run s labels t
    → t.phase ≡ draining
    → Run t later u
    → (quiet_steps later ≤ 2 * t.running + t.releasing + 1)
      × ((u.phase ≡ returned) ⊎ ((v : Server) × Step u quiet v))
Run_ends probe connected hashes begun run waits after =
    let c = Run-Counted run (new_server-Counted probe connected hashes begun) in
    let (stopping, sum) = Run-Falls after (inl waits) in
    let bound = rw waits at sum in (omega arith, may_go_on _ (Run-Counted after c) stopping)

-- ===== src/Proxy/Lifecycle/Shutdown.antt =====
-- The way from the end of the context to the return of `Start`.
use hassh.Common.{ℕ, zero, suc, ◌≡◌, refl, Bool, Option, List, ◌∷◌, arith, ok}
use hassh.Text.{Bytes}
use hassh.Proxy.Reader.{Conn}
use hassh.Proxy.Lifecycle.{
  draining, returned, Server, new_server, release, finish, Label, quiet, Step, handler_returns,
  handler_done, start_returns, Run, next,
}
use hassh.Proxy.Lifecycle.Limits.{Counted, Step-Counted, Run-Counted, new_server-Counted}

-- A run of a server that ends with the return of `Start`.
abbrev pub CanStop : Server → Type 0
CanStop s = (labels : List Label) × ((u : Server) × (Run s labels u × (u.phase ≡ returned)))

module _ (s : Server) where
  report_all :
      (n : ℕ) (t : Server) (labels : List Label)
      → Run s labels t
      → Counted t
      → t.phase ≡ draining
      → t.running ≡ 0
      → t.releasing ≡ n
      → CanStop s
  report_all zero t labels run c phase none_running none_left =
      let idle : t.active_conns ≡ 0 = omega (arith, c.handlers) in
      (quiet ∷ labels, (_, (next run (start_returns phase idle), refl)))
  report_all (suc n) t labels run c phase none_running left =
      let step : Step t quiet (finish t) = handler_done (omega arith) in
      report_all n (finish t) (quiet ∷ labels) (next run step) (Step-Counted step c) phase
        none_running (omega arith)

  release_all :
      (n : ℕ) (t : Server) (labels : List Label)
      → Run s labels t
      → Counted t
      → t.phase ≡ draining
      → t.running ≡ n
      → CanStop s
  release_all zero t labels run c phase none_running =
      report_all t.releasing t labels run c phase none_running refl
  release_all (suc n) t labels run c phase left =
      let step : Step t quiet (release t) = handler_returns (omega arith) in
      release_all n (release t) (quiet ∷ labels) (next run step) (Step-Counted step c) phase
        (omega arith)

-- When the context is done, `Start` can return from every state that a run reaches: its wait ends
-- as soon as the handlers that run return.
pub Run-CanStop :
    (probe : Option Conn) (connected : Bool) (hashes : Option (List Bytes)) {s t : Server}
    {labels : List Label}
    → new_server probe connected hashes ≡ ok s
    → Run s labels t
    → t.phase ≡ draining
    → CanStop s
Run-CanStop probe connected hashes {s} {t} {labels} begun run phase =
    let c = Run-Counted run (new_server-Counted probe connected hashes begun) in
    release_all s t.running t labels run c phase refl

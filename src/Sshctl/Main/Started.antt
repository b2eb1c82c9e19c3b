-- ===== src/Sshctl/Main/Started.antt =====
-- From `sshctl block` to the blocklist that the proxy starts with: both programs over one database.
use hassh.Common.{arith, ◌≡◌, refl, sym, ap, subst, ◌∙◌, Bool, true, Option, some, List, ◌∷◌, ok}
use hassh.Text.{Bytes, codes}
use hassh.Filter.{BlocklistFilter, contains}
use hassh.Filter.Laws.{listed}
use hassh.Storage.Rows.{is_blocked}
use hassh.Storage.Rows.Consistent.{IsConsistent}
use hassh.Storage.Database.Replies.{Reply, done, failed}
use hassh.Storage.Database.{Database, IsLawful}
use hassh.Storage.Repository.{Net}
use hassh.Storage.Queries.{Clock, Reader}
use hassh.Storage.Setup.{Schema, new_repository}
use hassh.Storage.Statistics.{Counter}
use hassh.Sshctl.Repository.{IsReadOnly, storage_repository}
use hassh.Sshctl.Blocks.{Outcome, succeeded, call_failed, no_arguments, block_cmd}
use hassh.Sshctl.Enforced.{block_cmd-is_blocked}
use hassh.Sshctl.Main.{
  block_command, Shell, outcome_ok, exit_status, execute, with_commands, sshctl_main,
}
use hassh.Proxy.Reader.{Conn}
use hassh.Proxy.Lifecycle.{Server}
use hassh.Proxy.Main.{start_proxy}
use hassh.Proxy.Main.Started.{IsSchema, new_repository_rows, start_proxy-Refuses}

outcome_ok_succeeded : (o : Outcome) → exit_status (outcome_ok o) ≡ 0 → o ≡ succeeded
outcome_ok_succeeded succeeded e = refl
outcome_ok_succeeded (call_failed f x) e = absurd (omega arith)
outcome_ok_succeeded no_arguments e = absurd (omega arith)

module _ (C : Clock) (D : Database) (Q : Reader C D.State) (N : Net) (K : Counter D)
    (W : Shell D.State) (L : IsLawful D) (O : IsReadOnly C D Q) where
  execute-is_blocked :
      (reason f : Bytes) (hs : List Bytes) (s t : D.State) (k : Bytes)
      (m : Reply (Unit {0}) × D.State)
      → D.rows m.1 ≡ D.rows s
      → IsConsistent (D.rows s)
      → with_commands C D Q N K W (block_command reason (f ∷ hs)) m ≡ (0, some t)
      → listed k (f ∷ hs) ≡ true
      → is_blocked k (D.rows t) ≡ true
  unfolding execute
  execute-is_blocked reason f hs s t k (failed x, u) same c e there =
      absurd (omega (arith, ap (λ r. r.0) e))
  execute-is_blocked reason f hs s t k (done x, u) same c e there =
      let fine : (block_cmd C (storage_repository C D Q N) reason (f ∷ hs) u).1 ≡ succeeded =
        outcome_ok_succeeded _ (ap (λ r. r.0) e) in
      let here : (block_cmd C (storage_repository C D Q N) reason (f ∷ hs) u).2 ≡ t =
        cc (ap (λ r. r.1) e) in
      subst (λ v. is_blocked k (D.rows v) ≡ true) here
        (block_cmd-is_blocked C D Q N L O reason f hs u k (subst IsConsistent (sym same) c) fine
          there)

  -- Over a database that meets its laws, and whose rows the migration leaves alone: if `sshctl block`
  -- exits with status 0, on consistent tables, and sshproxy then starts on the database as it was
  -- left, the blocklist of the proxy refuses each of the fingerprints that were given as arguments.
  pub sshctl_main-start_proxy :
      (M : Schema D.State) (args : List Bytes) (reason f : Bytes) (hs : List Bytes)
      (s t u : D.State) (probe : Option Conn) (connected : Bool) (server : Server) (k : Bytes)
      → IsSchema D M
      → W.parse args ≡ block_command reason (f ∷ hs)
      → W.open_database (W.get_string (codes "db")) ≡ some s
      → IsConsistent (D.rows s)
      → sshctl_main C D Q N K W M args ≡ (0, some t)
      → start_proxy D (some t) M probe connected ≡ ok (server, u)
      → listed k (f ∷ hs) ≡ true
      → (b : BlocklistFilter) × ((server.blocklist ≡ some b) × (contains b k ≡ true))
  unfolding sshctl_main
  sshctl_main-start_proxy M args reason f hs s t u probe connected server k H parsed opens c e begun
        there =
      let ran : with_commands C D Q N K W (block_command reason (f ∷ hs)) (new_repository M s)
          ≡ (0, some t) =
        rw (parsed, opens) at e in
      let blocked =
        execute-is_blocked reason f hs s t k (new_repository M s) (new_repository_rows D M s H) c
          ran there in
      let (b, (held, all)) = start_proxy-Refuses D L probe connected M t H begun in
      (b, (held, all k ∙ blocked))

-- ===== src/Sshctl/Enforced.antt =====
-- From `sshctl block` to a refused client: cmd/sshctl/command/block.go, pkg/storage/db.go, the reload
-- of pkg/proxy/server.go and the handler together.
use hassh.Common.{◌≡◌, ◌∙◌, ap, true, false, some, List, [], ◌∷◌, ◌++◌, append-nil, arith}
use hassh.Text.{Bytes}
use hassh.Filter.{contains, reload}
use hassh.Filter.Laws.{listed}
use hassh.Storage.Rows.{is_blocked}
use hassh.Storage.Rows.Consistent.{IsConsistent}
use hassh.Storage.Database.Replies.{done}
use hassh.Storage.Database.{Database, IsLawful}
use hassh.Storage.Repository.{Net, load_blocked_hashes}
use hassh.Storage.Queries.{Clock, Reader}
use hassh.Storage.Enforced.{load_blocked_hashes-reload}
use hassh.Sshctl.Repository.{IsReadOnly, storage_repository, storage_repository-IsBlocklist}
use hassh.Sshctl.Blocks.{Outcome, succeeded, IsEnd, IsPrinted, block_cmd, block_cmd_lem}
use hassh.Hassh.Fingerprint.{Fingerprint}
use hassh.Proxy.Lifecycle.{Server, reload_blocklist, present}
use hassh.Proxy.Server.{World, handle_connection}
use hassh.Proxy.Server.Gate.{Captures, sent_upstream, dials, handle_connection_blocked}

-- A command that succeeded has printed all arguments.
IsPrinted-whole :
    {args printed : List Bytes} {outcome : Outcome}
    → IsPrinted args printed outcome
    → outcome ≡ succeeded
    → args ≡ printed
IsPrinted-whole {printed} {outcome} p e = go p.rest p.order p.end
  where
    go :
        {args : List Bytes} (rest : List Bytes)
        → args ≡ printed ++ rest
        → IsEnd rest outcome
        → args ≡ printed
    go [] order end = order ∙ append-nil printed
    go (f ∷ rest) order (error, failed) = absurd cc

module _ (C : Clock) (D : Database) (Q : Reader C D.State) (N : Net) (L : IsLawful D)
    (K : IsReadOnly C D Q) where
  pub block_cmd-is_blocked :
      (reason f : Bytes) (args : List Bytes) (s : D.State) (k : Bytes)
      → IsConsistent (D.rows s)
      → (block_cmd C (storage_repository C D Q N) reason (f ∷ args) s).1 ≡ succeeded
      → listed k (f ∷ args) ≡ true
      → is_blocked k (D.rows (block_cmd C (storage_repository C D Q N) reason (f ∷ args) s).2)
        ≡ true
  unfolding storage_repository-IsBlocklist
  block_cmd-is_blocked reason f args s k c e there =
      let ran =
        block_cmd_lem C (storage_repository C D Q N) (storage_repository-IsBlocklist C D Q N L K)
          reason f args s k c in
      let whole = ap (listed k) (IsPrinted-whole ran.0 e) in ran.1 ∙ ground (arith, whole)

  -- If `sshctl block` succeeds on consistent tables, and the proxy then reloads its list from the
  -- database, a client with the fingerprint of one of the arguments is refused: its handler never
  -- dials the server and sends it nothing.
  pub block_cmd-refuses :
      (reason f : Bytes) (args hashes : List Bytes) (s u : D.State) (server : Server) (w : World)
      (fp : Fingerprint)
      → IsConsistent (D.rows s)
      → (block_cmd C (storage_repository C D Q N) reason (f ∷ args) s).1 ≡ succeeded
      → load_blocked_hashes D (block_cmd C (storage_repository C D Q N) reason (f ∷ args) s).2
        ≡ (done hashes, u)
      → (reload_blocklist server (some hashes)).0.blocklist ≡ some w.blocklist
      → w.greets ≡ true
      → Captures w fp
      → listed fp.hash (f ∷ args) ≡ true
      → (dials (handle_connection w) ≡ false) × (sent_upstream (handle_connection w) ≡ [])
  unfolding reload_blocklist
  block_cmd-refuses reason f args hashes s u server w fp c e loaded held greets captured there =
      let b = present server.blocklist in
      let filter : w.blocklist ≡ reload b hashes = cc held in
      let blocked = block_cmd-is_blocked reason f args s fp.hash c e there in
      let refused : contains w.blocklist fp.hash ≡ true =
        rw filter (load_blocked_hashes-reload D L b hashes _ u fp.hash loaded ∙ blocked) in
      let r = handle_connection_blocked w fp greets captured refused in (r.1, r.2)

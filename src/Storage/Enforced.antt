-- ===== src/Storage/Enforced.antt =====
-- From a block in the database to a refused client: pkg/storage/db.go, the reload of
-- pkg/proxy/server.go, pkg/filter/blocklist.go and the handler together.
use hassh.Common.{◌≡◌, ◌∙◌, true, false, some, List, [], arith}
use hassh.Text.{Bytes, same_refl}
use hassh.Filter.{BlocklistFilter, contains, reload}
use hassh.Filter.Laws.{contains-reload}
use hassh.Storage.Rows.{is_blocked}
use hassh.Storage.Rows.Consistent.{IsConsistent}
use hassh.Storage.Database.Replies.{done, ended_done}
use hassh.Storage.Database.{Database, IsLawful}
use hassh.Storage.Repository.{load_blocked_hashes, block_hash}
use hassh.Storage.Repository.Blocking.{block_hash-After}
use hassh.Hassh.Fingerprint.{Fingerprint}
use hassh.Proxy.Lifecycle.{Server, reload_blocklist, present}
use hassh.Proxy.Server.{World, handle_connection}
use hassh.Proxy.Server.Gate.{Captures, sent_upstream, dials, handle_connection_blocked}

-- Filled from the fingerprints that `LoadBlockedHashes` returns, the blocklist of the proxy refuses
-- exactly those that the database blocks, whatever it refused before.
pub load_blocked_hashes-reload :
    (D : Database) (L : IsLawful D) (b : BlocklistFilter) (hashes : List Bytes) (s t : D.State)
    (k : Bytes)
    → load_blocked_hashes D s ≡ (done hashes, t)
    → contains (reload b hashes) k ≡ is_blocked k (D.rows s)
unfolding load_blocked_hashes
load_blocked_hashes-reload D L b hashes s t k e =
    let plucked = ended_done (rw e at (L.pluck s)) in contains-reload b hashes k ∙ plucked.1 k

module _ (D : Database) (L : IsLawful D) where
  block_hash_done :
      (f reason : Bytes) (s t : D.State)
      → IsConsistent (D.rows s)
      → block_hash D f reason s ≡ (done tt, t)
      → is_blocked f (D.rows t) ≡ true
  block_hash_done f reason s t c e =
      let blocking = ended_done (rw e at (block_hash-After D L f reason s c)) in
      ground (arith, blocking.blocked f, same_refl f)

-- A fingerprint that `BlockHASH` blocked is refused after the next reload: if its list is loaded from
-- the database as `BlockHASH` left it, then a handler that looks the fingerprint up never dials the
-- server and sends it nothing.
pub block_hash-refuses :
    (D : Database) (L : IsLawful D) (reason : Bytes) (hashes : List Bytes) (s t u : D.State)
    (server : Server) (w : World) (fp : Fingerprint)
    → IsConsistent (D.rows s)
    → block_hash D fp.hash reason s ≡ (done tt, t)
    → load_blocked_hashes D t ≡ (done hashes, u)
    → (reload_blocklist server (some hashes)).0.blocklist ≡ some w.blocklist
    → w.greets ≡ true
    → Captures w fp
    → (dials (handle_connection w) ≡ false) × (sent_upstream (handle_connection w) ≡ [])
unfolding reload_blocklist
block_hash-refuses D L reason hashes s t u server w fp c blocked loaded held greets captured =
    let b = present server.blocklist in
    let filter : w.blocklist ≡ reload b hashes = cc held in
    let refused : contains w.blocklist fp.hash ≡ true = rw filter (
      load_blocked_hashes-reload D L b hashes t u fp.hash loaded
      ∙ block_hash_done D L fp.hash reason s t c blocked) in
    let r = handle_connection_blocked w fp greets captured refused in (r.1, r.2)

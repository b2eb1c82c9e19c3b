-- ===== src/Proxy/Main/Started.antt =====
-- What the server that `main` starts refuses.
use hassh.Common.{◌≡◌, refl, ap, ◌∙◌, Bool, Option, none, some, List, Result, ok, err, panics}
use hassh.Text.{Bytes}
use hassh.Filter.{BlocklistFilter, contains, reload, new_blocklist_filter}
use hassh.Storage.Rows.{is_blocked}
use hassh.Storage.Database.Replies.{Reply, done, failed, After, after_done, after_failed}
use hassh.Storage.Database.{Database, IsLawful}
use hassh.Storage.Repository.{load_blocked_hashes}
use hassh.Storage.Setup.{Schema, migrated_tables, lookup_index, new_repository}
use hassh.Storage.Enforced.{load_blocked_hashes-reload}
use hassh.Proxy.Reader.{Conn}
use hassh.Proxy.Lifecycle.{Server, StartError, new_server}
use hassh.Proxy.Lifecycle.Reloads.{new_server_lem}
use hassh.Proxy.Main.{hashes_of, served, with_repository, start_proxy}

module _ (D : Database) where
  -- Tables and an index are made, but no row is changed.
  pub record IsSchema (M : Schema D.State) : Type 0 where
    pub migrated :
        (s : D.State)
        → After
            (λ _ t. D.rows t ≡ D.rows s)
            (λ _ t. D.rows t ≡ D.rows s)
            (M.auto_migrate migrated_tables s)
    pub indexed :
        (s : D.State)
        → After (λ _ t. D.rows t ≡ D.rows s) (λ _ t. D.rows t ≡ D.rows s) (M.exec lookup_index s)

  -- The blocklist refuses what the tables block.
  abbrev pub Refuses : Server → D.State → Type 0
  Refuses server s =
      (b : BlocklistFilter) × ((server.blocklist ≡ some b)
        × ((k : Bytes) → contains b k ≡ is_blocked k (D.rows s)))

  kept :
      {A : Type 0} {s : D.State} {m : Reply A × D.State}
      → After (λ _ t. D.rows t ≡ D.rows s) (λ _ t. D.rows t ≡ D.rows s) m
      → D.rows m.1 ≡ D.rows s
  kept (after_done e) = e
  kept (after_failed e) = e

  pub new_repository_rows :
      (M : Schema D.State) (s : D.State) → IsSchema M → D.rows (new_repository M s).1 ≡ D.rows s
  unfolding new_repository
  new_repository_rows M s h = go (M.auto_migrate migrated_tables s) (h.migrated s)
    where
      go :
          (m : Reply (Unit {0}) × D.State)
          → After (λ _ t. D.rows t ≡ D.rows s) (λ _ t. D.rows t ≡ D.rows s) m
          → D.rows
              (elim m.0 as (λ _. Reply (Unit {0}) × D.State) [
                | failed e ↦ (failed e, m.1)
                | done _ ↦ (done tt, (M.exec lookup_index m.1).1)
              ]).1
            ≡ D.rows s
      go (done u, t) a = kept (h.indexed t) ∙ kept a
      go (failed e, t) a = kept a

  module _ (L : IsLawful D) (probe : Option Conn) (connected : Bool) where
    loaded_Refuses :
        (s : D.State) (m : Reply (List Bytes) × D.State) {server : Server}
        → load_blocked_hashes D s ≡ m
        → new_server probe connected (hashes_of m.0) ≡ ok server
        → Refuses server s
    loaded_Refuses s (done hashes, t) e begun =
        let (banner, (hs, (_, l, there))) = new_server_lem probe connected (some hashes) begun in
        (
          reload new_blocklist_filter hs,
          (
            ap (λ x. x.blocklist) there,
            λ k. load_blocked_hashes-reload D L new_blocklist_filter hs s t k (cc (e, l)),
          ),
        )
    loaded_Refuses s (failed x, t) e begun =
        let (banner, (hs, (_, l, there))) = new_server_lem probe connected none begun in cc l

    served_ok :
        (r : Result StartError Server) (s : D.State) {server : Server} {t : D.State}
        → served D r s ≡ ok (server, t)
        → r ≡ ok server
    served_ok (ok x) s e = cc e
    served_ok (err x) s e = cc e
    served_ok panics s e = cc e

    with_repository-Refuses :
        (m : Reply (Unit {0}) × D.State) {server : Server} {t : D.State}
        → with_repository D probe connected m ≡ ok (server, t)
        → Refuses server m.1
    with_repository-Refuses (done u, s) e =
        loaded_Refuses s (load_blocked_hashes D s) refl (served_ok _ _ e)
    with_repository-Refuses (failed x, s) e = cc e

    -- Over a database that meets its laws, and whose rows the migration leaves alone: if `main` gets
    -- as far as to start a server, the blocklist of this server refuses exactly those fingerprints
    -- that the database blocked when it was opened.
    pub start_proxy-Refuses :
        (M : Schema D.State) (s : D.State) {server : Server} {t : D.State}
        → IsSchema M
        → start_proxy D (some s) M probe connected ≡ ok (server, t)
        → Refuses server s
    unfolding start_proxy
    start_proxy-Refuses M s {server} h e =
        let (b, (held, all)) = with_repository-Refuses (new_repository M s) e in
        (b, (held, λ k. all k ∙ ap (is_blocked k) (new_repository_rows M s h)))

-- ===== src/Storage/Setup.antt =====
-- pkg/storage/db.go: `NewRepository`, and `GetBlockedFingerprints`, over what the database answers.
use hassh.Common.{List, [], ◌∷◌}
use hassh.Text.{Bytes, codes}
use hassh.Storage.Database.Replies.{Reply, done, failed}

-- The tables that gorm migrates.
pub data Table : Type 0 where
  ip_addresses : Table
  hassh_fingerprints : Table
  ssh_client_banners : Table
  blocked_fingerprints : Table
  ssh_connections : Table

-- In the order of what they refer to.
abbrev pub migrated_tables : List Table
migrated_tables =
    ip_addresses ∷ hassh_fingerprints ∷ ssh_client_banners ∷ blocked_fingerprints ∷ ssh_connections
    ∷ []

abbrev pub lookup_index : Bytes
lookup_index =
    codes
      "CREATE INDEX IF NOT EXISTS idx_connection_lookup ON ssh_connections(hassh_fingerprint_id, ip_address_id, timestamp DESC)"

pub record Schema (S : Type 0) : Type 0 where
  pub auto_migrate : List Table → S → Reply (Unit {0}) × S
  pub exec : Bytes → S → Reply (Unit {0}) × S

-- The error of the index is dropped.
unfoldable pub new_repository : {S : Type 0} → Schema S → S → Reply (Unit {0}) × S
new_repository M s = elim (M.auto_migrate migrated_tables s).0 [
  | failed e ↦ (failed e, (M.auto_migrate migrated_tables s).1)
  | done _ ↦ (done tt, (M.exec lookup_index (M.auto_migrate migrated_tables s).1).1)
]

-- The columns of `GetBlockedFingerprints`; `T` is time.Time.
pub record BlockedRow (T : Type 0) : Type 0 where
  pub fingerprint : Bytes
  pub blocked_at : T
  pub reason : Bytes

abbrev pub blocked_order : Bytes
blocked_order = codes "blocked_fingerprints.blocked_at DESC"

-- `find` is the query over the join, in the order that it is given.
unfoldable pub get_blocked_fingerprints :
    {T S : Type 0}
    → (Bytes → S → Reply (List (BlockedRow T)) × S)
    → S
    → Reply (List (BlockedRow T)) × S
get_blocked_fingerprints find s = find blocked_order s

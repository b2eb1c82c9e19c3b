-- ===== src/Storage/Statistics.antt =====
-- pkg/storage/db.go: `GetStatistics`, five counts whose errors are dropped.
pub mod Counts
pub mod Recorded
use hassh.Common.{ℕ, ◌+◌, ◌≡◌, Bool, true, false, List, [], ◌∷◌, if◌then◌else◌}
use hassh.Storage.Rows.{
  Row, hassh_fingerprint, blocked_fingerprint, logged, ip_address, ssh_client_banner,
  ssh_connection, Entry,
}
use hassh.Storage.Database.Replies.{Reply, done, failed, After}
use hassh.Storage.Database.{Database, Kept}

-- The models and conditions of the counts.
pub data CountQuery : Type 0 where
  all_connections : CountQuery
  blocked_connections : CountQuery
  all_addresses : CountQuery
  all_fingerprints : CountQuery
  all_banners : CountQuery

pub record Statistics : Type 0 where
  pub total_connections : ℕ
  pub blocked_connections : ℕ
  pub unique_ips : ℕ
  pub unique_fingerprints : ℕ
  pub unique_banners : ℕ

-- `Count(&stats.…)`: what the variable holds behind a count; an error leaves its zero.
abbrev pub left_in : Reply ℕ → ℕ
left_in (done n) = n
left_in (failed e) = 0

-- Does a count take in a row?
unfoldable pub is_counted : CountQuery → Row → Bool
is_counted all_connections (logged (ssh_connection _ _ _ _)) = true
is_counted blocked_connections (logged (ssh_connection _ _ _ blocked)) = blocked
is_counted all_addresses (logged (ip_address _ _)) = true
is_counted all_fingerprints (hassh_fingerprint _) = true
is_counted all_banners (logged (ssh_client_banner _)) = true
is_counted _ _ = false

unfoldable pub number : CountQuery → List Entry → ℕ
number q [] = 0
number q (e ∷ es) = (if is_counted q e.1 then 1 else 0) + number q es

module _ (D : Database) where
  pub record Counter : Type 0 where
    pub count : CountQuery → D.State → Reply ℕ × D.State

  -- A count writes nothing, and gives the number of rows unless it fails.
  pub record IsCounter (K : Counter) : Type 0 where
    pub count_rows :
        (q : CountQuery) (s : D.State)
        → After (λ n t. Kept D s t × (n ≡ number q (D.rows s))) (λ _ t. Kept D s t) (K.count q s)

  unfoldable pub get_statistics : Counter → D.State → Reply Statistics × D.State
  get_statistics K s =
      let (total, t) = K.count all_connections s in
      let (blocked, u) = K.count blocked_connections t in
      let (ips, v) = K.count all_addresses u in
      let (fingerprints, w) = K.count all_fingerprints v in
      let (banners, x) = K.count all_banners w in
      (
        done (record {
          total_connections = left_in total;
          blocked_connections = left_in blocked;
          unique_ips = left_in ips;
          unique_fingerprints = left_in fingerprints;
          unique_banners = left_in banners;
        }),
        x,
      )

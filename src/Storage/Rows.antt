-- ===== src/Storage/Rows.antt =====
-- The tables of pkg/storage/db.go as rows with their primary keys, in the order of the keys, and
-- the conditions that the repository looks rows up by. The columns of times are left out.
pub mod Consistent
pub mod Changes
pub mod Added
pub mod Deleted
use hassh.Common.{
  if◌then◌else◌, ℕ, Bool, true, false, ◌&&◌, ◌||◌, Option, none, some, List, [], ◌∷◌, ◌==◌,
}
use hassh.Text.{Bytes, same}

-- The tables in which connections are recorded.
pub data LogRow : Type 0 where
  -- version and bytes
  ip_address : ℕ → Bytes → LogRow
  ssh_client_banner : Bytes → LogRow
  -- the keys of address, fingerprint and banner, and whether the client was blocked
  ssh_connection : ℕ → ℕ → ℕ → Bool → LogRow

pub data Row : Type 0 where
  hassh_fingerprint : Bytes → Row
  -- the fingerprint's key, and the reason
  blocked_fingerprint : ℕ → Bytes → Row
  logged : LogRow → Row

-- A row behind its primary key.
abbrev pub Entry : Type 0
Entry = ℕ × Row

-- The texts of `Where`, with their values.
pub data Query : Type 0 where
  by_address : ℕ → Bytes → Query
  by_fingerprint : Bytes → Query
  by_banner : Bytes → Query
  by_hassh_id : ℕ → Query

abbrev pub log_matches : Query → LogRow → Bool
log_matches (by_address v a) (ip_address w b) = w == v && same b a
log_matches (by_banner b) (ssh_client_banner c) = same c b
log_matches _ _ = false

unfoldable pub matches : Query → Row → Bool
matches (by_fingerprint f) (hassh_fingerprint g) = same g f
matches (by_hassh_id i) (blocked_fingerprint j reason) = j == i
matches q (logged r) = log_matches q r
matches _ _ = false

-- What `First` finds.
unfoldable pub find : Query → List Entry → Option Entry
find q [] = none
find q (e ∷ es) = if matches q e.1 then some e else find q es

unfoldable pub has : Query → List Entry → Bool
has q [] = false
has q (e ∷ es) = matches q e.1 || has q es

-- What `Delete` leaves.
unfoldable pub without : Query → List Entry → List Entry
without q [] = []
without q (e ∷ es) = let rest = without q es in if matches q e.1 then rest else e ∷ rest

abbrev pub same_log_table : LogRow → LogRow → Bool
same_log_table (ip_address _ _) (ip_address _ _) = true
same_log_table (ssh_client_banner _) (ssh_client_banner _) = true
same_log_table (ssh_connection _ _ _ _) (ssh_connection _ _ _ _) = true
same_log_table _ _ = false

unfoldable pub same_table : Row → Row → Bool
same_table (hassh_fingerprint _) (hassh_fingerprint _) = true
same_table (blocked_fingerprint _ _) (blocked_fingerprint _ _) = true
same_table (logged r) (logged t) = same_log_table r t
same_table _ _ = false

-- Is a key in use in the table of a row?
unfoldable pub taken : Row → ℕ → List Entry → Bool
taken r i [] = false
taken r i (e ∷ es) = (same_table r e.1 && e.0 == i) || taken r i es

-- Is there a row of the first list, a fingerprint `k`, whose key some block in the second names?
unfoldable pub joined : Bytes → List Entry → List Entry → Bool
joined k [] blocks = false
joined k (e ∷ es) blocks =
    (matches (by_fingerprint k) e.1 && has (by_hassh_id e.0) blocks) || joined k es blocks

-- The join of `LoadBlockedHashes`: is a fingerprint blocked?
abbrev pub is_blocked : Bytes → List Entry → Bool
is_blocked k es = joined k es es

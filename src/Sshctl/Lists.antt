-- ===== src/Sshctl/Lists.antt =====
-- cmd/sshctl/command/list.go and log.go: the choice of the state, and the lines of the tables.
-- Numbers stand as they are, in place of their decimals.
pub mod Shown
use hassh.Common.{
  if◌then◌else◌, ℕ, ◌-◌, Bool, true, false, Option, none, some, List, [], ◌∷◌, ◌++◌, map, ltb,
  length, take,
}
use hassh.Text.{Bytes, codes, same}
use hassh.Storage.Database.Replies.{DbError, Reply, done, failed}
use hassh.Storage.Queries.{ℤ, Clock, ConnectionDetail, HasshSummary}
use hassh.Sshctl.Repository.{Repository}

-- The switch over `state`; the inner `none` is a nil pointer.
unfoldable pub state_of : Bytes → Option (Option Bool)
state_of state =
    if same state (codes "allowed")
    then some (some false)
    else if same state (codes "blocked")
    then some (some true)
    else if same state (codes "all")
    then some none
    else none

-- `if len(banner) > n { banner = banner[:n-3] + "..." }`
unfoldable pub clip : ℕ → Bytes → Bytes
clip n banner = if ltb n (length banner) then take (n - 3) banner ++ codes "..." else banner

abbrev pub yes_no : Bool → Bytes
yes_no true = codes "YES"
yes_no false = codes "no"

abbrev pub date_layout : Bytes
date_layout = codes "2006-01-02 15:04:05"

pub record SummaryLine : Type 0 where
  pub hassh : Bytes
  pub banner : Bytes
  pub ip_count : ℕ
  pub total_connections : ℕ
  pub last_seen : Bytes
  pub blocked : Bytes

pub record ConnectionLine : Type 0 where
  pub id : ℕ
  pub timestamp : Bytes
  pub ip_address : Bytes
  pub hassh : Bytes
  pub banner : Bytes
  pub blocked : Bytes

-- What a command prints or returns.
pub data Listing (Line : Type 0) : Type 0 where
  invalid_state : Bytes → Listing Line
  list_failed : DbError → Listing Line
  nothing_found : Listing Line
  table : List Line → Listing Line
  flush_failed : List Line → Listing Line

-- From the answer of the repository on.
abbrev pub listing : {A Line S : Type 0} → (A → Line) → Bool → Reply (List A) × S → Listing Line × S
listing line flushes (failed e, s) = (list_failed e, s)
listing line flushes (done [], s) = (nothing_found, s)
listing line flushes (done (x ∷ xs), s) =
    (if flushes then table (map line (x ∷ xs)) else flush_failed (map line (x ∷ xs)), s)

-- The call for the state that was chosen, or the error of the switch.
abbrev pub chosen :
    {Line S : Type 0}
    → Bytes
    → (Option Bool → Listing Line × S)
    → S
    → Option (Option Bool)
    → Listing Line × S
chosen state show s none = (invalid_state state, s)
chosen state show s (some blocked) = show blocked

module _ (C : Clock) where
  unfoldable pub summary_line : HasshSummary C → SummaryLine
  unfolding clip
  summary_line s = record {
    hassh = s.hassh_fingerprint;
    banner = clip 45 s.ssh_client_banner;
    ip_count = s.ip_count;
    total_connections = s.total_connections;
    last_seen = C.format s.last_seen date_layout;
    blocked = yes_no s.blocked;
  }

  unfoldable pub connection_line : ConnectionDetail C → ConnectionLine
  unfolding clip
  connection_line c = record {
    id = c.id;
    timestamp = C.format c.timestamp date_layout;
    ip_address = c.ip_address;
    hassh = c.hassh_fingerprint;
    banner = clip 40 c.ssh_client_banner;
    blocked = yes_no c.blocked;
  }

  module _ (R : Repository C) where
    -- `flushes` is whether the output takes the table.
    unfoldable pub list_cmd :
        ℤ → Bytes → Bytes → Bool → Bool → R.State → Listing SummaryLine × R.State
    list_cmd limit state sort_by reverse flushes s =
        chosen state
          (λ blocked.
            listing summary_line flushes (R.list_hassh_summaries limit blocked sort_by reverse s))
          s (state_of state)

    unfoldable pub log_cmd :
        ℤ → Bytes → Bytes → Bool → Bool → R.State → Listing ConnectionLine × R.State
    log_cmd limit state sort_by reverse flushes s =
        chosen state
          (λ blocked.
            listing connection_line flushes (R.list_connections limit blocked sort_by reverse s))
          s (state_of state)

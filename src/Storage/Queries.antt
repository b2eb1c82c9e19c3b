-- ===== src/Storage/Queries.antt =====
-- pkg/storage/db.go: the queries that list and search. A query is what the source varies in
-- it: its conditions, its ORDER BY and its LIMIT; the joined tables and the selected columns are
-- fixed. What the database answers is an argument.
pub mod Order
pub mod Selected
use hassh.Common.{
  if◌then◌else◌, ℕ, Bool, true, false, Option, none, some, List, [], ◌∷◌, ◌++◌, map, ltb, ◌==◌,
}
use hassh.Text.{Bytes, codes, same, is_empty}
use hassh.Storage.Database.Replies.{Reply, done, failed, invalid_data, ◌>>=◌}
use hassh.Storage.Repository.{Net, parse_ip, ip_to_string}

-- `int`
pub data ℤ : Type 0 where
  pos : ℕ → ℤ
  negsuc : ℕ → ℤ

-- `if limit > 0 { query = query.Limit(limit) }`
abbrev pub limit_of : ℤ → Option ℤ
limit_of (pos n) = if ltb 0 n then some (pos n) else none
limit_of (negsuc n) = none

-- Package time: moments, and texts by a layout.
pub record Clock : Type 1 where
  pub Time : Type 0
  pub zero_time : Time
  pub parse : Bytes → Bytes → Option Time
  pub format : Time → Bytes → Bytes

-- The texts of `Where` and `Having`; `like` has its pattern between two percent signs.
pub data Condition : Type 0 where
  blocked_is : Bool → Condition
  address_is : ℕ → Bytes → Condition
  address_like : Bytes → Condition
  fingerprint_like : Bytes → Condition
  banner_like : Bytes → Condition

pub record SelectQuery : Type 0 where
  pub conditions : List Condition
  pub order : Bytes
  pub limit : Option ℤ

abbrev pub descending : Bool → Bytes
descending true = codes " DESC"
descending false = codes " ASC"

unfoldable pub connection_column : Bytes → Bytes
connection_column sort_by =
    if same sort_by (codes "timestamp")
    then codes "ssh_connections.timestamp"
    else if same sort_by (codes "ip")
    then codes "ip_addresses.address"
    else if same sort_by (codes "hassh")
    then codes "hassh_fingerprints.fingerprint"
    else codes "ssh_connections.timestamp"

unfoldable pub summary_column : Bytes → Bytes
summary_column sort_by =
    if same sort_by (codes "last_seen")
    then codes "last_seen"
    else if same sort_by (codes "ip_count")
    then codes "ip_count"
    else if same sort_by (codes "total")
    then codes "total_connections"
    else if same sort_by (codes "hassh")
    then codes "hassh_fingerprint"
    else if same sort_by (codes "banner")
    then codes "ssh_client_banner"
    else codes "last_seen"

abbrev pub connection_order : Bytes → Bool → Bytes
connection_order sort_by reverse = connection_column sort_by ++ descending reverse

abbrev pub summary_order : Bytes → Bool → Bytes
summary_order sort_by reverse = summary_column sort_by ++ descending reverse

-- `if blocked != nil`
abbrev pub blocked_condition : Option Bool → List Condition
blocked_condition none = []
blocked_condition (some b) = blocked_is b ∷ []

-- `if text != ""`
abbrev pub like_condition : (Bytes → Condition) → Bytes → List Condition
like_condition c text = if is_empty text then [] else c text ∷ []

-- The rows of a query over the connections, and of one over the summaries.
module _ (C : Clock) where
  pub record ConnectionRow : Type 0 where
    pub id : ℕ
    pub timestamp : C.Time
    pub ip_version : ℕ
    pub ip_address_bytes : Bytes
    pub hassh_fingerprint : Bytes
    pub ssh_client_banner : Bytes
    pub blocked : Bool

  pub record ConnectionDetail : Type 0 where
    pub id : ℕ
    pub timestamp : C.Time
    pub ip_address : Bytes
    pub hassh_fingerprint : Bytes
    pub ssh_client_banner : Bytes
    pub blocked : Bool

  -- The times of a group come back as text.
  pub record SummaryRow : Type 0 where
    pub hassh_fingerprint : Bytes
    pub ssh_client_banner : Bytes
    pub ip_count : ℕ
    pub last_seen : Bytes
    pub first_seen : Bytes
    pub total_connections : ℕ
    pub is_blocked : ℕ

  pub record HasshSummary : Type 0 where
    pub hassh_fingerprint : Bytes
    pub ssh_client_banner : Bytes
    pub ip_count : ℕ
    pub last_seen : C.Time
    pub first_seen : C.Time
    pub total_connections : ℕ
    pub blocked : Bool

  unfoldable pub detail_of : Net → ConnectionRow → ConnectionDetail
  detail_of N r = record {
    id = r.id;
    timestamp = r.timestamp;
    ip_address = ip_to_string N r.ip_version r.ip_address_bytes;
    hassh_fingerprint = r.hassh_fingerprint;
    ssh_client_banner = r.ssh_client_banner;
    blocked = r.blocked;
  }

  -- The two layouts, one after the other, and the zero time.
  unfoldable pub seen_time : Bytes → C.Time
  seen_time text = elim (C.parse (codes "2006-01-02 15:04:05.999999999-07:00") text) [
    | some t ↦ t
    | none ↦ elim (C.parse (codes "2006-01-02 15:04:05") text) [ some t ↦ t | none ↦ C.zero_time ]
  ]

  unfoldable pub summary_of : SummaryRow → HasshSummary
  unfolding seen_time
  summary_of r = record {
    hassh_fingerprint = r.hassh_fingerprint;
    ssh_client_banner = r.ssh_client_banner;
    ip_count = r.ip_count;
    last_seen = seen_time r.last_seen;
    first_seen = seen_time r.first_seen;
    total_connections = r.total_connections;
    blocked = r.is_blocked == 1;
  }

  -- `query.Find(&results)`
  pub record Reader (S : Type 0) : Type 0 where
    pub find_connections : SelectQuery → S → Reply (List ConnectionRow) × S
    pub find_summaries : SelectQuery → S → Reply (List SummaryRow) × S

  module _ {S : Type 0} (Q : Reader S) (N : Net) where
    abbrev details : Reply (List ConnectionRow) × S → Reply (List ConnectionDetail) × S
    details m = m >>= λ rows s. (done (map (detail_of N) rows), s)

    abbrev summaries : Reply (List SummaryRow) × S → Reply (List HasshSummary) × S
    summaries m = m >>= λ rows s. (done (map summary_of rows), s)

    unfoldable pub list_connections :
        ℤ → Option Bool → Bytes → Bool → S → Reply (List ConnectionDetail) × S
    list_connections limit blocked sort_by reverse s = details (
        Q.find_connections
          (record {
            conditions = blocked_condition blocked;
            order = connection_order sort_by reverse;
            limit = limit_of limit;
          })
          s)

    -- Here any limit is passed on.
    unfoldable pub get_connection_history : Bytes → ℤ → S → Reply (List ConnectionDetail) × S
    get_connection_history ip_str limit s = elim (parse_ip N ip_str) [
      | none ↦ (failed invalid_data, s)
      | some (version, address) ↦ details (
          Q.find_connections
            (record {
              conditions = address_is version address ∷ [];
              order = codes "ssh_connections.timestamp DESC";
              limit = some limit;
            })
            s)
    ]

    unfoldable pub get_all_connections : ℤ → S → Reply (List ConnectionDetail) × S
    unfolding list_connections
    get_all_connections limit = list_connections limit none (codes "timestamp") true

    unfoldable pub search_connections :
        Bytes → Bytes → Bytes → ℤ → S → Reply (List ConnectionDetail) × S
    search_connections ip hassh banner limit s = details (
        Q.find_connections
          (record {
            conditions =
                like_condition address_like ip
                ++ (like_condition fingerprint_like hassh ++ like_condition banner_like banner);
            order = codes "ssh_connections.timestamp DESC";
            limit = limit_of limit;
          })
          s)

    unfoldable pub list_hassh_summaries :
        ℤ → Option Bool → Bytes → Bool → S → Reply (List HasshSummary) × S
    list_hassh_summaries limit blocked sort_by reverse s = summaries (
        Q.find_summaries
          (record {
            conditions = blocked_condition blocked;
            order = summary_order sort_by reverse;
            limit = limit_of limit;
          })
          s)

    unfoldable pub search_hassh_summaries : Bytes → Bytes → ℤ → S → Reply (List HasshSummary) × S
    search_hassh_summaries hassh banner limit s = summaries (
        Q.find_summaries
          (record {
            conditions = like_condition fingerprint_like hassh ++ like_condition banner_like banner;
            order = codes "last_seen DESC";
            limit = limit_of limit;
          })
          s)

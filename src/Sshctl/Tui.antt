-- ===== src/Sshctl/Tui.antt =====
-- cmd/sshctl/tui/tui.go: the model of the terminal interface, its tables, views and filters.
pub mod Changes
pub mod Keys
pub mod Sound
pub mod Reports
pub mod View
use hassh.Common.{
  if◌then◌else◌, ℕ, suc, zero, ◌+◌, ◌/◌, ◌%◌, Bool, true, false, Option, none, some, List, [], ◌∷◌,
  ◌++◌, map, ltb,
}
use hassh.Text.{Bytes, codes, decimal}
use hassh.Filter.{BoolMap, lookup}
use hassh.Storage.Database.Replies.{DbError, Reply, done, failed}
use hassh.Storage.Queries.{ℤ, pos, Clock, ConnectionDetail, HasshSummary}
use hassh.Sshctl.Repository.{Repository}
use hassh.Sshctl.Lists.{clip, yes_no, date_layout}

pub data ViewMode : Type 0 where
  view_listing : ViewMode
  view_logs : ViewMode

-- What `msg.Type` is compared with, and `msg.String()`.
pub data KeyType : Type 0 where
  key_esc : KeyType
  key_enter : KeyType
  key_tab : KeyType
  other_key : KeyType

pub record KeyMsg : Type 0 where
  pub type_of : KeyType
  pub text : Bytes

pub data Msg : Type 0 where
  key_msg : KeyMsg → Msg
  tick_msg : Msg
  window_size_msg : ℤ → Msg
  other_msg : Msg

-- A column: title and width.
abbrev pub Column : Type 0
Column = Bytes × ℕ

-- The packages bubbletea and bubbles, and the order in which `range` visits a map.
pub record Toolkit : Type 1 where
  pub Table : Type 0
  pub Input : Type 0
  pub Cmd : Type 0
  pub new_table : List Column → ℕ → Table
  pub set_columns : List Column → Table → Table
  pub set_rows : List (List Bytes) → Table → Table
  pub set_height : ℤ → Table → Table
  pub cursor : Table → ℤ
  pub update_table : Msg → Table → Table × Option Cmd
  pub new_input : Bytes → ℕ → Input
  pub focus : Input → Input
  pub blur : Input → Input
  pub value : Input → Bytes
  pub set_value : Bytes → Input → Input
  pub update_input : Msg → Input → Input × Option Cmd
  pub quit : Cmd
  pub tick : Cmd
  pub order : BoolMap → BoolMap

-- The status messages.
pub data Status : Type 0 where
  no_status : Status
  switched_to : ViewMode → Status
  filter_named : Bytes → Status
  selection_cleared : Status
  search_opened : ViewMode → Status
  refreshed : Status
  search_by : Bytes → Status
  search_failed : DbError → Status
  found : ℕ → Bytes → Status
  none_selected : ViewMode → Status
  changed : Bool → ℕ → Status
  partly_changed : Bool → ℕ → List (Bytes × DbError) → Status

abbrev pub listing_columns : List Column
listing_columns =
    (codes "HASSH", 32)
    ∷ (codes "Banner", 45)
    ∷ (codes "IPs", 6)
    ∷ (codes "Conns", 8)
    ∷ (codes "Last Seen", 19)
    ∷ (codes "Blocked", 7)
    ∷ []

abbrev pub logs_columns : List Column
logs_columns =
    (codes "ID", 8)
    ∷ (codes "Timestamp", 19)
    ∷ (codes "IP Address", 15)
    ∷ (codes "HASSH", 32)
    ∷ (codes "Banner", 40)
    ∷ (codes "Blocked", 7)
    ∷ []

-- The tick in front of a selected row, in UTF-8.
abbrev pub mark_of : Bool → Bytes
mark_of true = 226 ∷ 156 ∷ 147 ∷ 32 ∷ []
mark_of false = codes "  "

-- The switch over the filter: filterAll is 0, filterAllowed is 1, and filterBlocked is 2.
abbrev pub blocked_of : ℕ → Option Bool
blocked_of zero = none
blocked_of (suc zero) = some false
blocked_of (suc (suc zero)) = some true
blocked_of (suc (suc (suc n))) = none

module _ (C : Clock) where
  unfoldable pub listing_row : BoolMap → HasshSummary C → List Bytes
  unfolding clip decimal
  listing_row selected s =
      (mark_of (lookup s.hassh_fingerprint selected) ++ s.hassh_fingerprint)
      ∷ clip 42 s.ssh_client_banner
      ∷ decimal s.ip_count
      ∷ decimal s.total_connections
      ∷ C.format s.last_seen date_layout
      ∷ yes_no s.blocked
      ∷ []

  unfoldable pub logs_row : BoolMap → ConnectionDetail C → List Bytes
  unfolding clip decimal
  logs_row selected c =
      (mark_of (lookup (decimal c.id) selected) ++ decimal c.id)
      ∷ C.format c.timestamp date_layout
      ∷ c.ip_address
      ∷ c.hassh_fingerprint
      ∷ clip 37 c.ssh_client_banner
      ∷ yes_no c.blocked
      ∷ []

module _ (C : Clock) (K : Toolkit) where
  pub record Model : Type 0 where
    pub table : K.Table
    pub mode : ViewMode
    pub filter : ℕ
    pub limit : ℤ
    pub summaries : List (HasshSummary C)
    pub connections : List (ConnectionDetail C)
    pub selected : BoolMap
    pub search_mode : Bool
    pub search_input : K.Input
    pub search_field : Bytes
    pub error : Option DbError
    pub status_message : Status

module _ (C : Clock) (K : Toolkit) where
  unfoldable pub update_listing_table : Model C K → Model C K
  unfolding listing_row
  update_listing_table m = record m {
    table = K.set_rows (map (listing_row C m.selected) m.summaries) m.table;
  }

  unfoldable pub update_logs_table : Model C K → Model C K
  unfolding logs_row
  update_logs_table m = record m {
    table = K.set_rows (map (logs_row C m.selected) m.connections) m.table;
  }

  -- The two branches of `refreshData`, from the answer on.
  abbrev pub listing_loaded :
      {S : Type 0} → Model C K → Reply (List (HasshSummary C)) × S → Model C K × S
  listing_loaded m (done ds, s) = (update_listing_table (record m { summaries = ds }), s)
  listing_loaded m (failed e, s) = (record m { error = some e }, s)

  abbrev pub logs_loaded :
      {S : Type 0} → Model C K → Reply (List (ConnectionDetail C)) × S → Model C K × S
  logs_loaded m (done ds, s) = (update_logs_table (record m { connections = ds }), s)
  logs_loaded m (failed e, s) = (record m { error = some e }, s)

  module _ (R : Repository C) where
    abbrev pub refresh_in : ViewMode → Model C K → R.State → Model C K × R.State
    refresh_in view_listing m s =
        listing_loaded m
          (R.list_hassh_summaries m.limit (blocked_of m.filter) (codes "last_seen") true s)
    refresh_in view_logs m s =
        logs_loaded m (R.list_connections m.limit (blocked_of m.filter) (codes "timestamp") true s)

    unfoldable pub refresh_data : Model C K → R.State → Model C K × R.State
    refresh_data m s = refresh_in m.mode m s

    abbrev pub opened : ViewMode → Model C K → Model C K
    opened view_listing m = record m {
      mode = view_listing;
      filter = 0;
      selected = [];
      table = K.set_columns listing_columns m.table;
      search_field = codes "hassh";
    }
    opened view_logs m = record m {
      mode = view_logs;
      filter = 0;
      selected = [];
      table = K.set_columns logs_columns m.table;
      search_field = codes "ip";
    }

    abbrev pub is_in : ViewMode → ViewMode → Bool
    is_in view_listing view_listing = true
    is_in view_logs view_logs = true
    is_in a b = false

    unfoldable pub switch_view : ViewMode → Model C K → R.State → Model C K × R.State
    unfolding refresh_data
    switch_view new m s = if is_in m.mode new then (m, s) else refresh_data (opened new m) s

    -- The first model, before its data is loaded.
    abbrev pub empty_model : ℤ → Model C K
    empty_model limit = record {
      table = K.new_table listing_columns 20;
      mode = view_listing;
      filter = 0;
      limit = limit;
      summaries = [];
      connections = [];
      selected = [];
      search_mode = false;
      search_input = K.new_input (codes "Search...") 100;
      search_field = codes "hassh";
      error = none;
      status_message = no_status;
    }

    unfoldable pub new_model : ℤ → R.State → Model C K × R.State
    unfolding refresh_data
    new_model limit s = refresh_data (empty_model limit) s

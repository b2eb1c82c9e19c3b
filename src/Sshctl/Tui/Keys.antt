-- ===== src/Sshctl/Tui/Keys.antt =====
-- cmd/sshctl/tui/tui.go: `Update` and the two handlers of keys.
use hassh.Common.{
  ℕ, ◌+◌, ◌-◌, ◌%◌, Bool, true, false, not, Option, none, some, List, [], ◌∷◌, ltb, if◌then◌else◌,
  length, get_elem?, Result, ok, ◌>>=◌, or_panic, index,
}
use hassh.Text.{Bytes, codes, same, is_empty, decimal}
use hassh.Filter.{lookup, insert}
use hassh.Storage.Database.Replies.{Reply, done, failed}
use hassh.Storage.Queries.{ℤ, pos, negsuc, Clock, ConnectionDetail, HasshSummary}
use hassh.Sshctl.Repository.{Repository}
use hassh.Sshctl.Tui.{
  ViewMode, view_listing, view_logs, KeyType, key_esc, key_enter, key_tab, other_key, KeyMsg, Msg,
  key_msg, tick_msg, window_size_msg, other_msg, Toolkit, no_status, switched_to, filter_named,
  selection_cleared, search_opened, refreshed, search_by, search_failed, found, Model,
  update_listing_table, update_logs_table, refresh_data, switch_view,
}
use hassh.Sshctl.Tui.Changes.{
  block_selected, block_selected_from_logs, unblock_selected, unblock_selected_from_logs,
}

-- The cases of the switch over `msg.String()`.
pub data Key : Type 0 where
  quit_key : Key
  view_key : Key
  next_key : Key
  previous_key : Key
  select_key : Key
  block_key : Key
  unblock_key : Key
  clear_key : Key
  search_key : Key
  refresh_key : Key
  unknown_key : Key

unfoldable pub key_of : Bytes → Key
key_of text =
    if same text (codes "q")
    then quit_key
    else if same text (codes "ctrl+c")
    then quit_key
    else if same text (codes "v")
    then view_key
    else if same text (codes "tab")
    then next_key
    else if same text (codes "shift+tab")
    then previous_key
    else if same text (codes " ")
    then select_key
    else if same text (codes "b")
    then block_key
    else if same text (codes "u")
    then unblock_key
    else if same text (codes "c")
    then clear_key
    else if same text (codes "/")
    then search_key
    else if same text (codes "r")
    then refresh_key
    else unknown_key

abbrev pub filter_names : List Bytes
filter_names = codes "all" ∷ codes "allowed" ∷ codes "blocked" ∷ []

-- `m.table.Cursor() < len(xs)` and `xs[m.table.Cursor()]`
abbrev pub is_before : ℤ → ℕ → Bool
is_before (pos i) n = ltb i n
is_before (negsuc i) n = true

abbrev pub element : {A : Type 0} → List A → ℤ → Result ⊥ A
element xs (pos i) = index xs i
element xs (negsuc i) = or_panic none

-- `msg.Height - 10`
abbrev pub minus_ten : ℤ → ℤ
minus_ten (pos n) = if ltb n 10 then negsuc (9 - n) else pos (n - 10)
minus_ten (negsuc n) = negsuc (n + 10)

-- The next search field of a view.
abbrev pub next_field : ViewMode → Bytes → Bytes
next_field view_listing field = if same field (codes "hassh") then codes "banner" else codes "hassh"
next_field view_logs field =
    if same field (codes "ip")
    then codes "hassh"
    else if same field (codes "hassh")
    then codes "banner"
    else if same field (codes "banner")
    then codes "ip"
    else field

-- The query as the argument for one field, and the empty string for the others.
abbrev pub asked : Bytes → Bytes → Bytes → Bytes
asked field name query = if same field name then query else []

module _ (C : Clock) (K : Toolkit) (R : Repository C) where
  abbrev pub Handled : Type 0
  Handled = Result ⊥ (Model C K × Option K.Cmd × R.State)

  abbrev pub summaries_found :
      Bytes → Model C K → Reply (List (HasshSummary C)) × R.State → Model C K × R.State
  summaries_found query m (done ds, s) = (
    record (update_listing_table C K (record m { summaries = ds })) {
      status_message = found (length ds) query;
    },
    s,
  )
  summaries_found query m (failed e, s) =
      (record m { error = some e; status_message = search_failed e }, s)

  abbrev pub connections_found :
      Bytes → Model C K → Reply (List (ConnectionDetail C)) × R.State → Model C K × R.State
  connections_found query m (done ds, s) = (
    record (update_logs_table C K (record m { connections = ds })) {
      status_message = found (length ds) query;
    },
    s,
  )
  connections_found query m (failed e, s) =
      (record m { error = some e; status_message = search_failed e }, s)

  abbrev pub search_in : ViewMode → Bytes → Model C K → R.State → Model C K × R.State
  search_in view_listing query m s = summaries_found query m (
      R.search_hassh_summaries (asked m.search_field (codes "hassh") query)
        (asked m.search_field (codes "banner") query) m.limit s)
  search_in view_logs query m s = connections_found query m (
      R.search_connections (asked m.search_field (codes "ip") query)
        (asked m.search_field (codes "hassh") query) (asked m.search_field (codes "banner") query)
        m.limit s)

  unfoldable pub perform_search : Bytes → Model C K → R.State → Model C K × R.State
  unfolding update_listing_table update_logs_table
  perform_search query m s = search_in m.mode query m s

  -- `m.searchMode = false`, with the input left and emptied.
  abbrev pub search_closed : Model C K → Model C K
  search_closed m = record m {
    search_mode = false;
    search_input = K.set_value [] (K.blur m.search_input);
  }

  abbrev pub input_updated : KeyMsg → Model C K → R.State → Handled
  input_updated key m s =
      let (input, cmd) = K.update_input (key_msg key) m.search_input in
      ok (record m { search_input = input }, cmd, s)

  abbrev pub search_key_pressed : KeyType → KeyMsg → Model C K → R.State → Handled
  search_key_pressed key_esc key m s =
      ok (record (search_closed m) { status_message = no_status }, none, s)
  search_key_pressed key_enter key m s =
      let query = K.value m.search_input in
      let (n, t) = if is_empty query then (m, s) else perform_search query m s in
      ok (search_closed n, none, t)
  search_key_pressed key_tab key m s =
      let field = next_field m.mode m.search_field in
      input_updated key (record m { search_field = field; status_message = search_by field }) s
  search_key_pressed other_key key m s = input_updated key m s

  unfoldable pub handle_search_keys : KeyMsg → Model C K → R.State → Handled
  unfolding perform_search
  handle_search_keys key m s = search_key_pressed key.type_of key m s

  -- The table sees the message after the switch.
  abbrev pub table_updated : Msg → Model C K → R.State → Handled
  table_updated msg m s =
      let (table, cmd) = K.update_table msg m.table in ok (record m { table = table }, cmd, s)

  abbrev pub other_view : ViewMode → ViewMode
  other_view view_listing = view_logs
  other_view view_logs = view_listing

  abbrev pub filter_moved : ℕ → Model C K → R.State → Result ⊥ (Model C K × R.State)
  filter_moved by m s =
      let (n, t) = refresh_data C K R (record m { filter = (m.filter + by) % 3 }) s in
      or_panic (get_elem? filter_names n.filter) >>= λ name.
      ok (record n { status_message = filter_named name }, t)

  abbrev pub toggled : Bytes → Model C K → Model C K
  toggled k m = record m { selected = insert k (not (lookup k m.selected)) m.selected }

  abbrev pub toggle_in : ViewMode → Model C K → Result ⊥ (Model C K)
  toggle_in view_listing m =
      if is_before (K.cursor m.table) (length m.summaries)
      then (element m.summaries (K.cursor m.table) >>= λ d.
          ok (update_listing_table C K (toggled d.hassh_fingerprint m)))
      else ok m
  toggle_in view_logs m =
      if is_before (K.cursor m.table) (length m.connections)
      then (element m.connections (K.cursor m.table) >>= λ d.
          ok (update_logs_table C K (toggled (decimal d.id) m)))
      else ok m

  abbrev pub drawn : ViewMode → Model C K → Model C K
  drawn view_listing m = update_listing_table C K m
  drawn view_logs m = update_logs_table C K m

  abbrev pub block_in : ViewMode → Model C K → R.State → Result ⊥ (Model C K × R.State)
  block_in view_listing = block_selected C K R
  block_in view_logs = block_selected_from_logs C K R

  abbrev pub unblock_in : ViewMode → Model C K → R.State → Result ⊥ (Model C K × R.State)
  unblock_in view_listing = unblock_selected C K R
  unblock_in view_logs = unblock_selected_from_logs C K R

  abbrev pub normal_key_pressed : Key → KeyMsg → Model C K → R.State → Handled
  normal_key_pressed quit_key key m s = ok (m, some K.quit, s)
  normal_key_pressed view_key key m s =
      let (n, t) = switch_view C K R (other_view m.mode) m s in
      table_updated (key_msg key) (record n { status_message = switched_to (other_view m.mode) }) t
  normal_key_pressed next_key key m s =
      filter_moved 1 m s >>= λ (n, t). table_updated (key_msg key) n t
  normal_key_pressed previous_key key m s =
      filter_moved 2 m s >>= λ (n, t). table_updated (key_msg key) n t
  normal_key_pressed select_key key m s =
      toggle_in m.mode m >>= λ n. table_updated (key_msg key) n s
  normal_key_pressed block_key key m s = block_in m.mode m s >>= λ (n, t). ok (n, none, t)
  normal_key_pressed unblock_key key m s = unblock_in m.mode m s >>= λ (n, t). ok (n, none, t)
  normal_key_pressed clear_key key m s =
      table_updated (key_msg key)
        (record (drawn m.mode (record m { selected = [] })) { status_message = selection_cleared })
        s
  normal_key_pressed search_key key m s =
      table_updated (key_msg key)
        (record m {
          search_mode = true;
          search_input = K.focus m.search_input;
          status_message = search_opened m.mode;
        })
        s
  normal_key_pressed refresh_key key m s =
      let (n, t) = refresh_data C K R m s in
      table_updated (key_msg key) (record n { status_message = refreshed }) t
  normal_key_pressed unknown_key key m s = table_updated (key_msg key) m s

  unfoldable pub handle_normal_keys : KeyMsg → Model C K → R.State → Handled
  unfolding update_listing_table update_logs_table switch_view refresh_data key_of lookup insert
      decimal block_selected block_selected_from_logs unblock_selected unblock_selected_from_logs
  handle_normal_keys key m s = normal_key_pressed (key_of key.text) key m s

  unfoldable pub update : Msg → Model C K → R.State → Handled
  unfolding handle_search_keys handle_normal_keys refresh_data
  update (key_msg key) m s =
      if m.search_mode then handle_search_keys key m s else handle_normal_keys key m s
  update tick_msg m s = let (n, t) = refresh_data C K R m s in ok (n, some K.tick, t)
  update (window_size_msg height) m s =
      table_updated (window_size_msg height)
        (record m { table = K.set_height (minus_ten height) m.table }) s
  update other_msg m s = table_updated other_msg m s

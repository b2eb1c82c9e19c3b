-- ===== src/Sshctl/Tui/Sound/Steps.antt =====
-- Every message of the terminal interface, handled in a well-formed model.
use hassh.Common.{
  ℕ, ◌≡◌, refl, inl, inr, Bool-cases, List, [], arith, All, Ensures, ensures_ok, Ensures-bind,
  Ensures-if,
}
use hassh.Text.{Bytes, codes, same, is_empty}
use hassh.Storage.Database.Replies.{Reply, After, after_done, after_failed}
use hassh.Storage.Queries.{ℤ, pos, Clock, ConnectionDetail, HasshSummary}
use hassh.Sshctl.Repository.{Repository}
use hassh.Sshctl.Tui.{
  ViewMode, view_listing, view_logs, KeyType, KeyMsg, key_esc, key_enter, key_tab, other_key, Msg,
  key_msg, tick_msg, window_size_msg, other_msg, Toolkit, Model, update_listing_table,
  update_logs_table, empty_model, new_model,
}
use hassh.Sshctl.Tui.Keys.{
  Key, quit_key, view_key, next_key, previous_key, select_key, block_key, unblock_key, clear_key,
  search_key, refresh_key, unknown_key, key_of, next_field, search_in, summaries_found,
  connections_found, perform_search, search_key_pressed, handle_search_keys, other_view, drawn,
  normal_key_pressed, handle_normal_keys, update,
}
use hassh.Sshctl.Tui.Sound.{IsLong, IsField, IsOrder, IsSound, IsLongOnly, refresh_data-IsSound}
use hassh.Sshctl.Tui.Sound.Changes.{
  []-IsSelection, block_in-IsSound, unblock_in-IsSound, switch_view-IsSound, filter_moved-IsSound,
  toggle_in-IsSound,
}

next_field-IsField :
    (mode : ViewMode) (field : Bytes) → IsField mode field → IsField mode (next_field mode field)
unfolding same
next_field-IsField view_listing field h = elim (Bool-cases (same field (codes "hassh"))) [
  | inl here ↦ rw here (inr refl)
  | inr there ↦ rw there (inl refl)
]
next_field-IsField view_logs field (inl e) = rw e (inr (inl refl))
next_field-IsField view_logs field (inr (inl e)) = rw e (inr (inr refl))
next_field-IsField view_logs field (inr (inr e)) = rw e (inl refl)

module _ (C : Clock) (K : Toolkit) (R : Repository C) (L : IsLongOnly C R) (O : IsOrder K) where
  summaries_found-IsSound :
      (query : Bytes) (m : Model C K) {r : Reply (List (HasshSummary C)) × R.State}
      → After (λ ds _. All (λ d. IsLong d.hassh_fingerprint) ds) (λ _ _. Unit {0}) r
      → IsSound C K m
      → IsSound C K (summaries_found C K R query m r).0
  unfolding update_listing_table
  summaries_found-IsSound query m (after_done ds) (f, x, ss, cs, sel) = (f, x, ds, cs, sel)
  summaries_found-IsSound query m (after_failed _) h = h

  connections_found-IsSound :
      (query : Bytes) (m : Model C K) {r : Reply (List (ConnectionDetail C)) × R.State}
      → After (λ ds _. All (λ d. IsLong d.hassh_fingerprint) ds) (λ _ _. Unit {0}) r
      → IsSound C K m
      → IsSound C K (connections_found C K R query m r).0
  unfolding update_logs_table
  connections_found-IsSound query m (after_done ds) (f, x, ss, cs, sel) = (f, x, ss, ds, sel)
  connections_found-IsSound query m (after_failed _) h = h

  search_in-IsSound :
      (mode : ViewMode) (query : Bytes) (m : Model C K) (s : R.State)
      → IsSound C K m
      → IsSound C K (search_in C K R mode query m s).0
  search_in-IsSound view_listing query m s h =
      summaries_found-IsSound query m (L.summaries_found _ _ _ s) h
  search_in-IsSound view_logs query m s h =
      connections_found-IsSound query m (L.connections_found _ _ _ _ s) h

  drawn-IsSound :
      (mode : ViewMode) (m : Model C K) → IsSound C K m → IsSound C K (drawn C K R mode m)
  unfolding update_listing_table update_logs_table
  drawn-IsSound view_listing m h = h
  drawn-IsSound view_logs m h = h

  search_key_pressed-IsSound :
      (type_of : KeyType) (key : KeyMsg) (m : Model C K) (s : R.State)
      → IsSound C K m
      → Ensures (λ r. IsSound C K r.0) (λ _. ⊥) (search_key_pressed C K R type_of key m s)
  unfolding perform_search
  search_key_pressed-IsSound key_esc key m s h = ensures_ok h
  search_key_pressed-IsSound key_enter key m s h =
      elim (Bool-cases (is_empty (K.value m.search_input))) [
        | inl e ↦ rw e (ensures_ok h)
        | inr e ↦ rw e (ensures_ok (search_in-IsSound m.mode (K.value m.search_input) m s h))
      ]
  search_key_pressed-IsSound key_tab key m s h =
      ensures_ok (h.0, next_field-IsField m.mode m.search_field h.1, h.2, h.3, h.4)
  search_key_pressed-IsSound other_key key m s h = ensures_ok h

  normal_key_pressed-IsSound :
      (pressed : Key) (key : KeyMsg) (m : Model C K) (s : R.State) (i : ℕ)
      → K.cursor m.table ≡ pos i
      → IsSound C K m
      → Ensures (λ r. IsSound C K r.0) (λ _. ⊥) (normal_key_pressed C K R pressed key m s)
  normal_key_pressed-IsSound quit_key key m s i c h = ensures_ok h
  normal_key_pressed-IsSound view_key key m s i c h =
      ensures_ok (switch_view-IsSound C K R L O (other_view C K R m.mode) m s h)
  normal_key_pressed-IsSound next_key key m s i c h =
      Ensures-bind (filter_moved-IsSound C K R L O 1 m s h) (λ r p. ensures_ok p)
  normal_key_pressed-IsSound previous_key key m s i c h =
      Ensures-bind (filter_moved-IsSound C K R L O 2 m s h) (λ r p. ensures_ok p)
  normal_key_pressed-IsSound select_key key m s i c h =
      Ensures-bind (toggle_in-IsSound C K R L O m.mode m i c refl h) (λ r p. ensures_ok p)
  normal_key_pressed-IsSound block_key key m s i c h =
      Ensures-bind (block_in-IsSound C K R L O m.mode m s refl h) (λ r p. ensures_ok p)
  normal_key_pressed-IsSound unblock_key key m s i c h =
      Ensures-bind (unblock_in-IsSound C K R L O m.mode m s refl h) (λ r p. ensures_ok p)
  normal_key_pressed-IsSound clear_key key m s i c (f, x, ss, cs, sel) =
      ensures_ok
        (drawn-IsSound m.mode (record m { selected = [] }) (f, x, ss, cs, []-IsSelection m.mode))
  normal_key_pressed-IsSound search_key key m s i c h = ensures_ok h
  normal_key_pressed-IsSound refresh_key key m s i c h =
      ensures_ok (refresh_data-IsSound C K R L m s h)
  normal_key_pressed-IsSound unknown_key key m s i c h = ensures_ok h

  -- The first model is well formed.
  pub new_model-IsSound : (limit : ℤ) (s : R.State) → IsSound C K (new_model C K R limit s).0
  unfolding new_model
  new_model-IsSound limit s =
      refresh_data-IsSound C K R L (empty_model C K R limit) s (omega arith, inl refl, tt, tt, tt)

  -- In a well-formed model whose cursor is not negative, over a repository whose lists hold
  -- fingerprints of 8 bytes or more, no message makes the interface panic, and the model stays well
  -- formed.
  pub update-IsSound :
      (msg : Msg) (m : Model C K) (s : R.State) (i : ℕ)
      → K.cursor m.table ≡ pos i
      → IsSound C K m
      → Ensures (λ r. IsSound C K r.0) (λ _. ⊥) (update C K R msg m s)
  unfolding update handle_normal_keys handle_search_keys
  update-IsSound (key_msg key) m s i c h =
      Ensures-if _ (λ _. search_key_pressed-IsSound key.type_of key m s h)
        (λ _. normal_key_pressed-IsSound (key_of key.text) key m s i c h)
  update-IsSound tick_msg m s i c h = ensures_ok (refresh_data-IsSound C K R L m s h)
  update-IsSound (window_size_msg height) m s i c h = ensures_ok h
  update-IsSound other_msg m s i c h = ensures_ok h

-- ===== src/Sshctl/Tui/Changes.antt =====
-- cmd/sshctl/tui/tui.go: blocking and unblocking what is selected.
use hassh.Common.{
  if◌then◌else◌, ℕ, suc, Bool, true, false, List, [], ◌∷◌, ◌++◌, map, length, ◌==◌, Result, ok,
  ◌>>=◌, slice,
}
use hassh.Text.{Bytes, codes, same, decimal}
use hassh.Filter.{BoolMap, insert}
use hassh.Storage.Database.Replies.{DbError, Reply, done, failed}
use hassh.Storage.Queries.{Clock, ConnectionDetail}
use hassh.Sshctl.Repository.{Repository}
use hassh.Sshctl.Tui.{
  ViewMode, view_listing, view_logs, Toolkit, Status, none_selected, changed, partly_changed, Model,
  refresh_data,
}

-- The keys for which the loop does not `continue`, and all keys.
abbrev pub chosen : BoolMap → List Bytes
chosen [] = []
chosen ((hassh, true) ∷ m) = hassh ∷ chosen m
chosen ((hassh, false) ∷ m) = chosen m

abbrev pub keys : BoolMap → List Bytes
keys = map (λ e. e.0)

-- The answer to one call. An error is reported with `hassh[:8]`, which panics on a shorter
-- fingerprint.
abbrev pub counted :
    {S A : Type 0}
    → Bytes
    → ℕ
    → List (Bytes × DbError)
    → (ℕ → List (Bytes × DbError) → S → Result ⊥ A)
    → Reply (Unit {0}) × S
    → Result ⊥ A
counted hassh count errors rest (done _, s) = rest (suc count) errors s
counted hassh count errors rest (failed e, s) =
    slice hassh 0 8 >>= λ short. rest count (errors ++ (short, e) ∷ []) s

-- One call for each fingerprint: the count, the errors, and the state.
unfoldable pub change_each :
    {S : Type 0}
    → (Bytes → S → Reply (Unit {0}) × S)
    → List Bytes
    → ℕ
    → List (Bytes × DbError)
    → S
    → Result ⊥ (ℕ × List (Bytes × DbError) × S)
change_each call [] count errors s = ok (count, errors, s)
change_each call (hassh ∷ hs) count errors s =
    counted hassh count errors (change_each call hs) (call hassh s)

abbrev pub change_status : Bool → ℕ → List (Bytes × DbError) → Status
change_status blocks count [] = changed blocks count
change_status blocks count (e ∷ errors) = partly_changed blocks count (e ∷ errors)

module _ (C : Clock) where
  -- `hasshSet[…] = true` for the first connection of an id.
  abbrev pub add_first : Bytes → List (ConnectionDetail C) → BoolMap → BoolMap
  add_first conn_id [] set = set
  add_first conn_id (c ∷ cs) set =
      if same (decimal c.id) conn_id
      then insert c.hassh_fingerprint true set
      else add_first conn_id cs set

  unfoldable pub hassh_set : List Bytes → List (ConnectionDetail C) → BoolMap → BoolMap
  unfolding decimal
  hassh_set [] cs set = set
  hassh_set (conn_id ∷ ids) cs set = hassh_set ids cs (add_first conn_id cs set)

  module _ (K : Toolkit) (R : Repository C) where
    -- `blocks` tells the messages of blocking from those of unblocking.
    abbrev pub change_all :
        Bool
        → (Bytes → R.State → Reply (Unit {0}) × R.State)
        → List Bytes
        → Model C K
        → R.State
        → Result ⊥ (Model C K × R.State)
    change_all blocks call hs m s = change_each call hs 0 [] s >>= λ (count, errors, t).
        let (n, u) = refresh_data C K R (record m { selected = [] }) t in
        ok (record n { status_message = change_status blocks count errors }, u)

    abbrev pub unless_none :
        ViewMode
        → Model C K
        → R.State
        → Result ⊥ (Model C K × R.State)
        → Result ⊥ (Model C K × R.State)
    unless_none mode m s changes =
        if length m.selected == 0
        then ok (record m { status_message = none_selected mode }, s)
        else changes

    unfoldable pub block_selected : Model C K → R.State → Result ⊥ (Model C K × R.State)
    unfolding change_each refresh_data
    block_selected m s = unless_none view_listing m s (
        change_all true (λ hassh. R.block_hash hassh (codes "tui_block"))
          (chosen (K.order m.selected)) m s)

    unfoldable pub block_selected_from_logs : Model C K → R.State → Result ⊥ (Model C K × R.State)
    unfolding change_each refresh_data hassh_set
    block_selected_from_logs m s = unless_none view_logs m s (
        change_all true (λ hassh. R.block_hash hassh (codes "tui_block_from_log"))
          (keys (K.order (hassh_set (chosen (K.order m.selected)) m.connections []))) m s)

    unfoldable pub unblock_selected : Model C K → R.State → Result ⊥ (Model C K × R.State)
    unfolding change_each refresh_data
    unblock_selected m s =
        unless_none view_listing m s
          (change_all false R.unblock_hash (chosen (K.order m.selected)) m s)

    unfoldable pub unblock_selected_from_logs : Model C K → R.State → Result ⊥ (Model C K × R.State)
    unfolding change_each refresh_data hassh_set
    unblock_selected_from_logs m s = unless_none view_logs m s (
        change_all false R.unblock_hash
          (keys (K.order (hassh_set (chosen (K.order m.selected)) m.connections []))) m s)

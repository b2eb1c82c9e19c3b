-- ===== src/Sshctl/Tui/View.antt =====
-- cmd/sshctl/tui/tui.go: `View` as the parts that it draws, without their colours, `Init` and `Run`.
pub mod Parts
pub mod Drawn
pub mod Fits
use hassh.Common.{
  ℕ, ◌+◌, ◌<◌, ◌≡◌, refl, zero, suc, arith, Bool, true, false, Option, none, some, List, [], ◌∷◌,
  ◌++◌, ◌==◌, if◌then◌else◌, Result, Ensures,
}
use hassh.Text.{Bytes, codes}
use hassh.Storage.Database.Replies.{DbError, Reply}
use hassh.Storage.Queries.{ℤ, Clock}
use hassh.Sshctl.Repository.{Repository}
use hassh.Sshctl.Tui.{
  ViewMode, view_listing, view_logs, Msg, Toolkit, Status, no_status, Model, blocked_of, new_model,
}
use hassh.Sshctl.Tui.Keys.{update}
use hassh.Sshctl.Tui.Sound.{IsSound, IsLongOnly, IsOrder}
use hassh.Sshctl.Tui.Sound.Steps.{update-IsSound}

-- A tab, and whether it is drawn as the active one.
abbrev pub Tab : Type 0
Tab = Bytes × Bool

pub data Part (K : Toolkit) : Type 0 where
  title : Bytes → Part K
  tabs : List Tab → Part K
  table_view : K.Table → Part K
  -- `Search by %s: %s`
  search_view : Bytes → K.Input → Part K
  status_view : Status → Part K
  error_view : DbError → Part K
  help_view : Bytes → Part K

abbrev pub view_name : ViewMode → Bytes
view_name view_listing = codes "Fingerprint Listing"
view_name view_logs = codes "Connection Logs"

abbrev pub tab_names : List Bytes
tab_names = codes "All" ∷ codes "Allowed" ∷ codes "Blocked" ∷ []

-- The loop over the names, from the index `i` on.
unfoldable pub filter_tabs : ℕ → ℕ → List Bytes → List Tab
filter_tabs filter i [] = []
filter_tabs filter i (name ∷ names) = (name, i == filter) ∷ filter_tabs filter (i + 1) names

abbrev pub help_text : Bytes
help_text =
    codes
      "v: switch view | tab: filter | space: select | b: block | u: unblock | c: clear | /: search | r: refresh | q: quit"

-- `if m.statusMessage != ""`
abbrev pub status_parts : {K : Toolkit} → Status → List (Part K)
status_parts no_status = []
status_parts s = status_view s ∷ []

-- `if m.err != nil`
abbrev pub error_parts : {K : Toolkit} → Option DbError → List (Part K)
error_parts none = []
error_parts (some e) = error_view e ∷ []

module _ (C : Clock) (K : Toolkit) where
  unfoldable pub view : Model C K → List (Part K)
  unfolding filter_tabs
  view m =
      title (codes "SSH Proxy Manager - " ++ view_name m.mode)
      ∷ tabs (filter_tabs m.filter 0 tab_names)
      ∷ table_view m.table
      ∷ ((if m.search_mode then search_view m.search_field m.search_input ∷ [] else [])
          ++ (status_parts m.status_message ++ (error_parts m.error ++ (help_view help_text ∷ []))))

  abbrev pub init : K.Cmd
  init = K.tick

  -- `tea.NewProgram(&m, …).Run()`, with what the program answers to a model.
  unfoldable pub run :
      (R : Repository C) {E : Type 0}
      → (Model C K → R.State → Option E × R.State)
      → ℤ
      → R.State
      → Option E × R.State
  unfolding new_model
  run R program limit s = let (m, t) = new_model C K R limit s in program m t

-- ===== src/Tests/Managing.antt =====
-- The commands and the terminal interface on concrete repositories.
use hassh.Common.{
  suc, zero, ◌≡◌, ◌≤◌, refl, inl, Bool, true, false, ◌||◌, Option, none, some, [], ◌∷◌, arith,
  length, Ensures,
}
use mathlib.Core.List.Permᴰ
use hassh.Text.{Bytes, codes}
use hassh.Filter.Laws.{listed}
use hassh.Storage.Database.Replies.{done, after_done}
use hassh.Storage.Memory.{Memory, memory_database, memory_database-IsLawful}
use hassh.Storage.Queries.{ℤ, pos, negsuc, Reader, HasshSummary, ConnectionDetail}
use hassh.Storage.Queries.Selected.{IsLimited, IsState}
use hassh.Sshctl.Repository.{
  Repository, IsBlocklist, IsReadOnly, storage_repository, storage_repository-IsBlocklist,
}
use hassh.Sshctl.Blocks.{block_cmd, IsPrinted, block_cmd_lem}
use hassh.Sshctl.Lists.{list_cmd}
use hassh.Sshctl.Lists.Shown.{IsFiltering, Shows, IsMarked, list_cmd-Shows}
use hassh.Sshctl.Tui.View.Fits.{IsMoved, update_tab-IsScreen}
use hassh.Sshctl.Tui.{view_listing, KeyMsg, key_msg, other_key, Toolkit, Model, empty_model}
use hassh.Sshctl.Tui.Changes.{block_selected}
use hassh.Sshctl.Tui.Keys.{update}
use hassh.Sshctl.Tui.Sound.{IsSound, IsLongOnly, IsOrder}
use hassh.Sshctl.Tui.Sound.Steps.{update-IsSound}
use hassh.Sshctl.Tui.Reports.{IsReport}
use hassh.Sshctl.Tui.Reports.Selected.{block_selected-IsReport}
use hassh.Sshctl.Tui.Reports.Chosen.{marked}
use hassh.Tests.Storing.{empty_memory, empty_memory-IsConsistent, sample_clock, sample_net}

-- The repository over the database in memory, with lists that are empty.
abbrev pub empty_reader : Reader sample_clock Memory
empty_reader = record {
  find_connections = λ _ s. (done [], s);
  find_summaries = λ _ s. (done [], s);
}

pub empty_reader-IsReadOnly : IsReadOnly sample_clock memory_database empty_reader
empty_reader-IsReadOnly = record {
  connections = λ q s. after_done refl;
  summaries = λ q s. after_done refl;
}

abbrev pub memory_repository : Repository sample_clock
memory_repository = storage_repository sample_clock memory_database empty_reader sample_net

abbrev memory_blocklist : IsBlocklist sample_clock memory_repository
memory_blocklist =
    storage_repository-IsBlocklist sample_clock memory_database empty_reader sample_net
      memory_database-IsLawful empty_reader-IsReadOnly

abbrev fingerprint : Bytes
fingerprint = codes "0123456789abcdef0123456789abcdef"

block_cmd_lem_example :
    let r =
      block_cmd sample_clock memory_repository
        (codes "scan")
        (fingerprint ∷ codes "ab" ∷ [])
        empty_memory in
    IsPrinted (fingerprint ∷ codes "ab" ∷ []) r.0 r.1
    × (memory_blocklist.blocks r.2 fingerprint
        ≡ (listed fingerprint r.0 || memory_blocklist.blocks empty_memory fingerprint))
unfolding storage_repository-IsBlocklist
block_cmd_lem_example =
    block_cmd_lem sample_clock memory_repository memory_blocklist (codes "scan") fingerprint
      (codes "ab" ∷ []) empty_memory fingerprint empty_memory-IsConsistent

-- A repository of one fingerprint and one connection, in the state that is asked for.
abbrev wanted : Option Bool → Bool
wanted none = true
wanted (some b) = b

abbrev sample_summary : Bool → HasshSummary sample_clock
sample_summary b = record {
  hassh_fingerprint = fingerprint;
  ssh_client_banner = codes "SSH-2.0-a_client_with_quite_a_long_name_and_version_1.2.3";
  ip_count = 1;
  last_seen = 5;
  first_seen = 4;
  total_connections = 12;
  blocked = b;
}

abbrev sample_detail : Bool → ConnectionDetail sample_clock
sample_detail b = record {
  id = 1;
  timestamp = 5;
  ip_address = codes "10.0.0.1";
  hassh_fingerprint = fingerprint;
  ssh_client_banner = codes "SSH-2.0-x";
  blocked = b;
}

abbrev small_repository : Repository sample_clock
small_repository = record {
  State = Unit;
  block_hash = λ _ _ s. (done tt, s);
  unblock_hash = λ _ s. (done tt, s);
  list_hassh_summaries = λ _ blocked _ _ s. (done (sample_summary (wanted blocked) ∷ []), s);
  list_connections = λ _ blocked _ _ s. (done (sample_detail (wanted blocked) ∷ []), s);
  search_hassh_summaries = λ _ _ _ s. (done (sample_summary true ∷ []), s);
  search_connections = λ _ _ _ _ s. (done (sample_detail true ∷ []), s);
}

wanted-IsState : (blocked : Option Bool) → IsState blocked (wanted blocked)
wanted-IsState none = tt
wanted-IsState (some b) = refl

one-IsLimited : (limit : ℤ) → IsLimited limit 1
one-IsLimited (pos zero) = tt
one-IsLimited (pos (suc n)) = omega arith
one-IsLimited (negsuc n) = tt

small_repository-IsFiltering : IsFiltering sample_clock small_repository
small_repository-IsFiltering = record {
  summaries = λ limit blocked _ _ _. after_done ((wanted-IsState blocked, tt), one-IsLimited limit);
  connections =
      λ limit blocked _ _ _. after_done ((wanted-IsState blocked, tt), one-IsLimited limit);
}

list_cmd-Shows_example :
    Shows
      (λ l. IsMarked (some true) l.blocked × (length l.banner ≤ 45))
      (pos 25)
      (list_cmd sample_clock small_repository
        (pos 25)
        (codes "blocked")
        (codes "last_seen")
        false
        true
        tt).0
list_cmd-Shows_example =
    list_cmd-Shows sample_clock small_repository small_repository-IsFiltering (pos 25) (some true)
      (codes "last_seen") false true tt

small_repository-IsLongOnly : IsLongOnly sample_clock small_repository
small_repository-IsLongOnly = record {
  summaries = λ _ _ _ _ _. after_done (omega arith, tt);
  connections = λ _ _ _ _ _. after_done (omega arith, tt);
  summaries_found = λ _ _ _ _. after_done (omega arith, tt);
  connections_found = λ _ _ _ _ _. after_done (omega arith, tt);
}

-- Widgets without a picture, whose cursor stays on the first row.
abbrev sample_toolkit : Toolkit
sample_toolkit = record {
  Table = Unit;
  Input = Bytes;
  Cmd = Unit;
  new_table = λ _ _. tt;
  set_columns = λ _ t. t;
  set_rows = λ _ t. t;
  set_height = λ _ t. t;
  cursor = λ _. pos 0;
  update_table = λ _ t. (t, none);
  new_input = λ _ _. [];
  focus = λ i. i;
  blur = λ i. i;
  value = λ i. i;
  set_value = λ text _. text;
  update_input = λ _ i. (i, none);
  quit = tt;
  tick = tt;
  order = λ m. m;
}

sample_toolkit-IsOrder : IsOrder sample_toolkit
sample_toolkit-IsOrder m = Permᴰ.refl m

-- One fingerprint is shown, and selected.
abbrev shown : Model sample_clock sample_toolkit
shown = record (empty_model sample_clock sample_toolkit small_repository (pos 25)) {
  summaries = sample_summary false ∷ [];
  selected = (fingerprint, true) ∷ [];
}

abbrev blocked_tab : Model sample_clock sample_toolkit
blocked_tab = record shown { filter = 2 }

shown-IsSound : IsSound sample_clock sample_toolkit shown
shown-IsSound = (omega arith, inl refl, (omega arith, tt), tt, (omega arith, tt))

abbrev tab_pressed : KeyMsg
tab_pressed = record { type_of = other_key; text = codes "tab" }

update_tab-IsScreen_example :
    Ensures
      (IsMoved sample_clock sample_toolkit small_repository tab_pressed blocked_tab tt)
      (λ _. ⊥)
      (update sample_clock sample_toolkit small_repository (key_msg tab_pressed) blocked_tab tt)
update_tab-IsScreen_example =
    update_tab-IsScreen sample_clock sample_toolkit small_repository small_repository-IsFiltering
      blocked_tab tt tab_pressed (omega arith) refl refl

update-IsSound_example :
    Ensures
      (λ r. IsSound sample_clock sample_toolkit r.0)
      (λ _. ⊥)
      (update sample_clock sample_toolkit small_repository
        (key_msg (record { type_of = other_key; text = codes " " }))
        shown
        tt)
update-IsSound_example =
    update-IsSound sample_clock sample_toolkit small_repository small_repository-IsLongOnly
      sample_toolkit-IsOrder (key_msg (record { type_of = other_key; text = codes " " })) shown tt 0
      refl shown-IsSound

block_selected-IsReport_example :
    Ensures
      (λ r.
        IsReport memory_blocklist.IsValid memory_blocklist.blocks
          (λ a b. a || b)
          view_listing
          shown.selected
          true
          (fingerprint ∷ [])
          (λ k. marked k shown.selected)
          empty_memory
          r.1
          r.0.status_message)
      (λ _. ⊥)
      (block_selected sample_clock sample_toolkit memory_repository shown empty_memory)
unfolding storage_repository-IsBlocklist
block_selected-IsReport_example =
    block_selected-IsReport sample_clock sample_toolkit memory_repository memory_blocklist
      sample_toolkit-IsOrder shown empty_memory empty_memory-IsConsistent (omega arith, tt)

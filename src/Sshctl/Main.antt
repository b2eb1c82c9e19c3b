-- ===== src/Sshctl/Main.antt =====
-- cmd/sshctl/main.go: the database, the commands, and the exit status.
pub mod Started
use hassh.Common.{ℕ, Bool, true, false, Option, none, some, List}
use hassh.Text.{Bytes, codes}
use hassh.Storage.Database.Replies.{DbError, Reply, done, failed}
use hassh.Storage.Database.{Database}
use hassh.Storage.Repository.{Net}
use hassh.Storage.Queries.{ℤ, Clock, Reader}
use hassh.Storage.Setup.{Schema, new_repository}
use hassh.Storage.Statistics.{Counter, get_statistics}
use hassh.Sshctl.Repository.{Repository, storage_repository}
use hassh.Sshctl.Blocks.{Outcome, succeeded, call_failed, no_arguments, block_cmd, unblock_cmd}
use hassh.Sshctl.Lists.{
  Listing, invalid_state, list_failed, nothing_found, table, flush_failed, list_cmd, log_cmd,
}
use hassh.Sshctl.Stats.{
  StatsOutput, stats_failed, printed, stats_cmd, Processes, ReloadOutput, pid_required,
  process_not_found, signal_failed, sent, reload_cmd,
}

-- What the arguments of the program ask for.
pub data Command : Type 0 where
  list_command : ℤ → Bytes → Bytes → Bool → Command
  block_command : Bytes → List Bytes → Command
  unblock_command : List Bytes → Command
  log_command : ℤ → Bytes → Bytes → Bool → Command
  stats_command : Command
  tui_command : ℤ → Command
  reload_command : ℤ → Command
  -- a help text, or a line that cobra refuses
  help_command : Command
  refused_command : Command

-- What the program gets from viper, gorm, cobra and the system. `S` is the state of the database.
pub record Shell (S : Type 0) : Type 1 where
  -- viper.GetString, as long as no argument is parsed
  pub get_string : Bytes → Bytes
  -- `none` is an error
  pub open_database : Bytes → Option S
  pub parse : List Bytes → Command
  pub processes : Processes
  -- does the output take a table?
  pub flushes : Bool
  -- `tui.Run`, and whether it returns nil
  pub run_tui : ℤ → S → Bool × S

-- Is the error of a command nil?
abbrev pub outcome_ok : Outcome → Bool
outcome_ok succeeded = true
outcome_ok (call_failed _ _) = false
outcome_ok no_arguments = false

abbrev pub listing_ok : {Line : Type 0} → Listing Line → Bool
listing_ok (invalid_state _) = false
listing_ok (list_failed _) = false
listing_ok nothing_found = true
listing_ok (table _) = true
listing_ok (flush_failed _) = false

abbrev pub stats_ok : StatsOutput → Bool
stats_ok (stats_failed _) = false
stats_ok (printed _ _) = true

abbrev pub reload_ok : ReloadOutput → Bool
reload_ok pid_required = false
reload_ok process_not_found = false
reload_ok signal_failed = false
reload_ok (sent _) = true

abbrev pub exit_status : Bool → ℕ
exit_status true = 0
exit_status false = 1

module _ (C : Clock) (D : Database) (Q : Reader C D.State) (N : Net) (K : Counter D)
    (W : Shell D.State) where
  unfoldable pub execute : Command → D.State → Bool × D.State
  unfolding list_cmd block_cmd unblock_cmd log_cmd stats_cmd reload_cmd
  execute (list_command limit state sort_by reverse) s =
      let (l, t) =
        list_cmd C (storage_repository C D Q N) limit state sort_by reverse W.flushes s in
      (listing_ok l, t)
  execute (block_command reason args) s =
      let (_, o, t) = block_cmd C (storage_repository C D Q N) reason args s in (outcome_ok o, t)
  execute (unblock_command args) s =
      let (_, o, t) = unblock_cmd C (storage_repository C D Q N) args s in (outcome_ok o, t)
  execute (log_command limit state sort_by reverse) s =
      let (l, t) = log_cmd C (storage_repository C D Q N) limit state sort_by reverse W.flushes s in
      (listing_ok l, t)
  execute stats_command s = let (o, t) = stats_cmd (get_statistics D K) s in (stats_ok o, t)
  execute (tui_command limit) s = W.run_tui limit s
  execute (reload_command pid) s = (reload_ok (reload_cmd W.processes pid), s)
  execute help_command s = (true, s)
  execute refused_command s = (false, s)

  -- From the repository on.
  abbrev pub with_commands : Command → Reply (Unit {0}) × D.State → ℕ × Option D.State
  with_commands c (failed e, s) = (1, some s)
  with_commands c (done _, s) = let (fine, t) = execute c s in (exit_status fine, some t)

  abbrev pub opened_at : Schema D.State → Command → Option D.State → ℕ × Option D.State
  opened_at M c none = (1, none)
  opened_at M c (some s) = with_commands c (new_repository M s)

  -- The exit status, and the database if it was opened.
  unfoldable pub sshctl_main : Schema D.State → List Bytes → ℕ × Option D.State
  unfolding new_repository execute
  sshctl_main M args = opened_at M (W.parse args) (W.open_database (W.get_string (codes "db")))

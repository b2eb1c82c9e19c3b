-- ===== src/Sshctl/Stats.antt =====
-- cmd/sshctl/command/stats.go and reload.go: the numbers that are printed, and the signal that is
-- sent.
pub mod Rate
use hassh.Common.{◌==◌, ℕ, Bool, true, false, Option, none, some, if◌then◌else◌, ltb}
use hassh.Storage.Database.Replies.{DbError, Reply, done, failed}
use hassh.Storage.Queries.{ℤ, pos, negsuc}
use hassh.Storage.Statistics.{Statistics}

-- The rate is blocked connections over connections, times a hundred, as a float64.
pub data StatsOutput : Type 0 where
  stats_failed : DbError → StatsOutput
  printed : Statistics → Option (ℕ × ℕ) → StatsOutput

-- `if stats.TotalConnections > 0`
abbrev pub block_rate : Statistics → Option (ℕ × ℕ)
block_rate st =
    if ltb 0 st.total_connections then some (st.blocked_connections, st.total_connections) else none

abbrev pub output_of : {S : Type 0} → Reply Statistics × S → StatsOutput × S
output_of (done st, s) = (printed st (block_rate st), s)
output_of (failed e, s) = (stats_failed e, s)

unfoldable pub stats_cmd : {S : Type 0} → (S → Reply Statistics × S) → S → StatsOutput × S
stats_cmd get_statistics s = output_of (get_statistics s)

-- Packages os and syscall: the process of a number, and whether it takes a SIGHUP.
pub record Processes : Type 1 where
  pub Process : Type 0
  pub find_process : ℤ → Option Process
  pub signal_hup : Process → Bool

pub data ReloadOutput : Type 0 where
  pid_required : ReloadOutput
  process_not_found : ReloadOutput
  signal_failed : ReloadOutput
  sent : ℤ → ReloadOutput

abbrev pub is_zero : ℤ → Bool
is_zero (pos n) = n == 0
is_zero (negsuc n) = false

unfoldable pub reload_cmd : Processes → ℤ → ReloadOutput
reload_cmd O pid = if is_zero pid then pid_required else elim (O.find_process pid) [
  | none ↦ process_not_found
  | some process ↦ if O.signal_hup process then sent pid else signal_failed
]

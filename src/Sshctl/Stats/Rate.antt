-- ===== src/Sshctl/Stats/Rate.antt =====
-- What the stats command prints over the repository of pkg/storage/db.go.
use hassh.Common.{
  refl, ℕ, ◌≤◌, ◌<◌, ◌≡◌, ap, ◌⊎◌, inl, inr, arith, Bool-cases, Option, none, some, ltb,
}
use hassh.Storage.Database.{Database}
use hassh.Storage.Statistics.{Statistics, Counter, IsCounter, get_statistics}
use hassh.Storage.Statistics.Counts.{Counts, fields_of, rate_of, get_statistics-Counts}
use hassh.Sshctl.Stats.{printed, block_rate, output_of, stats_cmd}

-- Whether a rate is printed, and which: none without connections, and otherwise that of the numbers,
-- which is at most a hundred per cent.
abbrev pub IsRate : Statistics → Option (ℕ × ℕ) → Type 0
IsRate st none = st.total_connections ≡ 0
IsRate st (some (blocked, total)) =
    (blocked ≡ st.blocked_connections)
    × (total ≡ st.total_connections)
    × (0 < total)
    × (blocked ≤ total)

block_rate-IsRate :
    (st : Statistics)
    → (st.blocked_connections ≤ st.total_connections) ⊎ (st.total_connections ≡ 0)
    → IsRate st (block_rate st)
block_rate-IsRate st h = elim (Bool-cases (ltb 0 st.total_connections)) [
  | inl some_total ↦ rw some_total (refl, refl, ground arith, ground (arith, h))
  | inr none_total ↦ rw none_total (ground arith)
]

-- Over a database whose counts give the number of rows or fail, the stats command does not fail. Its
-- five counts run one after the other, and it prints, as numbers of connections, blocked connections,
-- addresses, fingerprints and banners, those in the tables, and zero only for a count that failed.
-- Unless the number of connections is zero, it prints the rate of the two numbers of connections,
-- which is at most a hundred per cent; otherwise none.
pub stats_cmd-IsRate :
    (D : Database) (K : Counter D) (s : D.State)
    → IsCounter D K
    → (st : Statistics) × ((rate : Option (ℕ × ℕ)) × ((t : D.State) × ((stats_cmd
                (get_statistics D K)
                s
              ≡ (printed st rate, t))
            × Counts D K (D.rows s) s (fields_of st) t
            × IsRate st rate)))
unfolding stats_cmd
stats_cmd-IsRate D K s H =
    let (st, (t, (e, counts, same))) = get_statistics-Counts D K H s in
    (st, (block_rate st, (t, (ap output_of e, counts, block_rate-IsRate st (rate_of counts)))))

-- ===== src/Tests/Running.antt =====
-- A server that starts, blocks a client, and stops, on concrete data.
use hassh.Common.{
  ℕ, ◌⊎◌, ◌*◌, ◌≡◌, ◌≤◌, ◌+◌, refl, true, false, none, some, [], ◌∷◌, List, ok, arith,
}
use hassh.Text.{Bytes, codes, index_of, same}
use hassh.Common.{slice}
use hassh.Filter.{new_blocklist_filter, reload, insert_all}
use hassh.Filter.Laws.{listed}
use hassh.Proxy.Reader.{line_loop, read_identification_line}
use hassh.Proxy.Server.{World, handle_connection}
use hassh.Proxy.Server.Gate.{dials, sent_upstream}
use hassh.Proxy.Lifecycle.{
  returned, draining, Server, new_server, fetch_upstream_banner, refresh_upstream_banner,
  start_with, reload_blocklist, max_concurrent_connections, Label, quiet, loaded, probed, Run, Step,
  handler_returns, handler_done, start, next, admit, start_handler, cancelled, start_returns,
  signalled, refreshed, acquire, spawn, begin_reload, end_reload,
}
use hassh.Proxy.Lifecycle.Reloads.{started, last_banner}
use hassh.Proxy.Lifecycle.Latest.{blocks, Run_latest, Run_refuses}
use hassh.Proxy.Lifecycle.Limits.{Run_limit, Run_shutdown}
use hassh.Proxy.Lifecycle.Ending.{Run_ends}
use hassh.Proxy.Lifecycle.Accept.{
  Turn, arrives, fails, handle, log_shutdown, close_syslog, close_listener, take_turn,
  accept_with_context, deferred, Serves, begins, turns, meanwhile, ends,
}
use hassh.Proxy.Lifecycle.Accept.Turns.{Reaches, all_given, all_settled, Serves_lem}
use hassh.Tests.Reading.{whole_found}
use hassh.Tests.Data.{banner, opened, sample_fingerprint, sample_world, upstream_conn, whole}

abbrev blocked_hashes : List Bytes
blocked_hashes = sample_fingerprint.hash ∷ []

abbrev pub first_server : Server
first_server = started banner true []

first_server_starts : new_server (some upstream_conn) true (some []) ≡ ok first_server
unfolding new_server fetch_upstream_banner start_with reload_blocklist read_identification_line
    line_loop index_of slice reload insert_all
first_server_starts = refl

-- A SIGHUP loads a fingerprint, and then fails to probe the banner.
abbrev reload_labels : List Label
reload_labels = probed none ∷ loaded (some blocked_hashes) ∷ quiet ∷ []

abbrev reloaded_server : Server
reloaded_server = end_reload (begin_reload (acquire first_server) (some blocked_hashes)) none

reloading : Run first_server reload_labels reloaded_server
unfolding reload_blocklist
reloading = next (next (next start (admit refl (omega arith))) (signalled refl)) (refreshed refl)

Run_latest_example :
    (blocks reloaded_server (codes "ab") ≡ some (listed (codes "ab") blocked_hashes))
    × (reloaded_server.upstream_banner ≡ last_banner banner reload_labels)
Run_latest_example =
    Run_latest (some upstream_conn) true [] (codes "ab") first_server_starts reloading

abbrev pub refused_client : World
refused_client = record (sample_world (opened whole) banner banner) {
  blocklist = reload new_blocklist_filter blocked_hashes;
}

listed_there : listed sample_fingerprint.hash blocked_hashes ≡ true
unfolding same
listed_there = refl

reloaded_server_holds : reloaded_server.blocklist ≡ some refused_client.blocklist
unfolding reload_blocklist refresh_upstream_banner fetch_upstream_banner reload
reloaded_server_holds = refl

Run_refuses_example :
    (dials (handle_connection refused_client) ≡ false)
    × (sent_upstream (handle_connection refused_client) ≡ [])
Run_refuses_example =
    Run_refuses (some upstream_conn) true [] refused_client sample_fingerprint first_server_starts
      reloading reloaded_server_holds refl whole_found listed_there

-- One connection is handled, and then the context is done.
abbrev handling : Server
handling = spawn (acquire first_server)

abbrev stopping : Server
stopping = record handling { phase = draining }

handled : Run first_server (quiet ∷ quiet ∷ []) handling
handled = next (next start (admit refl (omega arith))) (start_handler refl)

stopped_early : Run first_server (quiet ∷ quiet ∷ quiet ∷ []) stopping
stopped_early = next handled (cancelled refl)

abbrev idle : Server
idle = record first_server { phase = returned }

stopped_idle : Run first_server (quiet ∷ quiet ∷ []) idle
stopped_idle = next (next start (cancelled refl)) (start_returns refl refl)

Run_limit_example :
    (1 ≤ max_concurrent_connections)
    × (1 ≤ max_concurrent_connections)
    × (handling.active_conns ≡ handling.running + handling.releasing)
Run_limit_example = Run_limit (some upstream_conn) true (some []) first_server_starts handled

Run_shutdown_example : (idle.running ≡ 0) × (idle.releasing ≡ 0) × (idle.conn_semaphore ≡ 0)
Run_shutdown_example =
    Run_shutdown (some upstream_conn) true (some []) first_server_starts stopped_idle refl

-- The handler frees its place and reports its end, and `Start` returns.
stops : Run stopping (quiet ∷ quiet ∷ quiet ∷ []) (record first_server { phase = returned })
stops =
    next (next (next start (handler_returns (omega arith))) (handler_done (omega arith)))
      (start_returns refl refl)

Run_ends_example :
    (3 ≤ 2 * stopping.running + stopping.releasing + 1)
    × ((idle.phase ≡ returned) ⊎ ((v : Server) × Step idle quiet v))
Run_ends_example =
    Run_ends (some upstream_conn) true (some []) first_server_starts stopped_early refl stops

-- A connection is numbered. One arrives, an accept times out, and then the context is done.
abbrev arriving : Turn ℕ
arriving = record {
  done_before = false;
  takes_done = false;
  done_inside = false;
  done_after = false;
  attempt = arrives 7;
}

abbrev timing_out : Turn ℕ
timing_out = record arriving { attempt = fails true }

abbrev cancelling : Turn ℕ
cancelling = record arriving { done_before = true }

served :
    Serves first_server
      (arriving ∷ timing_out ∷ cancelling ∷ [])
      (handle 7 ∷ log_shutdown ∷ close_syslog ∷ close_listener ∷ [])
      (record first_server { phase = returned })
unfolding take_turn accept_with_context deferred
served =
    ends
      (meanwhile
        (meanwhile (turns (turns (turns begins arriving refl) timing_out refl) cancelling refl)
          (handler_returns (omega arith)) refl)
        (handler_done (omega arith)) refl)
      refl refl

Serves_lem_example :
    Reaches first_server (record first_server { phase = returned })
    × (all_settled (handle 7 ∷ log_shutdown ∷ close_syslog ∷ close_listener ∷ [])
        ≡ all_given (arriving ∷ timing_out ∷ cancelling ∷ []))
Serves_lem_example = Serves_lem served

-- ===== src/Tests/Enforcing.antt =====
-- `sshctl block` on the database in memory, a reload, and the client that is then refused.
use hassh.Common.{◌≡◌, refl, true, false, some, ok, slice, List, [], ◌∷◌}
use hassh.Text.{Bytes, codes, same, index_of}
use hassh.Filter.{BlocklistFilter, contains, reload, insert_all}
use hassh.Storage.Setup.{new_repository}
use hassh.Sshctl.Main.{Shell, block_command, execute, sshctl_main}
use hassh.Sshctl.Main.Started.{sshctl_main-start_proxy}
use hassh.Proxy.Main.{start_proxy}
use hassh.Proxy.Lifecycle.{new_server, fetch_upstream_banner, start_with, reload_blocklist}
use hassh.Proxy.Reader.{line_loop, read_identification_line}
use hassh.Filter.Laws.{listed}
use hassh.Storage.Rows.{find, has, matches}
use hassh.Storage.Database.Replies.{done}
use hassh.Storage.Memory.{Memory, memory_database, memory_database-IsLawful}
use hassh.Storage.Repository.{load_blocked_hashes, block_hash}
use hassh.Sshctl.Blocks.{Outcome, succeeded, block_cmd}
use hassh.Sshctl.Enforced.{block_cmd-refuses}
use hassh.Proxy.Server.{handle_connection}
use hassh.Proxy.Server.Gate.{dials, sent_upstream}
use hassh.Tests.Reading.{whole_found}
use hassh.Tests.Running.{first_server, refused_client}
use hassh.Tests.Data.{sample_fingerprint, upstream_conn}
use hassh.Tests.Auditing.{memory_counter, memory_schema, memory_schema-IsSchema, proxy_server}
use hassh.Tests.Storing.{
  empty_memory, empty_memory-IsConsistent, list_held, sample_clock, sample_net,
}
use hassh.Tests.Managing.{empty_reader, empty_reader-IsReadOnly, memory_repository}

abbrev after_block : List Bytes × Outcome × Memory
after_block =
    block_cmd sample_clock memory_repository (codes "scan") (sample_fingerprint.hash ∷ [])
      empty_memory

block_succeeds : after_block.1 ≡ succeeded
unfolding block_cmd block_hash find matches
block_succeeds = refl

block_loaded :
    load_blocked_hashes memory_database after_block.2
    ≡ (done (sample_fingerprint.hash ∷ []), after_block.2)
unfolding block_cmd load_blocked_hashes block_hash find has matches
block_loaded = refl

block_named : listed sample_fingerprint.hash (sample_fingerprint.hash ∷ []) ≡ true
unfolding same
block_named = refl

block_cmd-refuses_example :
    (dials (handle_connection refused_client) ≡ false)
    × (sent_upstream (handle_connection refused_client) ≡ [])
block_cmd-refuses_example =
    block_cmd-refuses sample_clock memory_database empty_reader sample_net memory_database-IsLawful
      empty_reader-IsReadOnly (codes "scan") sample_fingerprint.hash []
      (sample_fingerprint.hash ∷ []) empty_memory after_block.2 first_server refused_client
      sample_fingerprint empty_memory-IsConsistent block_succeeds block_loaded list_held refl
      whole_found block_named

-- Both programs on the database in memory.
abbrev shell : Shell Memory
shell = record {
  get_string = λ _. codes "ssh_connections.db";
  open_database = λ _. some empty_memory;
  parse = λ _. block_command (codes "scan") (sample_fingerprint.hash ∷ []);
  processes = record { Process = Unit; find_process = λ _. some tt; signal_hup = λ _. true };
  flushes = true;
  run_tui = λ _ s. (true, s);
}

block_exits :
    sshctl_main sample_clock memory_database empty_reader sample_net memory_counter shell
      memory_schema []
    ≡ (0, some after_block.2)
unfolding sshctl_main execute new_repository block_cmd block_hash find matches
block_exits = refl

proxy_begins :
    start_proxy memory_database (some after_block.2) memory_schema (some upstream_conn) true
    ≡ ok (proxy_server, after_block.2)
unfolding start_proxy block_cmd block_hash find has matches new_repository load_blocked_hashes
    new_server fetch_upstream_banner start_with reload_blocklist read_identification_line line_loop
    index_of slice reload insert_all
proxy_begins = refl

sshctl_main-start_proxy_example :
    (b : BlocklistFilter) × ((proxy_server.blocklist ≡ some b)
      × (contains b sample_fingerprint.hash ≡ true))
sshctl_main-start_proxy_example =
    sshctl_main-start_proxy sample_clock memory_database empty_reader sample_net memory_counter
      shell memory_database-IsLawful empty_reader-IsReadOnly memory_schema [] (codes "scan")
      sample_fingerprint.hash [] empty_memory after_block.2 after_block.2 (some upstream_conn) true
      proxy_server sample_fingerprint.hash memory_schema-IsSchema refl refl
      empty_memory-IsConsistent block_exits proxy_begins block_named

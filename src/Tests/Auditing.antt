-- ===== src/Tests/Auditing.antt =====
-- The system's log, the statistics and the start of the proxy, on concrete data.
use hassh.Common.{ℕ, ◌≡◌, refl, inl, arith, true, slice, Option, some, [], ◌∷◌, All, ok}
use hassh.Text.{Bytes, codes, index_of}
use hassh.Filter.{reload, insert_all}
use hassh.Hassh.Fingerprint.Shape.{IsHexDigit}
use hassh.Storage.Rows.{find, has, matches}
use hassh.Storage.Database.Replies.{done, After, after_done}
use hassh.Storage.Memory.{Memory, memory_database, memory_database-IsLawful}
use hassh.Storage.Repository.{record_connection, block_hash, load_blocked_hashes}
use hassh.Storage.Setup.{Schema, new_repository}
use hassh.Storage.Statistics.{Statistics, number, Counter, IsCounter, get_statistics}
use hassh.Storage.Statistics.Counts.{Counts, fields_of}
use hassh.Storage.Statistics.Recorded.{bit, IsGrown, IsSameLog, record_connection-IsGrown}
use hassh.Proxy.Server.{handle_connection}
use hassh.Proxy.Syslog.{handshake_entry}
use hassh.Proxy.Syslog.Lines.{newlines, IsClean, handshake_entry-newlines}
use hassh.Proxy.Audit.{Site, undialled, entries, IsTrail}
use hassh.Proxy.Audit.Trails.{handle_connection-IsTrail}
use hassh.Proxy.Main.{start_proxy}
use hassh.Proxy.Main.Started.{IsSchema, Refuses, start_proxy-Refuses}
use hassh.Proxy.Lifecycle.{Server, new_server, fetch_upstream_banner, start_with, reload_blocklist}
use hassh.Proxy.Lifecycle.Reloads.{started}
use hassh.Proxy.Reader.{line_loop, read_identification_line}
use hassh.Sshctl.Stats.{stats_cmd, printed}
use hassh.Sshctl.Stats.Rate.{IsRate, stats_cmd-IsRate}
use hassh.Tests.Data.{client_addr, banner, upstream_conn, sample_fingerprint}
use hassh.Tests.Storing.{empty_memory, sample_net, blocked_memory}
use hassh.Tests.Running.{refused_client}

abbrev site : Site
site = record {
  conn_id = 12;
  client_ip = client_addr;
  client_port = 40000;
  proxy_ip = codes "10.0.0.2";
  proxy_port = 2222;
  target_addr = codes "localhost:22";
  local_ip = codes "127.0.0.1";
  local_port = 50000;
  error_text = codes "upstream failed";
}

handle_connection-IsTrail_example :
    IsTrail refused_client site (entries site (handle_connection refused_client))
handle_connection-IsTrail_example = handle_connection-IsTrail refused_client site refl

site-IsClean : IsClean (undialled site)
site-IsClean = record { client = refl; proxy = refl; upstream = refl; target = refl }

abbrev short_hash : Bytes
short_hash = codes "00"

short_hash-IsHexDigit : All IsHexDigit short_hash
short_hash-IsHexDigit = (inl (omega arith, omega arith), (inl (omega arith, omega arith), tt))

-- A banner of two lines makes a message of two lines.
handshake_entry-newlines_example :
    newlines (handshake_entry (undialled site) short_hash (codes "SSH-2\nx")).message ≡ 1
handshake_entry-newlines_example =
    handshake_entry-newlines (undialled site) short_hash (codes "SSH-2\nx") site-IsClean
      short_hash-IsHexDigit

record_connection-IsGrown_example :
    After
      (λ _ t. IsGrown 1 (bit true) 1 1 1 [] t.rows)
      (λ _ t. IsSameLog [] t.rows)
      (record_connection memory_database sample_net
        (codes "10.0.0.1")
        (codes "ab")
        (codes "SSH-2.0-x")
        true
        empty_memory)
record_connection-IsGrown_example =
    record_connection-IsGrown memory_database memory_database-IsLawful sample_net (codes "10.0.0.1")
      (codes "ab") (codes "SSH-2.0-x") true empty_memory

-- One connection, of a client that was blocked.
abbrev recorded_memory : Memory
recorded_memory =
    (record_connection memory_database sample_net (codes "10.0.0.1") (codes "ab")
      (codes "SSH-2.0-x") true empty_memory).1

abbrev pub memory_counter : Counter memory_database
memory_counter = record { count = λ q m. (done (number q m.rows), m) }

memory_counter-IsCounter : IsCounter memory_database memory_counter
memory_counter-IsCounter = record { count_rows = λ q m. after_done ((refl, refl), refl) }

stats_cmd-IsRate_example :
    (st : Statistics) × ((rate : Option (ℕ × ℕ)) × ((t : Memory) × ((stats_cmd
              (get_statistics memory_database memory_counter)
              recorded_memory
            ≡ (printed st rate, t))
          × Counts memory_database memory_counter recorded_memory.rows recorded_memory
              (fields_of st)
              t
          × IsRate st rate)))
stats_cmd-IsRate_example =
    stats_cmd-IsRate memory_database memory_counter recorded_memory memory_counter-IsCounter

abbrev pub memory_schema : Schema Memory
memory_schema = record { auto_migrate = λ _ m. (done tt, m); exec = λ _ m. (done tt, m) }

pub memory_schema-IsSchema : IsSchema memory_database memory_schema
memory_schema-IsSchema = record { migrated = λ m. after_done refl; indexed = λ m. after_done refl }

abbrev pub proxy_server : Server
proxy_server = started banner true (sample_fingerprint.hash ∷ [])

proxy_starts :
    start_proxy memory_database (some blocked_memory) memory_schema (some upstream_conn) true
    ≡ ok (proxy_server, blocked_memory)
unfolding start_proxy block_hash find has matches new_repository load_blocked_hashes new_server
    fetch_upstream_banner start_with reload_blocklist read_identification_line line_loop index_of
    slice reload insert_all
proxy_starts = refl

start_proxy-Refuses_example : Refuses memory_database proxy_server blocked_memory
start_proxy-Refuses_example =
    start_proxy-Refuses memory_database memory_database-IsLawful (some upstream_conn) true
      memory_schema blocked_memory memory_schema-IsSchema proxy_starts

-- ===== src/Proxy/Syslog.antt =====
-- pkg/proxy/syslog.go: what each method of `SyslogWriter` hands to the writer of package log/syslog.
pub mod Lines
use hassh.Common.{ℕ, Bool, true, false, not, Option, none, some, List, [], ◌∷◌, ◌++◌, if◌then◌else◌}
use hassh.Text.{Bytes, codes, is_empty, decimal}

-- `Info`, `Warning` and `Err` of syslog.Writer.
pub data Severity : Type 0 where
  info : Severity
  warning : Severity
  err_level : Severity

pub record LogEntry : Type 0 where
  pub severity : Severity
  pub message : Bytes

-- `none` is a nil writer. `W` is syslog.Writer.
pub record SyslogWriter (W : Type 0) : Type 0 where
  pub writer : Option W

-- What a method returns: an error of its own, or what the writer says to an entry.
pub data SyslogResult : Type 0 where
  not_initialized : SyslogResult
  written : LogEntry → SyslogResult

-- The arguments that the methods share: the connection, and the addresses along it.
pub record Chain : Type 0 where
  pub conn_id : ℕ
  pub client_ip : Bytes
  pub client_port : ℕ
  pub proxy_ip : Bytes
  pub proxy_port : ℕ
  pub upstream_local_ip : Bytes
  pub upstream_local_port : ℕ
  pub target_addr : Bytes

-- `[conn:%d] `
abbrev pub tag : ℕ → Bytes
tag conn_id = codes "[conn:" ++ (decimal conn_id ++ codes "] ")

-- `%s port %d -> %s port %d -> %s port %d -> %s`
abbrev pub route : Chain → Bytes
route c =
    c.client_ip
    ++ (codes " port "
        ++ (decimal c.client_port
            ++ (codes " -> "
                ++ (c.proxy_ip
                    ++ (codes " port "
                        ++ (decimal c.proxy_port
                            ++ (codes " -> "
                                ++ (c.upstream_local_ip
                                    ++ (codes " port "
                                        ++ (decimal c.upstream_local_port
                                            ++ (codes " -> " ++ c.target_addr)))))))))))

-- The answer of syslog.New; without it there is no `SyslogWriter`.
abbrev pub new_syslog_writer : {W : Type 0} → Option W → Option (SyslogWriter W)
new_syslog_writer none = none
new_syslog_writer (some w) = some (record { writer = some w })

-- `if s.writer == nil { return … }`
abbrev pub through : {W : Type 0} → Option W → LogEntry → SyslogResult
through none e = not_initialized
through (some w) e = written e

abbrev pub status_of : Bool → Bytes
status_of true = codes "BLOCKED"
status_of false = codes "ALLOWED"

unfoldable pub connection_entry : Chain → Bool → LogEntry
unfolding decimal
connection_entry c blocked = record {
  severity = if blocked then warning else info;
  message =
      tag c.conn_id ++ (codes "Connection " ++ (status_of blocked ++ (codes ": " ++ route c)));
}

unfoldable pub handshake_entry : Chain → Bytes → Bytes → LogEntry
unfolding decimal
handshake_entry c hassh banner = record {
  severity = info;
  message =
      tag c.conn_id
      ++ (codes "Client "
          ++ (route c ++ (codes ": HASSH=" ++ (hassh ++ (codes " Banner=" ++ banner)))));
}

unfoldable pub disconnect_entry : Chain → Bytes → LogEntry
unfolding decimal
disconnect_entry c username = record {
  severity = info;
  message =
      tag c.conn_id
      ++ (codes "Disconnected from "
          ++ ((if is_empty username then [] else codes "user " ++ (username ++ codes " "))
              ++ route c));
}

unfoldable pub error_entry : ℕ → Bytes → Bytes → LogEntry
unfolding decimal
error_entry conn_id client_ip err_msg = record {
  severity = err_level;
  message = tag conn_id ++ (codes "Error for " ++ (client_ip ++ (codes ": " ++ err_msg)));
}

module _ {W : Type 0} where
  abbrev pub log_connection : SyslogWriter W → Chain → Bool → SyslogResult
  log_connection s c blocked = through s.writer (connection_entry c blocked)

  abbrev pub log_handshake : SyslogWriter W → Chain → Bytes → Bytes → SyslogResult
  log_handshake s c hassh banner = through s.writer (handshake_entry c hassh banner)

  abbrev pub log_disconnect : SyslogWriter W → Chain → Bytes → SyslogResult
  log_disconnect s c username = through s.writer (disconnect_entry c username)

  abbrev pub log_error : SyslogWriter W → ℕ → Bytes → Bytes → SyslogResult
  log_error s conn_id client_ip err_msg = through s.writer (error_entry conn_id client_ip err_msg)

  -- Is the connection to the system's logger closed?
  abbrev pub close : SyslogWriter W → Bool
  close s = elim s.writer [ none ↦ false | some w ↦ true ]

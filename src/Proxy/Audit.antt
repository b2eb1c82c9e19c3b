-- ===== src/Proxy/Audit.antt =====
-- pkg/proxy/server.go and syslog.go together: the entries of the system's log that a connection
-- leaves behind.
pub mod Trails
use hassh.Common.{
  ℕ, ◌≡◌, ◌≢◌, refl, sym, Bool, true, false, inl, inr, Option, none, some, List, [], ◌∷◌, ◌++◌,
  Bool-cases, Option-cases, Result, ok, err, panics,
}
use hassh.Text.{codes, decimal, Bytes, same, is_empty}
use hassh.Hassh.Fingerprint.{Fingerprint}
use hassh.Filter.{contains}
use hassh.Proxy.Reader.{
  Conn, Capture, CaptureError, LineRead, capture_handshake, read_identification_line,
}
use hassh.Proxy.Server.{
  World, Action, log_handshake, log_connection, log_error, log_disconnect, syslog, leave,
  relay_extra, replay_buffered, join_upstream, proxy_upstream, classify, decide_connection,
  handle_connection, handshake_timeout,
}
use hassh.Proxy.Server.Gate.{Captures}
use hassh.Proxy.Syslog.{
  Severity, info, warning, err_level, LogEntry, Chain, connection_entry, handshake_entry,
  disconnect_entry, error_entry,
}

-- The numbers and addresses of a connection that the handler passes to syslog.
pub record Site : Type 0 where
  pub conn_id : ℕ
  pub client_ip : Bytes
  pub client_port : ℕ
  pub proxy_ip : Bytes
  pub proxy_port : ℕ
  pub target_addr : Bytes
  -- the proxy's end of the connection to the server, once there is one
  pub local_ip : Bytes
  pub local_port : ℕ
  -- the text of an error
  pub error_text : Bytes

-- Before the dial there is no upstream address, and afterwards that of the proxy's end.
abbrev pub undialled : Site → Chain
undialled p = record {
  conn_id = p.conn_id;
  client_ip = p.client_ip;
  client_port = p.client_port;
  proxy_ip = p.proxy_ip;
  proxy_port = p.proxy_port;
  upstream_local_ip = [];
  upstream_local_port = 0;
  target_addr = p.target_addr;
}

abbrev pub joined : Site → Chain
joined p = record (undialled p) {
  upstream_local_ip = p.local_ip;
  upstream_local_port = p.local_port;
}

-- The call of SyslogWriter for an action; the user name is always empty.
abbrev pub entry_of : Site → Action → List LogEntry
entry_of p (log_handshake hash banner) = handshake_entry (undialled p) hash banner ∷ []
entry_of p (log_connection blocked) = connection_entry (undialled p) blocked ∷ []
entry_of p log_error = error_entry p.conn_id p.client_ip p.error_text ∷ []
entry_of p log_disconnect = disconnect_entry (joined p) [] ∷ []
entry_of p _ = []

unfoldable pub entries : Site → List Action → List LogEntry
entries p [] = []
entries p (a ∷ actions) = entry_of p a ++ entries p actions

-- An entry, in words: its severity, and the pieces of its message.
abbrev pub concat : List Bytes → Bytes
concat [] = []
concat (s ∷ ss) = s ++ concat ss

abbrev pub said : Severity → Site → List Bytes → LogEntry
said severity p words = record {
  severity = severity;
  message = codes "[conn:" ++ (decimal p.conn_id ++ (codes "] " ++ concat words));
}

-- `CLIENT_IP port CLIENT_PORT -> PROXY_IP port PROXY_PORT -> UPSTREAM_LOCAL_IP port
-- UPSTREAM_LOCAL_PORT -> TARGET`, in front of further words.
abbrev pub path_words : Site → Bytes → ℕ → List Bytes → List Bytes
path_words p local_ip local_port words =
    p.client_ip
    ∷ codes " port "
    ∷ decimal p.client_port
    ∷ codes " -> "
    ∷ p.proxy_ip
    ∷ codes " port "
    ∷ decimal p.proxy_port
    ∷ codes " -> "
    ∷ local_ip
    ∷ codes " port "
    ∷ decimal local_port
    ∷ codes " -> "
    ∷ p.target_addr
    ∷ words

-- What the end of a connection to the server is logged with.
abbrev pub end_said : Site → LogEntry
end_said p = said info p (codes "Disconnected from " ∷ path_words p p.local_ip p.local_port [])

-- The end of a trail: nothing, an error, or the end of a connection to the server.
pub data IsTail (w : World) (p : Site) : List LogEntry → Type 0 where
  no_entry : IsTail w p []
  failure :
      IsTail w p
        (said err_level p (codes "Error for " ∷ p.client_ip ∷ codes ": " ∷ p.error_text ∷ []) ∷ [])
  disconnected : {upstream : Conn} → w.upstream ≡ some upstream → IsTail w p (end_said p ∷ [])

-- What a classified client is logged with.
abbrev pub fingerprint_said : Site → Fingerprint → LogEntry
fingerprint_said p fp = said info p (
    codes "Client "
    ∷ path_words p [] 0 (codes ": HASSH=" ∷ fp.hash ∷ codes " Banner=" ∷ fp.client_banner ∷ []))

-- What a connection may leave behind.
pub data IsTrail (w : World) (p : Site) : List LogEntry → Type 0 where
  not_greeted : w.greets ≡ false → IsTrail w p []
  not_classified :
      {es : List LogEntry} → ((fp : Fingerprint) → ¬ Captures w fp) → IsTail w p es → IsTrail w p es
  refused :
      {fp : Fingerprint}
      → Captures w fp
      → contains w.blocklist fp.hash ≡ true
      → IsTrail w p (
          fingerprint_said p fp
          ∷ said warning p (codes "Connection BLOCKED: " ∷ path_words p [] 0 [])
          ∷ [])
  admitted :
      {fp : Fingerprint} {es : List LogEntry}
      → Captures w fp
      → contains w.blocklist fp.hash ≡ false
      → IsTail w p es
      → IsTrail w p (
          fingerprint_said p fp
          ∷ said info p (codes "Connection ALLOWED: " ∷ path_words p [] 0 [])
          ∷ es)

-- ===== src/Proxy/Server/Gate.antt =====
-- What may reach the upstream server.
use hassh.Common.{
  ◌≡◌, refl, Bool, true, false, inl, inr, List, [], ◌∷◌, ◌++◌, append-nil, Bool-cases, ok, err,
}
use hassh.Text.{Bytes}
use hassh.Hassh.Fingerprint.{Fingerprint}
use hassh.Filter.{contains}
use hassh.Proxy.Reader.{Conn, Capture, CaptureError, capture_handshake}
use hassh.Proxy.Server.{
  World, Action, write_client, write_upstream, record_connection, log_handshake, log_connection,
  dial, copy_both, close_client, syslog, proxy_upstream, classify, decide_connection,
  handle_connection, handshake_timeout,
}

-- The bytes that a list of actions writes to the upstream server.
abbrev pub sent_upstream : List Action → Bytes
sent_upstream [] = []
sent_upstream (write_upstream s ∷ actions) = s ++ sent_upstream actions
sent_upstream (copy_both s t ∷ actions) = s ++ sent_upstream actions
sent_upstream (_ ∷ actions) = sent_upstream actions

-- The bytes that it writes to the client.
abbrev pub sent_client : List Action → Bytes
sent_client [] = []
sent_client (write_client s ∷ actions) = s ++ sent_client actions
sent_client (copy_both s t ∷ actions) = t ++ sent_client actions
sent_client (_ ∷ actions) = sent_client actions

abbrev pub dials : List Action → Bool
dials [] = false
dials (dial ∷ actions) = true
dials (_ ∷ actions) = dials actions

-- The captures that lead to a fingerprint.
abbrev pub Captures : World → Fingerprint → Type 0
Captures w fp =
    (capture_handshake w.digests w.remote_addr w.client handshake_timeout).0.outcome ≡ ok fp

-- The trace of a blocked connection.
abbrev pub refused : World → Fingerprint → List Action
refused w fp =
    write_client w.greeting
    ∷ record_connection w.client_ip fp.hash fp.client_banner true
    ∷ (syslog w (log_handshake fp.hash fp.client_banner ∷ log_connection true ∷ [])
        ++ (close_client ∷ []))

module _ (w : World) where
  pub decide_found :
      (c : Capture) (client : Conn) {fp : Fingerprint}
      → c.outcome ≡ ok fp
      → decide_connection w c client ≡ classify w fp c.buffered client
  unfolding decide_connection
  decide_found c client e = rw e

  pub decide_failed :
      (c : Capture) (client : Conn) {e : CaptureError}
      → c.outcome ≡ err e
      → decide_connection w c client ≡ proxy_upstream w c.buffered client
  unfolding decide_connection
  decide_failed c client h = rw h

  pub handle_greeted :
      w.greets ≡ true
      → handle_connection w
        ≡ write_client w.greeting
          ∷ (let r = capture_handshake w.digests w.remote_addr w.client handshake_timeout in
              decide_connection w r.0 r.1)
  unfolding handle_connection
  handle_greeted h = rw h

  handle_connection-refused :
      (fp : Fingerprint)
      → w.greets ≡ true
      → Captures w fp
      → contains w.blocklist fp.hash ≡ true
      → handle_connection w ≡ refused w fp
  handle_connection-refused fp greets captured blocked =
      let r = capture_handshake w.digests w.remote_addr w.client handshake_timeout in
      rw (handle_greeted greets, decide_found r.0 r.1 captured) (unfold classify in rw blocked)

  refused_effects :
      (fp : Fingerprint)
      → (dials (refused w fp) ≡ false)
        × (sent_upstream (refused w fp) ≡ [])
        × (sent_client (refused w fp) ≡ w.greeting)
  refused_effects fp = elim (Bool-cases w.has_syslog) [
    | inl e ↦ rw e (refl, refl, append-nil w.greeting)
    | inr e ↦ rw e (refl, refl, append-nil w.greeting)
  ]

-- A client whose fingerprint is blocked never causes a dial, no byte goes upstream, and the client
-- is sent the greeting alone; the connection is recorded as blocked, logged if there is a syslog,
-- and closed.
pub handle_connection_blocked :
    (w : World) (fp : Fingerprint)
    → w.greets ≡ true
    → Captures w fp
    → contains w.blocklist fp.hash ≡ true
    → (handle_connection w ≡ refused w fp)
      × (dials (handle_connection w) ≡ false)
      × (sent_upstream (handle_connection w) ≡ [])
      × (sent_client (handle_connection w) ≡ w.greeting)
handle_connection_blocked w fp greets captured blocked =
    let e = handle_connection-refused w fp greets captured blocked in
    let (undialed, silent, greeted) = refused_effects w fp in rw e (refl, undialed, silent, greeted)

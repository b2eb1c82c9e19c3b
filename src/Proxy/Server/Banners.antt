-- ===== src/Proxy/Server/Banners.antt =====
-- The banner that the client was greeted with, and the one that the server sends.
use hassh.Common.{
  ◌≡◌, ◌≢◌, sym, ap, ◌∙◌, true, false, inl, inr, [], ◌++◌, append-nil, append_cancel_right, refl,
  Bool-cases, ok, some, arith,
}
use hassh.Text.{Bytes, same, same_iff}
use hassh.Proxy.Reader.{Conn, LineRead, capture_handshake, read_identification_line}
use hassh.Proxy.Reader.Captured.{bytes_of}
use hassh.Proxy.Reader.Lines.{read_identification_line_cut}
use hassh.Proxy.Server.{World, join_upstream, handle_connection, handshake_timeout}
use hassh.Proxy.Server.Gate.{sent_upstream, sent_client}
use hassh.Proxy.Server.Transparency.{
  IsAllowed, IsRelayed, handle_allowed, handle_relayed, proxy_dialled,
}

append_nil_right : (s t : Bytes) → t ≡ [] → s ++ t ≡ s
append_nil_right s t h = rw h (append-nil s)

module _ (w : World) (buffered : Bytes) (client upstream : Conn) where
  join_mismatch :
      (r : LineRead) (live extra : Bytes)
      → r.result ≡ ok (live, extra)
      → same live w.cached_banner ≡ false
      → (sent_upstream (join_upstream w buffered client r upstream) ≡ [])
        × (sent_client (join_upstream w buffered client r upstream) ≡ [])
  unfolding join_upstream
  join_mismatch r live extra line differs = elim (Bool-cases w.has_syslog) [
    | inl e ↦ rw (line, differs, e) (refl, refl)
    | inr e ↦ rw (line, differs, e) (refl, refl)
  ]

-- A connection that is not refused, to a server whose live banner is not the cached one, is given
-- up: nothing of the client reaches the server, and the client gets the greeting alone.
pub handle_connection_mismatch :
    (w : World) (upstream : Conn) (live extra : Bytes)
    → w.greets ≡ true
    → IsAllowed w
    → w.upstream ≡ some upstream
    → (read_identification_line upstream handshake_timeout).0.result ≡ ok (live, extra)
    → live ≢ w.cached_banner
    → (sent_upstream (handle_connection w) ≡ []) × (sent_client (handle_connection w) ≡ w.greeting)
handle_connection_mismatch w upstream live extra greets allowed dialled line ne =
    let c = capture_handshake w.digests w.remote_addr w.client handshake_timeout in
    let r = read_identification_line upstream handshake_timeout in
    let sent = handle_allowed w greets allowed in
    let e = proxy_dialled w c.0.buffered c.1 upstream dialled in
    let differs : same live w.cached_banner ≡ false =
      ground (arith, same_iff live w.cached_banner) in
    let silent = join_mismatch w c.0.buffered c.1 r.1 r.0 live extra line differs in
    (
      sent.0 ∙ (ap sent_upstream e ∙ silent.0),
      sent.1 ∙ append_nil_right w.greeting _ (ap sent_client e ∙ silent.1),
    )

-- A SIGHUP that refreshes the cached banner after the greeting is not noticed: the server's live
-- banner is compared with the new one alone. Client and server are joined, every byte of the
-- client reaches the server, and the client, greeted with the old banner, sees another stream than
-- the server sent.
pub handle_connection_stale :
    (w : World) (upstream : Conn) (live extra : Bytes)
    → IsRelayed w upstream live extra
    → w.greeting ≢ w.cached_banner
    → (sent_upstream (handle_connection w) ≡ bytes_of w.client.arrivals)
      × (sent_client (handle_connection w) ≢ bytes_of upstream.arrivals)
handle_connection_stale w upstream live extra h stale =
    let sent = handle_relayed w upstream live extra h in
    let rest = extra ++ bytes_of (read_identification_line upstream handshake_timeout).1.arrivals in
    let stream = (read_identification_line_cut upstream handshake_timeout h.line).0 in
    let matched = (same_iff live w.cached_banner).0 h.agrees in
    (
      sent.0,
      λ e.
          stale
            (append_cancel_right w.greeting live rest (sym sent.1 ∙ (e ∙ sym stream)) ∙ matched),
    )

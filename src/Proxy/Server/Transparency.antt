-- ===== src/Proxy/Server/Transparency.antt =====
-- What passes through a connection that is not refused.
use hassh.Common.{
  ◌≡◌, refl, sym, ap, ◌∙◌, true, false, some, inl, inr, List, [], ◌∷◌, ◌++◌, append-nil, Bool-cases,
  ok, err, ◌⊎◌,
}
use hassh.Text.{Bytes, same, same_iff}
use hassh.Hassh.Fingerprint.{Fingerprint}
use hassh.Filter.{contains}
use hassh.Proxy.Reader.{
  Arrival, Conn, CaptureError, LineRead, capture_handshake, read_identification_line,
}
use hassh.Proxy.Reader.Captured.{
  bytes_of, AreClean, capture_handshake-conserves, capture_handshake-AreClean,
}
use hassh.Proxy.Reader.Lines.{read_identification_line_cut, read_identification_line-AreClean}
use hassh.Proxy.Server.{
  World, dial, copied, copy_streams, relay_extra, replay_buffered, join_upstream, proxy_upstream,
  classify, handle_connection, handshake_timeout,
}
use hassh.Proxy.Server.Gate.{
  sent_upstream, sent_client, Captures, decide_found, decide_failed, handle_greeted,
}

-- Without a failed read, a copy moves everything.
copied-bytes_of :
    (arrivals : List Arrival) → AreClean arrivals → copied arrivals ≡ bytes_of arrivals
unfolding copied
copied-bytes_of [] h = refl
copied-bytes_of (a ∷ arrivals) (clean, h) = rw (clean, copied-bytes_of arrivals h)

-- The two connections, as a handler finds them when both are joined.
pub record Joined (w : World) (client upstream : Conn) : Type 0 where
  pub replays : w.replays ≡ true
  pub relays : w.relays ≡ true
  pub client_clean : AreClean client.arrivals
  pub upstream_clean : AreClean upstream.arrivals

module _ (w : World) (client upstream : Conn) (j : Joined w client upstream) where
  copy_effects :
      (sent_upstream (copy_streams w client upstream) ≡ bytes_of client.arrivals)
      × (sent_client (copy_streams w client upstream) ≡ bytes_of upstream.arrivals)
  copy_effects = elim (Bool-cases w.has_syslog) [ inl e ↦ rw e (c, u) | inr e ↦ rw e (c, u) ]
    where
      c : copied client.arrivals ++ [] ≡ bytes_of client.arrivals
      c = append-nil _ ∙ copied-bytes_of client.arrivals j.client_clean

      u : copied upstream.arrivals ++ [] ≡ bytes_of upstream.arrivals
      u = append-nil _ ∙ copied-bytes_of upstream.arrivals j.upstream_clean

  relay_effects :
      (extra : Bytes)
      → (sent_upstream (relay_extra w client upstream extra) ≡ bytes_of client.arrivals)
        × (sent_client (relay_extra w client upstream extra) ≡ extra ++ bytes_of upstream.arrivals)
  unfolding relay_extra
  relay_effects [] = copy_effects
  relay_effects (x ∷ extra) =
      rw j.relays (copy_effects.0, ap (λ s. (x ∷ extra) ++ s) copy_effects.1)

  replay_effects :
      (buffered extra : Bytes)
      → (sent_upstream (replay_buffered w buffered client upstream extra)
          ≡ buffered ++ bytes_of client.arrivals)
        × (sent_client (replay_buffered w buffered client upstream extra)
            ≡ extra ++ bytes_of upstream.arrivals)
  unfolding replay_buffered
  replay_effects [] extra = relay_effects extra
  replay_effects (x ∷ buffered) extra =
      rw j.replays (ap (λ s. (x ∷ buffered) ++ s) (relay_effects extra).0, (relay_effects extra).1)

-- The handler lets the connection through: it captured no fingerprint, or one that is not blocked.
abbrev pub IsAllowed : World → Type 0
IsAllowed w =
    ((e : CaptureError) × ((capture_handshake w.digests w.remote_addr w.client
          handshake_timeout).0.outcome
        ≡ err e))
    ⊎ ((fp : Fingerprint) × Captures w fp × (contains w.blocklist fp.hash ≡ false))

module _ (w : World) (buffered : Bytes) (client : Conn) where
  classify_allowed :
      (fp : Fingerprint)
      → contains w.blocklist fp.hash ≡ false
      → (sent_upstream (classify w fp buffered client)
          ≡ sent_upstream (proxy_upstream w buffered client))
        × (sent_client (classify w fp buffered client)
            ≡ sent_client (proxy_upstream w buffered client))
  unfolding classify
  classify_allowed fp allowed = elim (Bool-cases w.has_syslog) [
    | inl e ↦ rw (allowed, e) (refl, refl)
    | inr e ↦ rw (allowed, e) (refl, refl)
  ]

  join_matching :
      (r : LineRead) (upstream : Conn) {live extra : Bytes}
      → r.result ≡ ok (live, extra)
      → same live w.cached_banner ≡ true
      → join_upstream w buffered client r upstream
        ≡ replay_buffered w buffered client upstream extra
  unfolding join_upstream
  join_matching r upstream line matches = rw (line, matches)

  pub proxy_dialled :
      (upstream : Conn)
      → w.upstream ≡ some upstream
      → let r = read_identification_line upstream handshake_timeout in
        proxy_upstream w buffered client ≡ dial ∷ join_upstream w buffered client r.0 r.1
  unfolding proxy_upstream
  proxy_dialled upstream up = rw up

  proxy_joined :
      (upstream : Conn) {live extra : Bytes}
      → w.upstream ≡ some upstream
      → (read_identification_line upstream handshake_timeout).0.result ≡ ok (live, extra)
      → same live w.cached_banner ≡ true
      → proxy_upstream w buffered client
        ≡ dial
          ∷ replay_buffered w buffered client
              (read_identification_line upstream handshake_timeout).1
              extra
  proxy_joined upstream up line matches =
      let r = read_identification_line upstream handshake_timeout in
      proxy_dialled upstream up ∙ ap (λ s. dial ∷ s) (join_matching r.0 r.1 line matches)

-- What an allowed connection sends is what the proxied part of it sends.
pub handle_allowed :
    (w : World)
    → w.greets ≡ true
    → IsAllowed w
    → let r = capture_handshake w.digests w.remote_addr w.client handshake_timeout in
      (sent_upstream (handle_connection w) ≡ sent_upstream (proxy_upstream w r.0.buffered r.1))
      × (sent_client (handle_connection w)
          ≡ w.greeting ++ sent_client (proxy_upstream w r.0.buffered r.1))
handle_allowed w greets (inl (e, failed)) =
    let r = capture_handshake w.digests w.remote_addr w.client handshake_timeout in
    rw (handle_greeted w greets, decide_failed w r.0 r.1 failed) (refl, refl)
handle_allowed w greets (inr (fp, captured, allowed)) =
    let r = capture_handshake w.digests w.remote_addr w.client handshake_timeout in
    let c = classify_allowed w r.0.buffered r.1 fp allowed in
    rw (handle_greeted w greets, decide_found w r.0 r.1 captured)
      (c.0, ap (λ s. w.greeting ++ s) c.1)

-- The proxy and the server agree on the banner, and both connections last.
pub record IsRelayed (w : World) (upstream : Conn) (live extra : Bytes) : Type 0 where
  pub greets : w.greets ≡ true
  pub allowed : IsAllowed w
  pub dialled : w.upstream ≡ some upstream
  pub line : (read_identification_line upstream handshake_timeout).0.result ≡ ok (live, extra)
  pub agrees : same live w.cached_banner ≡ true
  pub replays : w.replays ≡ true
  pub relays : w.relays ≡ true
  pub client_clean : AreClean w.client.arrivals
  pub upstream_clean : AreClean upstream.arrivals

pub handle_relayed :
    (w : World) (upstream : Conn) (live extra : Bytes)
    → IsRelayed w upstream live extra
    → (sent_upstream (handle_connection w) ≡ bytes_of w.client.arrivals)
      × (sent_client (handle_connection w)
          ≡ w.greeting
            ++ (extra ++ bytes_of (read_identification_line upstream handshake_timeout).1.arrivals))
handle_relayed w upstream live extra h =
    let r = capture_handshake w.digests w.remote_addr w.client handshake_timeout in
    let up = (read_identification_line upstream handshake_timeout).1 in
    let j : Joined w r.1 up = record {
      replays = h.replays;
      relays = h.relays;
      client_clean =
          capture_handshake-AreClean w.digests w.remote_addr w.client handshake_timeout
            h.client_clean;
      upstream_clean =
          read_identification_line-AreClean upstream handshake_timeout h.upstream_clean;
    } in
    let sent = handle_allowed w h.greets h.allowed in
    let e = proxy_joined w r.0.buffered r.1 upstream h.dialled h.line h.agrees in
    let effects = replay_effects w r.1 up j r.0.buffered extra in
    let conserved =
      capture_handshake-conserves w.digests w.remote_addr w.client handshake_timeout in
    (
      sent.0 ∙ (ap sent_upstream e ∙ (effects.0 ∙ conserved.1)),
      sent.1 ∙ ap (λ s. w.greeting ++ s) (ap sent_client e ∙ effects.1),
    )

-- A connection that is not refused, to a server whose live banner is the cached one: if no read
-- and no write fails, every byte of the client reaches the server, in order, none added and none
-- lost; and the client, greeted with the banner that the server sends, sees exactly the server's
-- stream.
pub handle_connection_transparent :
    (w : World) (upstream : Conn) (live extra : Bytes)
    → IsRelayed w upstream live extra
    → w.greeting ≡ w.cached_banner
    → (sent_upstream (handle_connection w) ≡ bytes_of w.client.arrivals)
      × (sent_client (handle_connection w) ≡ bytes_of upstream.arrivals)
handle_connection_transparent w upstream live extra h greeted =
    let sent = handle_relayed w upstream live extra h in
    let stream = (read_identification_line_cut upstream handshake_timeout h.line).0 in
    (
      sent.0,
      sent.1
          ∙ (ap
                (λ s.
                  s
                  ++ (extra
                      ++ bytes_of (read_identification_line upstream handshake_timeout).1.arrivals))
                (greeted ∙ sym ((same_iff live w.cached_banner).0 h.agrees))
              ∙ stream),
    )

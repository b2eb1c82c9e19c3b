-- ===== src/Proxy/Server/Upstream.antt =====
-- What any connection, refused, broken or proxied, writes to the upstream server.
use hassh.Common.{
  ◌≡◌, refl, ap, ◌∙◌, Bool, true, false, inl, inr, List, [], ◌∷◌, ◌++◌, append-nil, append_assoc,
  if◌then◌else◌, Bool-cases, Option-cases, Result, ok, err, panics,
}
use hassh.Text.{Bytes, same}
use hassh.Hassh.Fingerprint.{Fingerprint}
use hassh.Filter.{contains}
use hassh.Proxy.Reader.{
  Arrival, Conn, Capture, CaptureError, LineRead, capture_handshake, read_identification_line,
}
use hassh.Proxy.Reader.Captured.{bytes_of, capture_handshake-conserves}
use hassh.Proxy.Server.{
  World, Action, log_error, log_handshake, log_connection, close_upstream, close_client, crash,
  syslog, copied, leave, copy_streams, relay_extra, replay_buffered, join_upstream, proxy_upstream,
  classify, decide_connection, handle_connection, handshake_timeout,
}
use hassh.Proxy.Server.Gate.{sent_upstream}

abbrev pub IsPrefix : Bytes → Bytes → Type 0
IsPrefix s t = (rest : Bytes) × (s ++ rest ≡ t)

copied-IsPrefix : (arrivals : List Arrival) → IsPrefix (copied arrivals) (bytes_of arrivals)
unfolding copied
copied-IsPrefix [] = ([], refl)
copied-IsPrefix (a ∷ arrivals) = elim (Option-cases a.read_err) [
  | inl e ↦
      let (rest, h) = copied-IsPrefix arrivals in
      rw e (rest, append_assoc a.chunk (copied arrivals) rest ∙ ap (λ s. a.chunk ++ s) h)
  | inr (e, h) ↦ rw h (bytes_of arrivals, refl)
]

behind : (s t u : Bytes) → IsPrefix t u → IsPrefix (s ++ t) (s ++ u)
behind s t u (rest, h) = (rest, append_assoc s t rest ∙ ap (λ r. s ++ r) h)

module _ (w : World) (client upstream : Conn) where
  leave-silent : sent_upstream (leave w) ≡ []
  leave-silent = elim (Bool-cases w.has_syslog) [ inl e ↦ rw e refl | inr e ↦ rw e refl ]

  copy_streams-IsPrefix :
      IsPrefix (sent_upstream (copy_streams w client upstream)) (bytes_of client.arrivals)
  copy_streams-IsPrefix =
      rw (leave-silent, append-nil (copied client.arrivals)) (copied-IsPrefix client.arrivals)

  relay_extra-IsPrefix :
      (extra : Bytes)
      → IsPrefix (sent_upstream (relay_extra w client upstream extra)) (bytes_of client.arrivals)
  unfolding relay_extra
  relay_extra-IsPrefix [] = copy_streams-IsPrefix
  relay_extra-IsPrefix (x ∷ extra) = elim (Bool-cases w.relays) [
    | inl e ↦ rw e copy_streams-IsPrefix
    | inr e ↦ rw (e, leave-silent) (bytes_of client.arrivals, refl)
  ]

  replay_buffered-IsPrefix :
      (buffered extra : Bytes)
      → IsPrefix
          (sent_upstream (replay_buffered w buffered client upstream extra))
          (buffered ++ bytes_of client.arrivals)
  unfolding replay_buffered
  replay_buffered-IsPrefix [] extra = relay_extra-IsPrefix extra
  replay_buffered-IsPrefix (x ∷ buffered) extra = elim (Bool-cases w.replays) [
    | inl e ↦ rw e (behind (x ∷ buffered) _ _ (relay_extra-IsPrefix extra))
    | inr e ↦ rw (e, leave-silent) (behind (x ∷ buffered) _ _ (bytes_of client.arrivals, refl))
  ]

  -- What follows a refusal writes nothing upstream.
  closing-silent :
      (rest : List Action)
      → sent_upstream rest ≡ []
      → sent_upstream (syslog w (log_error ∷ []) ++ rest) ≡ []
  closing-silent rest h = elim (Bool-cases w.has_syslog) [ inl e ↦ rw e h | inr e ↦ rw e h ]

  join_upstream-IsPrefix :
      (buffered : Bytes) (r : LineRead)
      → IsPrefix
          (sent_upstream (join_upstream w buffered client r upstream))
          (buffered ++ bytes_of client.arrivals)
  unfolding join_upstream
  join_upstream-IsPrefix buffered r = go r.result
    where
      go :
          (line : Result CaptureError (Bytes × Bytes))
          → IsPrefix
              (sent_upstream (elim line [
                | ok (live, extra) ↦
                    if same live w.cached_banner
                    then replay_buffered w buffered client upstream extra
                    else (syslog w (log_error ∷ []) ++ (close_upstream ∷ close_client ∷ []))
                | err _ ↦ close_upstream ∷ close_client ∷ []
                | panics ↦ crash ∷ close_upstream ∷ close_client ∷ []
              ]))
              (buffered ++ bytes_of client.arrivals)
      go (ok (live, extra)) = elim (Bool-cases (same live w.cached_banner)) [
        | inl e ↦ rw e (replay_buffered-IsPrefix buffered extra)
        | inr e ↦ rw (e, closing-silent (close_upstream ∷ close_client ∷ []) refl) (_, refl)
      ]
      go (err _) = (_, refl)
      go panics = (_, refl)

module _ (w : World) (buffered : Bytes) (client : Conn) where
  proxy_upstream-IsPrefix :
      IsPrefix
        (sent_upstream (proxy_upstream w buffered client))
        (buffered ++ bytes_of client.arrivals)
  unfolding proxy_upstream
  proxy_upstream-IsPrefix = elim (Option-cases w.upstream) [
    | inl e ↦ rw (e, closing-silent w client client (close_client ∷ []) refl) (_, refl)
    | inr (up, e) ↦
        let r = read_identification_line up handshake_timeout in
        rw e (join_upstream-IsPrefix w client r.1 buffered r.0)
  ]

  classify-IsPrefix :
      (fp : Fingerprint)
      → IsPrefix
          (sent_upstream (classify w fp buffered client))
          (buffered ++ bytes_of client.arrivals)
  unfolding classify
  classify-IsPrefix fp = elim (Bool-cases (contains w.blocklist fp.hash)) [
    | inl blocked ↦ rw blocked (logged true (close_client ∷ []) (_, refl))
    | inr allowed ↦
        rw allowed (logged false (proxy_upstream w buffered client) proxy_upstream-IsPrefix)
  ]
    where
      logged :
          (b : Bool) (rest : List Action)
          → IsPrefix (sent_upstream rest) (buffered ++ bytes_of client.arrivals)
          → IsPrefix
              (sent_upstream
                (syslog w (log_handshake fp.hash fp.client_banner ∷ log_connection b ∷ []) ++ rest))
              (buffered ++ bytes_of client.arrivals)
      logged b rest h = elim (Bool-cases w.has_syslog) [ inl e ↦ rw e h | inr e ↦ rw e h ]

  decide_connection-IsPrefix :
      (c : Capture)
      → c.buffered ≡ buffered
      → IsPrefix
          (sent_upstream (decide_connection w c client))
          (buffered ++ bytes_of client.arrivals)
  unfolding decide_connection
  decide_connection-IsPrefix c e = rw e (go c.outcome)
    where
      go :
          (outcome : Result CaptureError Fingerprint)
          → IsPrefix
              (sent_upstream (elim outcome [
                | ok fp ↦ classify w fp buffered client
                | err _ ↦ proxy_upstream w buffered client
                | panics ↦ crash ∷ close_client ∷ []
              ]))
              (buffered ++ bytes_of client.arrivals)
      go (ok fp) = classify-IsPrefix fp
      go (err _) = proxy_upstream-IsPrefix
      go panics = (_, refl)

-- Whatever happens to a connection, a failed read, write or dial, a mismatch of the banners or a
-- refusal: the bytes that the server gets are a prefix of those that the client sent, in order and
-- with nothing added.
pub handle_connection-IsPrefix :
    (w : World) → IsPrefix (sent_upstream (handle_connection w)) (bytes_of w.client.arrivals)
unfolding handle_connection
handle_connection-IsPrefix w = elim (Bool-cases w.greets) [
  | inl e ↦
      let r = capture_handshake w.digests w.remote_addr w.client handshake_timeout in
      let conserved =
        (capture_handshake-conserves w.digests w.remote_addr w.client handshake_timeout).1 in
      let (rest, h) = decide_connection-IsPrefix w r.0.buffered r.1 r.0 refl in
      rw e (rest, h ∙ conserved)
  | inr e ↦ rw e (_, refl)
]

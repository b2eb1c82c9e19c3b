-- ===== src/Proxy/Audit/Trails.antt =====
-- Every handled connection leaves one of the trails behind.
use hassh.Common.{
  ◌≡◌, refl, ap, ap₂, append_assoc, append-nil, sym, Bool, true, false, inl, inr, some, List, [],
  ◌∷◌, ◌++◌, subst, if◌then◌else◌, Bool-cases, Option-cases, Result, ok, err, panics,
}
use hassh.Text.{codes, Bytes, same, is_empty}
use hassh.Hassh.Fingerprint.{Fingerprint}
use hassh.Filter.{contains}
use hassh.Proxy.Reader.{
  Conn, Capture, CaptureError, LineRead, capture_handshake, read_identification_line,
}
use hassh.Proxy.Server.{
  World, Action, write_client, crash, close_client, record_connection, log_handshake,
  log_connection, leave, relay_extra, replay_buffered, join_upstream, proxy_upstream, classify,
  decide_connection, handle_connection, handshake_timeout,
}
use hassh.Proxy.Server.Gate.{Captures}
use hassh.Proxy.Syslog.{
  LogEntry, info, warning, err_level, status_of, connection_entry, handshake_entry,
  disconnect_entry, error_entry,
}
use hassh.Proxy.Server.Gate.{decide_found, decide_failed, handle_greeted}
use hassh.Proxy.Server.Transparency.{proxy_dialled}
use hassh.Proxy.Audit.{
  Site, undialled, joined, entries, said, path_words, fingerprint_said, end_said, IsTail, no_entry,
  failure, disconnected, IsTrail, not_greeted, not_classified, refused, admitted,
}

-- The entries, in words.
module _ (p : Site) where
  connection_said :
      (blocked : Bool)
      → connection_entry (undialled p) blocked
        ≡ said
            (if blocked then warning else info)
            p
            (codes "Connection " ∷ status_of blocked ∷ codes ": " ∷ path_words p [] 0 [])
  unfolding connection_entry
  connection_said blocked =
      ap (λ m. record { severity = if blocked then warning else info; message = m })
        (simp (append_assoc, append-nil))

  handshake_said :
      (fp : Fingerprint)
      → handshake_entry (undialled p) fp.hash fp.client_banner ≡ fingerprint_said p fp
  unfolding handshake_entry
  handshake_said fp =
      ap (λ m. record { severity = info; message = m }) (simp (append_assoc, append-nil))

  disconnect_said : disconnect_entry (joined p) [] ≡ end_said p
  unfolding disconnect_entry
  disconnect_said =
      ap (λ m. record { severity = info; message = m }) (simp (append_assoc, append-nil))

  error_said :
      error_entry p.conn_id p.client_ip p.error_text
      ≡ said err_level p (codes "Error for " ∷ p.client_ip ∷ codes ": " ∷ p.error_text ∷ [])
  unfolding error_entry
  error_said =
      ap (λ m. record { severity = err_level; message = m }) (simp (append_assoc, append-nil))

error_entry-IsTail :
    (w : World) (p : Site) → IsTail w p (error_entry p.conn_id p.client_ip p.error_text ∷ [])
error_entry-IsTail w p = subst (λ e. IsTail w p (e ∷ [])) (sym (error_said p)) failure

module _ (w : World) (p : Site) (logs : w.has_syslog ≡ true) where
  refused_entries :
      (fp : Fingerprint)
      → Captures w fp
      → contains w.blocklist fp.hash ≡ true
      → IsTrail w p (
          handshake_entry (undialled p) fp.hash fp.client_banner
          ∷ connection_entry (undialled p) true
          ∷ [])
  refused_entries fp captured blocked =
      subst (λ es. IsTrail w p es)
        (ap₂ (λ h c. h ∷ c ∷ []) (sym (handshake_said p fp)) (sym (connection_said p true)))
        (refused captured blocked)

  admitted_entries :
      (fp : Fingerprint) {es : List LogEntry}
      → Captures w fp
      → contains w.blocklist fp.hash ≡ false
      → IsTail w p es
      → IsTrail w p (
          handshake_entry (undialled p) fp.hash fp.client_banner
          ∷ connection_entry (undialled p) false
          ∷ es)
  admitted_entries fp {es} captured allowed tail =
      subst (λ l. IsTrail w p l)
        (ap₂ (λ h c. h ∷ c ∷ es) (sym (handshake_said p fp)) (sym (connection_said p false)))
        (admitted captured allowed tail)

  entries-leave : entries p (leave w) ≡ end_said p ∷ []
  unfolding entries
  entries-leave = rw logs (ap (λ e. e ∷ []) (disconnect_said p))

  entries-relay_extra :
      (client upstream : Conn) (extra : Bytes)
      → entries p (relay_extra w client upstream extra) ≡ end_said p ∷ []
  unfolding relay_extra entries
  entries-relay_extra client upstream extra = elim (Bool-cases (is_empty extra)) [
    | inl e ↦ rw e entries-leave
    | inr e ↦ elim (Bool-cases w.relays) [
      | inl r ↦ rw (e, r) entries-leave
      | inr r ↦ rw (e, r) entries-leave
    ]
  ]

  entries-replay_buffered :
      (buffered : Bytes) (client upstream : Conn) (extra : Bytes)
      → entries p (replay_buffered w buffered client upstream extra) ≡ end_said p ∷ []
  unfolding replay_buffered entries
  entries-replay_buffered buffered client upstream extra = elim (Bool-cases (is_empty buffered)) [
    | inl e ↦ rw e (entries-relay_extra client upstream extra)
    | inr e ↦ elim (Bool-cases w.replays) [
      | inl r ↦ rw (e, r) (entries-relay_extra client upstream extra)
      | inr r ↦ rw (e, r) entries-leave
    ]
  ]

  join_upstream-IsTail :
      {dialled : Conn}
      → w.upstream ≡ some dialled
      → (buffered : Bytes) (client upstream : Conn) (r : LineRead)
        (o : Result CaptureError (Bytes × Bytes))
      → r.result ≡ o
      → IsTail w p (entries p (join_upstream w buffered client r upstream))
  unfolding join_upstream entries
  join_upstream-IsTail u buffered client upstream r (ok (live, extra)) e =
      elim (Bool-cases (same live w.cached_banner)) [
        | inl m ↦ rw (e, m, entries-replay_buffered buffered client upstream extra) (disconnected u)
        | inr m ↦ rw (e, m, logs) (error_entry-IsTail _ p)
      ]
  join_upstream-IsTail u buffered client upstream r (err x) e = rw e no_entry
  join_upstream-IsTail u buffered client upstream r panics e = rw e no_entry

  proxy_upstream-IsTail :
      (buffered : Bytes) (client : Conn) → IsTail w p (entries p (proxy_upstream w buffered client))
  unfolding proxy_upstream entries
  proxy_upstream-IsTail buffered client = elim (Option-cases w.upstream) [
    | inl e ↦ rw (e, logs) (error_entry-IsTail _ p)
    | inr (upstream, e) ↦
        let r = read_identification_line upstream handshake_timeout in
        subst (λ actions. IsTail w p (entries p actions))
          (sym (proxy_dialled w buffered client upstream e))
          (join_upstream-IsTail e buffered client r.1 r.0 r.0.result refl)
  ]

  classify-IsTrail :
      (fp : Fingerprint) (buffered : Bytes) (client : Conn)
      → Captures w fp
      → IsTrail w p (entries p (classify w fp buffered client))
  unfolding classify entries
  classify-IsTrail fp buffered client captured =
      subst (λ l. IsTrail w p (entries p (classified l (contains w.blocklist fp.hash)))) (sym logs)
        (elim (Bool-cases (contains w.blocklist fp.hash)) [
          | inl blocked ↦
              subst (λ b. IsTrail w p (entries p (classified true b))) (sym blocked)
                (refused_entries fp captured blocked)
          | inr allowed ↦
              subst (λ b. IsTrail w p (entries p (classified true b))) (sym allowed)
                (admitted_entries fp captured allowed (proxy_upstream-IsTail buffered client))
        ])
    where
      classified : Bool → Bool → List Action
      classified logging blocked =
          record_connection w.client_ip fp.hash fp.client_banner blocked
          ∷ ((if logging
                then log_handshake fp.hash fp.client_banner ∷ log_connection blocked ∷ []
                else [])
              ++ (if blocked then close_client ∷ [] else proxy_upstream w buffered client))

  handle_ungreeted :
      w.greets ≡ false → handle_connection w ≡ write_client w.greeting ∷ close_client ∷ []
  unfolding handle_connection
  handle_ungreeted h = rw h

  decide_panicked :
      (c : Capture) (client : Conn)
      → c.outcome ≡ panics
      → decide_connection w c client ≡ crash ∷ close_client ∷ []
  unfolding decide_connection
  decide_panicked c client e = rw e

  decide_connection-IsTrail :
      (c : Capture) (client : Conn) (o : Result CaptureError Fingerprint)
      → (capture_handshake w.digests w.remote_addr w.client handshake_timeout).0 ≡ c
      → c.outcome ≡ o
      → IsTrail w p (entries p (decide_connection w c client))
  unfolding entries
  decide_connection-IsTrail c client (ok fp) taken e =
      rw (decide_found w c client e) (classify-IsTrail fp c.buffered client (rw taken e))
  decide_connection-IsTrail c client (err x) taken e =
      rw (decide_failed w c client e)
        (not_classified (λ fp captured. cc taken) (proxy_upstream-IsTail c.buffered client))
  decide_connection-IsTrail c client panics taken e =
      subst (λ actions. IsTrail w p (entries p actions)) (sym (decide_panicked c client e))
        (not_classified (λ fp captured. cc taken) no_entry)

  -- With a system's log, a handled connection leaves there nothing but this, in these words: an
  -- information with its fingerprint and banner, if it has one, and a warning "Connection BLOCKED"
  -- behind it, if the fingerprint is on the list, and then no more; or an information "Connection
  -- ALLOWED" behind it, if not. A connection that is not blocked ends with at most one more entry, an
  -- error, or the information that a connection to the server has ended. Each has the number of the
  -- connection and the client's address, and each that is not an error the ports and the other
  -- addresses.
  pub handle_connection-IsTrail : IsTrail w p (entries p (handle_connection w))
  unfolding entries
  handle_connection-IsTrail = elim (Bool-cases w.greets) [
    | inl greeted ↦
        let r = capture_handshake w.digests w.remote_addr w.client handshake_timeout in
        subst (λ actions. IsTrail w p (entries p actions)) (sym (handle_greeted w greeted))
          (decide_connection-IsTrail r.0 r.1 r.0.outcome refl refl)
    | inr failed ↦
        subst (λ actions. IsTrail w p (entries p actions)) (sym (handle_ungreeted failed))
          (not_greeted failed)
  ]

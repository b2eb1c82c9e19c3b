-- ===== src/Proxy/Reader/Verdict.antt =====
-- The fingerprint depends on the bytes of the stream, and not on how reads cut it up.
use hassh.Common.{
  ℕ, ◌≤◌, ◌<◌, ◌≡◌, ◌≢◌, sym, ap, ◌∙◌, false, ◌&&◌, List, [], ◌∷◌, ◌++◌, append_assoc,
  append_prefix, arith, ltb, length, length-append, ok, ok_injective, dec_le,
}
use hassh.Text.{Bytes}
use hassh.Hassh.Fingerprint.{Fingerprint, Digests}
use hassh.Proxy.Handshake.{max_capture_size, try_parse_handshake}
use hassh.Hassh.Fingerprint.{calculate}
use hassh.Hassh.KexInit.RoundTrip.{Packet, IsWithinLimits}
use hassh.Proxy.Handshake.RoundTrip.{
  IsIdentification, put_handshake, try_parse_handshake-put_handshake,
}
use hassh.Proxy.Handshake.Stability.{try_parse_handshake-append}
use hassh.Proxy.Handshake.Totality.{try_parse_handshake_no_panic}
use hassh.Proxy.Reader.{Arrival, Conn, capture_loop, capture_handshake}
use hassh.Proxy.Reader.Captured.{bytes_of, AreClean, settle_rule, capture_loop-IsCapture}

-- Two buffers that begin one stream, both parsed, give one fingerprint.
module _ (d : Digests) (remote_addr : Bytes) where
  front_determines :
      (front more : Bytes) {fp fp' : Fingerprint}
      → try_parse_handshake d front remote_addr ≡ ok fp
      → try_parse_handshake d (front ++ more) remote_addr ≡ ok fp'
      → fp ≡ fp'
  front_determines front more h h' =
      ok_injective (sym (try_parse_handshake-append d remote_addr front more h) ∙ h')

  prefixes_agree :
      (xs zs ys ws : Bytes) {fp fp' : Fingerprint}
      → xs ++ ys ≡ zs ++ ws
      → try_parse_handshake d xs remote_addr ≡ ok fp
      → try_parse_handshake d zs remote_addr ≡ ok fp'
      → fp ≡ fp'
  prefixes_agree xs zs ys ws e h h' = elim (dec_le (length xs) (length zs)) [
    | yes le ↦
        let (t, longer) = append_prefix xs zs ys ws e le in
        front_determines xs t h (rw (← longer) h')
    | no gt ↦
        let (t, longer) = append_prefix zs xs ws ys (sym e) (omega arith) in
        sym (front_determines zs t h' (rw (← longer) h))
  ]

-- Two connections that bring the same bytes, in whatever pieces, are given the same fingerprint
-- if each is given one.
pub capture_loop_segmentation :
    (d : Digests) (remote_addr : Bytes) (arrivals arrivals' : List Arrival) {fp fp' : Fingerprint}
    → bytes_of arrivals ≡ bytes_of arrivals'
    → (capture_loop d remote_addr [] arrivals).outcome ≡ ok fp
    → (capture_loop d remote_addr [] arrivals').outcome ≡ ok fp'
    → fp ≡ fp'
capture_loop_segmentation d remote_addr arrivals arrivals' {fp} {fp'} same h h' =
    let c = capture_loop-IsCapture d remote_addr [] arrivals in
    let c' = capture_loop-IsCapture d remote_addr [] arrivals' in
    prefixes_agree d remote_addr _ _ _ _ (c.conserved ∙ same ∙ sym c'.conserved) (c.parsed fp h)
      (c'.parsed fp' h')

-- A stream that begins with a handshake which fits the budget.
module _ (d : Digests) (remote_addr front back : Bytes) (fp : Fingerprint)
    (parsed : try_parse_handshake d front remote_addr ≡ ok fp)
    (fits : length front ≤ max_capture_size) where
  -- A buffer that was parsed gives that fingerprint; one that was not is shorter than the front.
  same_fingerprint :
      (buf rest : Bytes) (fp' : Fingerprint)
      → buf ++ rest ≡ front ++ back
      → try_parse_handshake d buf remote_addr ≡ ok fp'
      → fp' ≡ fp
  same_fingerprint buf rest fp' e h = prefixes_agree d remote_addr buf front rest back e h parsed

  still_short :
      (buf rest : Bytes)
      → buf ++ rest ≡ front ++ back
      → ((fp' : Fingerprint) → try_parse_handshake d buf remote_addr ≢ ok fp')
      → length buf < length front
  still_short buf rest e none_yet = elim (dec_le (length front) (length buf)) [
    | yes le ↦
        let (t, longer) = append_prefix front buf back rest (sym e) le in
        absurd (none_yet fp (rw longer (try_parse_handshake-append d remote_addr front t parsed)))
    | no gt ↦ omega arith
  ]

  capture_loop_complete :
      (buf : Bytes) (arrivals : List Arrival)
      → buf ++ bytes_of arrivals ≡ front ++ back
      → AreClean arrivals
      → (capture_loop d remote_addr buf arrivals).outcome ≡ ok fp
  unfolding capture_loop
  capture_loop_complete buf [] e clean =
      settle_rule (λ c. c.outcome ≡ ok fp) (try_parse_handshake d buf remote_addr) buf [] _
        (try_parse_handshake_no_panic d buf remote_addr)
        (λ fp' h. ap ok (same_fingerprint buf [] fp' e h)) (λ ny _. absurd (ended ny))
        (λ ny _. absurd (ended ny))
    where
      ended : ((fp' : Fingerprint) → try_parse_handshake d buf remote_addr ≢ ok fp') → ⊥
      ended ny = omega (
        arith,
        still_short buf [] e ny,
        length-append buf [],
        length-append front back,
        ap length e,
      )
  capture_loop_complete buf (a ∷ arrivals) e (clean, cleans) =
      settle_rule (λ c. c.outcome ≡ ok fp) (try_parse_handshake d buf remote_addr) buf
        (a ∷ arrivals) _ (try_parse_handshake_no_panic d buf remote_addr)
        (λ fp' h. ap ok (same_fingerprint buf (bytes_of (a ∷ arrivals)) fp' e h))
        (λ ny over. absurd (omega (arith, still_short buf (bytes_of (a ∷ arrivals)) e ny)))
        (λ ny _. rw clean (
          capture_loop_complete (buf ++ a.chunk) arrivals
            (append_assoc buf a.chunk (bytes_of arrivals) ∙ e) cleans))

-- If no read fails and some front of the stream, within the budget of 8192 bytes, is a complete
-- handshake, then it is found, in whatever pieces the bytes arrive and whatever follows.
pub capture_handshake_complete :
    (d : Digests) (remote_addr front back : Bytes) (conn : Conn) (timeout : ℕ) {fp : Fingerprint}
    → (ltb 0 timeout && conn.refuses_deadline) ≡ false
    → AreClean conn.arrivals
    → bytes_of conn.arrivals ≡ front ++ back
    → length front ≤ max_capture_size
    → try_parse_handshake d front remote_addr ≡ ok fp
    → (capture_handshake d remote_addr conn timeout).0.outcome ≡ ok fp
unfolding capture_handshake
capture_handshake_complete d remote_addr front back conn timeout {fp} accepted clean e fits parsed =
    rw accepted
      (capture_loop_complete d remote_addr front back fp parsed fits [] conn.arrivals e clean)

-- A connection, in whatever pieces it brings its bytes, that begins with an identification line and
-- a KEXINIT packet, written by RFC 4253 within the limits of the parser and the capture budget, and
-- on which no read fails, gets the fingerprint of the lists that the packet offers.
pub capture_handshake-put_handshake :
    (d : Digests) (line : Bytes) (p : Packet) (padding remote_addr back : Bytes) (conn : Conn)
    (timeout : ℕ)
    → IsIdentification line
    → IsWithinLimits p
    → 4 ≤ length padding
    → length padding ≤ 255
    → length (put_handshake line p padding) ≤ max_capture_size
    → (ltb 0 timeout && conn.refuses_deadline) ≡ false
    → AreClean conn.arrivals
    → bytes_of conn.arrivals ≡ put_handshake line p padding ++ back
    → (capture_handshake d remote_addr conn timeout).0.outcome
      ≡ ok (record {
        hash = calculate d p.kex p.ciphers p.macs p.compression;
        client_banner = line;
        remote_addr = remote_addr;
      })
capture_handshake-put_handshake d line p padding remote_addr back conn timeout h w pad short fits
      accepted clean e =
    capture_handshake_complete d remote_addr (put_handshake line p padding) back conn timeout
      accepted clean e fits
      (try_parse_handshake-put_handshake d line p padding remote_addr h w pad short)

-- ===== src/Proxy/Reader/Captured.antt =====
-- What `capture_handshake` drains from a connection, and when it finds a fingerprint.
use hassh.Common.{
  ℕ, ◌+◌, ◌≤◌, ◌<◌, ◌≡◌, ◌≢◌, refl, ◌∙◌, ◌&&◌, inl, inr, Option, none, some, List, [], ◌∷◌, ◌++◌,
  append_assoc, arith, ltb, leb, Bool-cases, length, length-append, All, Result, ok, err, panics,
}
use hassh.Text.{Bytes}
use hassh.Hassh.Fingerprint.{Fingerprint, Digests}
use hassh.Proxy.Handshake.{NotYet, max_capture_size, try_parse_handshake}
use hassh.Proxy.Handshake.Totality.{try_parse_handshake_no_panic}
use hassh.Proxy.Reader.{
  ReadError, Arrival, Conn, CaptureError, handshake_incomplete, deadline_refused, read_failed,
  Capture, settle, failed, capture_loop, capture_handshake, eof,
}

-- All the bytes of some reads, in order.
abbrev pub bytes_of : List Arrival → Bytes
bytes_of [] = []
bytes_of (a ∷ arrivals) = a.chunk ++ bytes_of arrivals

-- No read fails.
abbrev pub AreClean : List Arrival → Type 0
AreClean = All (λ a. a.read_err ≡ none)

-- One `Read` fills at most the chunk that it is given.
abbrev pub chunk_size : ℕ
chunk_size = 4096

abbrev pub AreChunks : List Arrival → Type 0
AreChunks = All (λ a. length a.chunk ≤ chunk_size)

pub settle_rule :
    (P : Capture → Type 0) (t : Result NotYet Fingerprint) (buf : Bytes) (arrivals : List Arrival)
    (next : Capture)
    → t ≢ panics
    → ((fp : Fingerprint)
        → t ≡ ok fp
        → P (record { outcome = ok fp; buffered = buf; unread = arrivals }))
    → (((fp : Fingerprint) → t ≢ ok fp)
        → max_capture_size ≤ length buf
        → P (record { outcome = err handshake_incomplete; buffered = buf; unread = arrivals }))
    → (((fp : Fingerprint) → t ≢ ok fp) → length buf < max_capture_size → P next)
    → P (settle t buf arrivals next)
unfolding settle
settle_rule P (ok fp) buf arrivals next ne found full more = found fp refl
settle_rule P panics buf arrivals next ne found full more = absurd (ne refl)
settle_rule P (err _) buf arrivals next ne found full more =
    elim (Bool-cases (leb max_capture_size (length buf))) [
      | inl e ↦ rw e (full (λ fp h. cc) (ground arith))
      | inr e ↦ rw e (more (λ fp h. cc) (ground arith))
    ]

-- What holds of every capture from `buf` on: no byte is lost, and a fingerprint was parsed from
-- what is handed back.
pub record IsCapture (d : Digests) (remote_addr buf : Bytes) (arrivals : List Arrival) (c : Capture)
    : Type 0 where
  pub conserved : c.buffered ++ bytes_of c.unread ≡ buf ++ bytes_of arrivals
  pub calm : c.outcome ≢ panics
  pub clean : AreClean arrivals → AreClean c.unread
  pub parsed :
      (fp : Fingerprint) → c.outcome ≡ ok fp → try_parse_handshake d c.buffered remote_addr ≡ ok fp
  pub small :
      AreChunks arrivals
      → length buf < max_capture_size + chunk_size
      → length c.buffered < max_capture_size + chunk_size

module _ (d : Digests) (remote_addr buf : Bytes) (arrivals : List Arrival) where
  stop_found :
      (fp : Fingerprint)
      → try_parse_handshake d buf remote_addr ≡ ok fp
      → IsCapture d remote_addr buf arrivals
          (record { outcome = ok fp; buffered = buf; unread = arrivals })
  stop_found fp e = record {
    conserved = refl;
    calm = cc;
    clean = λ h. h;
    parsed = λ fp' e'. cc;
    small = λ _ h. h;
  }

  stop_failed :
      (e : CaptureError)
      → IsCapture d remote_addr buf arrivals
          (record { outcome = err e; buffered = buf; unread = arrivals })
  stop_failed e = record {
    conserved = refl;
    calm = cc;
    clean = λ h. h;
    parsed = λ fp e'. cc;
    small = λ _ h. h;
  }

-- One more read behind a buffer that is below the budget.
read_on :
    (d : Digests) (remote_addr buf : Bytes) (a : Arrival) (arrivals : List Arrival) (c : Capture)
    → length buf < max_capture_size
    → IsCapture d remote_addr (buf ++ a.chunk) arrivals c
    → IsCapture d remote_addr buf (a ∷ arrivals) c
read_on d remote_addr buf a arrivals c room h = record {
  conserved = h.conserved ∙ append_assoc buf a.chunk (bytes_of arrivals);
  calm = h.calm;
  clean = λ cs. h.clean cs.1;
  parsed = h.parsed;
  small = λ chunks _. h.small chunks.1 (omega (arith, length-append buf a.chunk, chunks.0));
}

pub capture_loop-IsCapture :
    (d : Digests) (remote_addr buf : Bytes) (arrivals : List Arrival)
    → IsCapture d remote_addr buf arrivals (capture_loop d remote_addr buf arrivals)
unfolding capture_loop
capture_loop-IsCapture d remote_addr buf [] =
    settle_rule (IsCapture d remote_addr buf []) (try_parse_handshake d buf remote_addr) buf []
      (failed eof buf []) (try_parse_handshake_no_panic d buf remote_addr)
      (stop_found d remote_addr buf [])
      (λ _ _. stop_failed d remote_addr buf [] handshake_incomplete)
      (λ _ _. stop_failed d remote_addr buf [] (read_failed eof))
capture_loop-IsCapture d remote_addr buf (a ∷ arrivals) =
    settle_rule (IsCapture d remote_addr buf (a ∷ arrivals)) (try_parse_handshake d buf remote_addr)
      buf (a ∷ arrivals) _ (try_parse_handshake_no_panic d buf remote_addr)
      (stop_found d remote_addr buf (a ∷ arrivals))
      (λ _ _. stop_failed d remote_addr buf (a ∷ arrivals) handshake_incomplete)
      (λ _ room.
        next a.read_err (capture_loop-IsCapture d remote_addr (buf ++ a.chunk) arrivals) room)
  where
    next :
        (e : Option ReadError)
        → IsCapture d remote_addr
            (buf ++ a.chunk)
            arrivals
            (capture_loop d remote_addr (buf ++ a.chunk) arrivals)
        → length buf < max_capture_size
        → IsCapture d remote_addr buf (a ∷ arrivals) (elim e [
          | none ↦ capture_loop d remote_addr (buf ++ a.chunk) arrivals
          | some e ↦ failed e (buf ++ a.chunk) arrivals
        ])
    next none ih room = read_on d remote_addr buf a arrivals _ room ih
    next (some e) ih room =
        read_on d remote_addr buf a arrivals _ room
          (stop_failed d remote_addr (buf ++ a.chunk) arrivals (read_failed e))

abbrev Captured : Digests → Bytes → Conn → Capture × Conn → Type 0
Captured d remote_addr conn r =
    IsCapture d remote_addr [] conn.arrivals
      (record { outcome = r.0.outcome; buffered = r.0.buffered; unread = r.1.arrivals })

capture_handshake-IsCapture :
    (d : Digests) (remote_addr : Bytes) (conn : Conn) (timeout : ℕ)
    → Captured d remote_addr conn (capture_handshake d remote_addr conn timeout)
unfolding capture_handshake
capture_handshake-IsCapture d remote_addr conn timeout =
    elim (Bool-cases (ltb 0 timeout && conn.refuses_deadline)) [
      | inl refused ↦ rw refused (stop_failed d remote_addr [] conn.arrivals deadline_refused)
      | inr accepted ↦ rw accepted (capture_loop-IsCapture d remote_addr [] conn.arrivals)
    ]

-- Whatever a connection brings, `capture_handshake` does not panic; and the bytes that it hands
-- back, then those still to be read, are the bytes of the connection, in order and none lost.
pub capture_handshake-conserves :
    (d : Digests) (remote_addr : Bytes) (conn : Conn) (timeout : ℕ)
    → let r = capture_handshake d remote_addr conn timeout in
      (r.0.outcome ≢ panics) × (r.0.buffered ++ bytes_of r.1.arrivals ≡ bytes_of conn.arrivals)
capture_handshake-conserves d remote_addr conn timeout =
    let c = capture_handshake-IsCapture d remote_addr conn timeout in (c.calm, c.conserved)

-- If `capture_handshake` finds a fingerprint, it is the one that the bytes which it hands back
-- give.
pub capture_handshake_found :
    (d : Digests) (remote_addr : Bytes) (conn : Conn) (timeout : ℕ) {fp : Fingerprint}
    → (capture_handshake d remote_addr conn timeout).0.outcome ≡ ok fp
    → try_parse_handshake d (capture_handshake d remote_addr conn timeout).0.buffered remote_addr
      ≡ ok fp
capture_handshake_found d remote_addr conn timeout {fp} h =
    (capture_handshake-IsCapture d remote_addr conn timeout).parsed fp h

-- If no read brings more than 4096 bytes, fewer than 12288 bytes are buffered.
pub capture_handshake_bounded :
    (d : Digests) (remote_addr : Bytes) (conn : Conn) (timeout : ℕ)
    → AreChunks conn.arrivals
    → length (capture_handshake d remote_addr conn timeout).0.buffered
      < max_capture_size + chunk_size
capture_handshake_bounded d remote_addr conn timeout h =
    (capture_handshake-IsCapture d remote_addr conn timeout).small h (omega arith)

pub capture_handshake-AreClean :
    (d : Digests) (remote_addr : Bytes) (conn : Conn) (timeout : ℕ)
    → AreClean conn.arrivals
    → AreClean (capture_handshake d remote_addr conn timeout).1.arrivals
unfolding capture_handshake
capture_handshake-AreClean d remote_addr conn timeout h =
    elim (Bool-cases (ltb 0 timeout && conn.refuses_deadline)) [
      | inl refused ↦ rw refused h
      | inr accepted ↦ rw accepted ((capture_loop-IsCapture d remote_addr [] conn.arrivals).clean h)
    ]

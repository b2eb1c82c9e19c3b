-- ===== src/Proxy/Reader/Lines.antt =====
-- What `read_identification_line` cuts out of a stream.
use hassh.Common.{
  ℕ, ◌+◌, ◌-◌, ◌≡◌, ◌≢◌, refl, subst, ◌&&◌, inl, inr, Option, none, some, List, [], ◌∷◌, ◌++◌,
  append_assoc, arith, ltb, leb, Bool-cases, length, length-take_of_le, take, drop,
  take-append-drop, ok, err, panics, ok_injective, slice-eq-ok, slice-length,
}
use hassh.Text.{Bytes, index_of, index_of-fits, index_of-append}
use hassh.Proxy.Handshake.{crlf}
use hassh.Proxy.Reader.{
  ReadError, Arrival, Conn, CaptureError, line_too_long, read_failed, eof, LineRead, cut_line,
  settle_line, line_loop, read_identification_line, max_banner_probe_size, deadline_refused,
}
use hassh.Proxy.Reader.Captured.{bytes_of, AreClean}

-- A line with its CRLF, the first of the stream, and the bytes behind it that were read.
abbrev pub IsLine : Bytes → List Arrival → Bytes × Bytes → Type 0
IsLine stream unread r =
    (r.0 ++ (r.1 ++ bytes_of unread) ≡ stream)
    × ((i : ℕ) × (index_of stream crlf ≡ some i) × (length r.0 ≡ i + 2))

record IsLineRead (stream : Bytes) (l : LineRead) : Type 0 where
  calm : l.result ≢ panics
  cut : (r : Bytes × Bytes) → l.result ≡ ok r → IsLine stream l.unread r

cut_line-eq-ok :
    (buf : Bytes) (idx : ℕ)
    → index_of buf crlf ≡ some idx
    → cut_line buf idx ≡ ok (take (idx + 2) buf, drop (idx + 2) buf)
unfolding cut_line
cut_line-eq-ok buf idx h =
    let fits = index_of-fits buf crlf h in
    let n : idx + 2 - 0 ≡ idx + 2 = omega arith in
    rw (slice-eq-ok buf 0 (idx + 2) (omega arith) fits, slice-length buf (idx + 2) fits, n)

line_cut :
    (buf : Bytes) (idx : ℕ) (arrivals : List Arrival)
    → index_of buf crlf ≡ some idx
    → IsLineRead
        (buf ++ bytes_of arrivals)
        (record { result = cut_line buf idx; unread = arrivals })
line_cut buf idx arrivals h = rw (cut_line-eq-ok buf idx h) (record {
  calm = cc;
  cut = λ r e. subst (IsLine (buf ++ bytes_of arrivals) arrivals) (ok_injective e) (
    rw (← append_assoc, take-append-drop),
    (
      idx,
      index_of-append buf (bytes_of arrivals) crlf h,
      length-take_of_le (idx + 2) buf (index_of-fits buf crlf h),
    ),
  );
})

line_failed :
    (stream : Bytes) (e : CaptureError) (arrivals : List Arrival)
    → IsLineRead stream (record { result = err e; unread = arrivals })
line_failed stream e arrivals = record { calm = cc; cut = λ r h. cc }

settle_line_rule :
    (o : Option ℕ) (buf : Bytes) (arrivals : List Arrival) (next : LineRead)
    → index_of buf crlf ≡ o
    → IsLineRead (buf ++ bytes_of arrivals) next
    → IsLineRead (buf ++ bytes_of arrivals) (settle_line o buf arrivals next)
unfolding settle_line
settle_line_rule (some idx) buf arrivals next e h = line_cut buf idx arrivals e
settle_line_rule none buf arrivals next e h =
    elim (Bool-cases (leb max_banner_probe_size (length buf))) [
      | inl full ↦ rw full (line_failed (buf ++ bytes_of arrivals) line_too_long arrivals)
      | inr more ↦ rw more h
    ]

line_loop-IsLineRead :
    (buf : Bytes) (arrivals : List Arrival)
    → IsLineRead (buf ++ bytes_of arrivals) (line_loop buf arrivals)
unfolding line_loop
line_loop-IsLineRead buf [] =
    settle_line_rule (index_of buf crlf) buf [] _ refl
      (line_failed (buf ++ []) (read_failed eof) [])
line_loop-IsLineRead buf (a ∷ arrivals) =
    settle_line_rule (index_of buf crlf) buf (a ∷ arrivals) _ refl
      (next a.read_err (line_loop-IsLineRead (buf ++ a.chunk) arrivals))
  where
    next :
        (e : Option ReadError)
        → IsLineRead ((buf ++ a.chunk) ++ bytes_of arrivals) (line_loop (buf ++ a.chunk) arrivals)
        → IsLineRead (buf ++ bytes_of (a ∷ arrivals)) (elim e [
          | none ↦ line_loop (buf ++ a.chunk) arrivals
          | some e ↦ record { result = err (read_failed e); unread = arrivals }
        ])
    next none ih =
        subst (λ s. IsLineRead s (line_loop (buf ++ a.chunk) arrivals))
          (append_assoc buf a.chunk (bytes_of arrivals)) ih
    next (some e) ih = line_failed (buf ++ bytes_of (a ∷ arrivals)) (read_failed e) arrivals

read_identification_line-IsLineRead :
    (conn : Conn) (timeout : ℕ)
    → let r = read_identification_line conn timeout in
      IsLineRead (bytes_of conn.arrivals) (record { result = r.0.result; unread = r.1.arrivals })
unfolding read_identification_line
read_identification_line-IsLineRead conn timeout =
    elim (Bool-cases (ltb 0 timeout && conn.refuses_deadline)) [
      | inl refused ↦
          rw refused (line_failed (bytes_of conn.arrivals) deadline_refused conn.arrivals)
      | inr accepted ↦ rw accepted (line_loop-IsLineRead [] conn.arrivals)
    ]

-- Whatever a connection brings, `read_identification_line` does not panic.
pub read_identification_line_no_panic :
    (conn : Conn) (timeout : ℕ) → (read_identification_line conn timeout).0.result ≢ panics
read_identification_line_no_panic conn timeout =
    (read_identification_line-IsLineRead conn timeout).calm

-- A line that `read_identification_line` returns ends with the first CRLF of the stream; with the
-- extra bytes and those still to be read behind it, it is the whole stream.
pub read_identification_line_cut :
    (conn : Conn) (timeout : ℕ) {cut : Bytes × Bytes}
    → (read_identification_line conn timeout).0.result ≡ ok cut
    → IsLine (bytes_of conn.arrivals) (read_identification_line conn timeout).1.arrivals cut
read_identification_line_cut conn timeout {cut} h =
    (read_identification_line-IsLineRead conn timeout).cut cut h

settle_line-AreClean :
    (o : Option ℕ) (buf : Bytes) (arrivals : List Arrival) (next : LineRead)
    → AreClean arrivals
    → AreClean next.unread
    → AreClean (settle_line o buf arrivals next).unread
unfolding settle_line
settle_line-AreClean (some idx) buf arrivals next h k = h
settle_line-AreClean none buf arrivals next h k =
    elim (Bool-cases (leb max_banner_probe_size (length buf))) [
      | inl full ↦ rw full h
      | inr more ↦ rw more k
    ]

line_loop-AreClean :
    (buf : Bytes) (arrivals : List Arrival)
    → AreClean arrivals
    → AreClean (line_loop buf arrivals).unread
unfolding line_loop
line_loop-AreClean buf [] h = settle_line-AreClean (index_of buf crlf) buf [] _ tt tt
line_loop-AreClean buf (a ∷ arrivals) (clean, h) =
    settle_line-AreClean (index_of buf crlf) buf (a ∷ arrivals) _ (clean, h)
      (rw clean (line_loop-AreClean (buf ++ a.chunk) arrivals h))

pub read_identification_line-AreClean :
    (conn : Conn) (timeout : ℕ)
    → AreClean conn.arrivals
    → AreClean (read_identification_line conn timeout).1.arrivals
unfolding read_identification_line
read_identification_line-AreClean conn timeout h =
    elim (Bool-cases (ltb 0 timeout && conn.refuses_deadline)) [
      | inl refused ↦ rw refused h
      | inr accepted ↦ rw accepted (line_loop-AreClean [] conn.arrivals h)
    ]

-- ===== src/Proxy/Reader.antt =====
-- pkg/proxy/sshconn.go: `CaptureHandshake` and `readIdentificationLine`, the two loops that read
-- from a connection. A connection is what its reads will bring; past them it is closed.
pub mod Captured
pub mod Verdict
pub mod Lines
use hassh.Common.{
  ℕ, ◌+◌, Bool, true, false, Option, none, some, List, [], ◌∷◌, ◌++◌, ltb, leb, if◌then◌else◌,
  length, Result, ok, err, panics, ◌>>=◌, slice, ◌&&◌,
}
use hassh.Text.{Bytes, index_of}
use hassh.Hassh.Fingerprint.{Fingerprint, Digests}
use hassh.Proxy.Handshake.{NotYet, max_capture_size, crlf, try_parse_handshake}

abbrev pub max_banner_probe_size : ℕ
max_banner_probe_size = 4096

pub data ReadError : Type 0 where
  eof : ReadError
  timed_out : ReadError
  broken : ReadError

-- What one `Read` brings: bytes, and perhaps an error beside them.
pub record Arrival : Type 0 where
  pub chunk : Bytes
  pub read_err : Option ReadError

pub record Conn : Type 0 where
  pub arrivals : List Arrival
  -- Is a read deadline set?
  pub deadline : Bool
  -- Does `SetReadDeadline` fail?
  pub refuses_deadline : Bool

pub data CaptureError : Type 0 where
  deadline_refused : CaptureError
  handshake_incomplete : CaptureError
  line_too_long : CaptureError
  read_failed : ReadError → CaptureError

-- The result, the bytes drained from the socket, and what has not been read.
pub record Capture : Type 0 where
  pub outcome : Result CaptureError Fingerprint
  pub buffered : Bytes
  pub unread : List Arrival

-- The head of the loop: a parsed handshake ends it, and so does a full budget. Otherwise `next`.
unfoldable pub settle : Result NotYet Fingerprint → Bytes → List Arrival → Capture → Capture
settle (ok fp) buf arrivals next = record { outcome = ok fp; buffered = buf; unread = arrivals }
settle panics buf arrivals next = record { outcome = panics; buffered = buf; unread = arrivals }
settle (err _) buf arrivals next =
    if leb max_capture_size (length buf)
    then record { outcome = err handshake_incomplete; buffered = buf; unread = arrivals }
    else next

abbrev pub failed : ReadError → Bytes → List Arrival → Capture
failed e buf arrivals = record { outcome = err (read_failed e); buffered = buf; unread = arrivals }

-- The loop of `CaptureHandshake`, by the reads that are to come. What a read brings is buffered
-- before its error is looked at.
unfoldable pub capture_loop : Digests → Bytes → Bytes → List Arrival → Capture
unfolding settle
capture_loop d remote_addr buf [] =
    settle (try_parse_handshake d buf remote_addr) buf [] (failed eof buf [])
capture_loop d remote_addr buf (a ∷ arrivals) =
    let buf' = buf ++ a.chunk in
    let next : Capture = elim a.read_err [
      | none ↦ capture_loop d remote_addr buf' arrivals
      | some e ↦ failed e buf' arrivals
    ] in
    settle (try_parse_handshake d buf remote_addr) buf (a ∷ arrivals) next

-- The deadline is set if there is a timeout, and cleared on the way out.
unfoldable pub capture_handshake : Digests → Bytes → Conn → ℕ → Capture × Conn
capture_handshake d remote_addr conn timeout =
    let timed = ltb 0 timeout in
    if timed && conn.refuses_deadline
    then (record { outcome = err deadline_refused; buffered = []; unread = conn.arrivals }, conn)
    else (let c = capture_loop d remote_addr [] conn.arrivals in
        (c, record conn { arrivals = c.unread; deadline = if timed then false else conn.deadline }))

-- The line with its CRLF, the bytes behind it, and what has not been read.
pub record LineRead : Type 0 where
  pub result : Result CaptureError (Bytes × Bytes)
  pub unread : List Arrival

-- `return string(buf[:idx+2]), append([]byte(nil), buf[idx+2:]...), nil`
unfoldable pub cut_line : Bytes → ℕ → Result CaptureError (Bytes × Bytes)
cut_line buf idx = do
  line ← slice buf 0 (idx + 2)
  extra ← slice buf (idx + 2) (length buf)
  ok (line, extra)

-- The head of the loop of `readIdentificationLine`.
unfoldable pub settle_line : Option ℕ → Bytes → List Arrival → LineRead → LineRead
unfolding cut_line
settle_line (some idx) buf arrivals next = record { result = cut_line buf idx; unread = arrivals }
settle_line none buf arrivals next =
    if leb max_banner_probe_size (length buf)
    then record { result = err line_too_long; unread = arrivals }
    else next

unfoldable pub line_loop : Bytes → List Arrival → LineRead
unfolding settle_line
line_loop buf [] =
    settle_line (index_of buf crlf) buf [] (record { result = err (read_failed eof); unread = [] })
line_loop buf (a ∷ arrivals) =
    let next : LineRead = elim a.read_err [
      | none ↦ line_loop (buf ++ a.chunk) arrivals
      | some e ↦ record { result = err (read_failed e); unread = arrivals }
    ] in
    settle_line (index_of buf crlf) buf (a ∷ arrivals) next

unfoldable pub read_identification_line : Conn → ℕ → LineRead × Conn
read_identification_line conn timeout =
    let timed = ltb 0 timeout in
    if timed && conn.refuses_deadline
    then (record { result = err deadline_refused; unread = conn.arrivals }, conn)
    else (let r = line_loop [] conn.arrivals in
        (r, record conn { arrivals = r.unread; deadline = if timed then false else conn.deadline }))

-- ===== src/Proxy/Server.antt =====
-- pkg/proxy/server.go: `Server.handleConnection`, as the list of what it does to the outside. What
-- the outside answers is an argument. The messages of package log are left out.
pub mod Gate
pub mod Transparency
pub mod Banners
pub mod Upstream
use hassh.Common.{
  ℕ, Bool, true, false, not, Option, none, some, List, [], ◌∷◌, ◌++◌, ltb, if◌then◌else◌, length,
  Result, ok, err, panics,
}
use hassh.Text.{Bytes, same, is_empty}
use hassh.Hassh.Fingerprint.{Fingerprint, Digests}
use hassh.Filter.{BlocklistFilter, contains}
use hassh.Proxy.Reader.{
  Arrival, Conn, Capture, LineRead, capture_handshake, read_identification_line,
}

-- `handshakeTimeout`, in seconds.
abbrev pub handshake_timeout : ℕ
handshake_timeout = 5

-- What a connection meets. A SIGHUP may refresh the cached banner while the connection is handled,
-- so each call of `currentBanner` has a field of its own.
pub record World : Type 0 where
  pub digests : Digests
  pub blocklist : BlocklistFilter
  pub has_syslog : Bool
  pub client_ip : Bytes
  pub remote_addr : Bytes
  pub client : Conn
  -- the cached banner at the greeting, and at the comparison with the live one
  pub greeting : Bytes
  pub cached_banner : Bytes
  -- does the write of the greeting, of the buffered bytes, of the extra bytes succeed?
  pub greets : Bool
  pub replays : Bool
  pub relays : Bool
  -- `none` is a failed dial
  pub upstream : Option Conn

pub data Action : Type 0 where
  write_client : Bytes → Action
  write_upstream : Bytes → Action
  record_connection : Bytes → Bytes → Bytes → Bool → Action
  log_handshake : Bytes → Bytes → Action
  log_connection : Bool → Action
  log_error : Action
  log_disconnect : Action
  dial : Action
  -- the two copies, which run side by side: what goes upstream, and what goes to the client
  copy_both : Bytes → Bytes → Action
  close_upstream : Action
  close_client : Action
  crash : Action

-- `if s.syslog != nil { … }`
abbrev pub syslog : World → List Action → List Action
syslog w actions = if w.has_syslog then actions else []

-- What `io.Copy` moves: everything up to the first read that fails, what came with it included.
unfoldable pub copied : List Arrival → Bytes
copied [] = []
copied (a ∷ arrivals) =
    let rest = copied arrivals in elim a.read_err [ none ↦ a.chunk ++ rest | some e ↦ a.chunk ]

-- The deferred calls, once the two connections are joined.
abbrev pub leave : World → List Action
leave w = syslog w (log_disconnect ∷ []) ++ (close_upstream ∷ close_client ∷ [])

abbrev pub copy_streams : World → Conn → Conn → List Action
copy_streams w client upstream =
    copy_both (copied client.arrivals) (copied upstream.arrivals) ∷ leave w

-- `if len(extra) > 0 { … }` and what follows.
unfoldable pub relay_extra : World → Conn → Conn → Bytes → List Action
relay_extra w client upstream extra =
    if is_empty extra
    then copy_streams w client upstream
    else (write_client extra ∷ (if w.relays then copy_streams w client upstream else leave w))

-- `if len(buffered) > 0 { … }` and what follows.
unfoldable pub replay_buffered : World → Bytes → Conn → Conn → Bytes → List Action
unfolding relay_extra
replay_buffered w buffered client upstream extra =
    if is_empty buffered
    then relay_extra w client upstream extra
    else (write_upstream buffered
        ∷ (if w.replays then relay_extra w client upstream extra else leave w))

-- From the live banner on.
unfoldable pub join_upstream : World → Bytes → Conn → LineRead → Conn → List Action
unfolding replay_buffered
join_upstream w buffered client r upstream = elim r.result [
  | ok (live_banner, extra) ↦
      if same live_banner w.cached_banner
      then replay_buffered w buffered client upstream extra
      else (syslog w (log_error ∷ []) ++ (close_upstream ∷ close_client ∷ []))
  | err _ ↦ close_upstream ∷ close_client ∷ []
  | panics ↦ crash ∷ close_upstream ∷ close_client ∷ []
]

-- From the dial on, which only connections that are not blocked reach.
unfoldable pub proxy_upstream : World → Bytes → Conn → List Action
unfolding join_upstream
proxy_upstream w buffered client = dial ∷ elim w.upstream [
  | none ↦ syslog w (log_error ∷ []) ++ (close_client ∷ [])
  | some upstream ↦
      let (r, upstream') = read_identification_line upstream handshake_timeout in
      join_upstream w buffered client r upstream'
]

-- A classified connection is recorded, whether it is blocked or not.
unfoldable pub classify : World → Fingerprint → Bytes → Conn → List Action
unfolding proxy_upstream
classify w fp buffered client =
    let blocked = contains w.blocklist fp.hash in
    record_connection w.client_ip fp.hash fp.client_banner blocked
    ∷ (syslog w (log_handshake fp.hash fp.client_banner ∷ log_connection blocked ∷ [])
        ++ (if blocked then close_client ∷ [] else proxy_upstream w buffered client))

-- From the result of `CaptureHandshake` on: without a fingerprint the connection is proxied.
unfoldable pub decide_connection : World → Capture → Conn → List Action
unfolding classify
decide_connection w c client = elim c.outcome [
  | ok fp ↦ classify w fp c.buffered client
  | err _ ↦ proxy_upstream w c.buffered client
  | panics ↦ crash ∷ close_client ∷ []
]

unfoldable pub handle_connection : World → List Action
unfolding decide_connection
handle_connection w =
    write_client w.greeting
    ∷ (if w.greets
        then (let (c, client) =
              capture_handshake w.digests w.remote_addr w.client handshake_timeout in
            decide_connection w c client)
        else close_client ∷ [])

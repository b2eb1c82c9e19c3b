-- ===== src/Proxy/Lifecycle.antt =====
-- pkg/proxy/server.go: `Server` from `NewServer` on: the accept loop of `Start`, the goroutine of
-- each connection, and `handleReloads`, as steps that interleave. What the database and a probe of
-- the upstream server answer is an argument; `none` is an error.
pub mod Reloads
pub mod Latest
pub mod Limits
pub mod Shutdown
pub mod Ending
pub mod Accept
use hassh.Common.{
  ℕ, ◌+◌, ◌-◌, ◌<◌, ◌≤◌, ◌≡◌, Bool, true, false, Option, none, some, List, [], ◌∷◌, Result, ok, err,
  panics, ◌>>=◌, map_err, if◌then◌else◌,
}
use hassh.Text.{Bytes}
use hassh.Filter.{BlocklistFilter, new_blocklist_filter, reload}
use hassh.Proxy.Reader.{Conn, CaptureError, read_identification_line}

abbrev pub max_concurrent_connections : ℕ
max_concurrent_connections = 2048

-- In seconds.
abbrev pub upstream_banner_fetch_timeout : ℕ
upstream_banner_fetch_timeout = 10

-- Where the goroutine of `Start` is: at the head of its loop, between the semaphore and the start
-- of the handler, in the wait for the handlers, or behind its return.
pub data Phase : Type 0 where
  accepting : Phase
  admitting : Phase
  draining : Phase
  returned : Phase

-- The fields of `Server` that change, and how many handlers run or have only freed their place in
-- the semaphore.
pub record Server : Type 0 where
  -- `none` is nil
  pub blocklist : Option BlocklistFilter
  pub upstream_banner : Bytes
  pub has_syslog : Bool
  pub conn_semaphore : ℕ
  pub active_conns : ℕ
  pub phase : Phase
  pub running : ℕ
  pub releasing : ℕ
  -- has a SIGHUP reloaded the blocklist, but not yet asked for the banner?
  pub reloading : Bool

pub data FetchError : Type 0 where
  connect_failed : FetchError
  line_failed : CaptureError → FetchError

pub data StartError : Type 0 where
  no_banner : FetchError → StartError
  no_blocklist : StartError

unfoldable pub fetch_upstream_banner : Option Conn → ℕ → Result FetchError Bytes
fetch_upstream_banner none timeout = err connect_failed
fetch_upstream_banner (some conn) timeout = do
  (line, _) ← map_err line_failed (read_identification_line conn timeout).0.result
  ok line

-- `if s.blocklist == nil { s.blocklist = filter.NewBlocklistFilter() }`
abbrev pub present : Option BlocklistFilter → BlocklistFilter
present none = new_blocklist_filter
present (some b) = b

-- The server, and whether there was no error.
unfoldable pub reload_blocklist : Server → Option (List Bytes) → Server × Bool
reload_blocklist s none = (s, false)
reload_blocklist s (some blocked_hashes) =
    (record s { blocklist = some (reload (present s.blocklist) blocked_hashes) }, true)

abbrev pub keep_banner : Server → Result FetchError Bytes → Server × Result FetchError (Unit {0})
keep_banner s (ok banner) = (record s { upstream_banner = banner }, ok tt)
keep_banner s (err e) = (s, err e)
keep_banner s panics = (s, panics)

unfoldable pub refresh_upstream_banner :
    Server → Option Conn → Server × Result FetchError (Unit {0})
unfolding fetch_upstream_banner
refresh_upstream_banner s probe =
    keep_banner s (fetch_upstream_banner probe upstream_banner_fetch_timeout)

-- The server before its blocklist is loaded.
abbrev pub fresh : Bytes → Bool → Server
fresh banner connected = record {
  blocklist = none;
  upstream_banner = banner;
  has_syslog = connected;
  conn_semaphore = 0;
  active_conns = 0;
  phase = accepting;
  running = 0;
  releasing = 0;
  reloading = false;
}

-- From the banner on. `connected` tells whether syslog is available; without it the server starts
-- all the same.
unfoldable pub start_with : Bytes → Bool → Option (List Bytes) → Result StartError Server
unfolding reload_blocklist
start_with banner connected hashes =
    let r = reload_blocklist (fresh banner connected) hashes in
    if r.1 then ok r.0 else err no_blocklist

unfoldable pub new_server : Option Conn → Bool → Option (List Bytes) → Result StartError Server
unfolding fetch_upstream_banner start_with
new_server probe connected hashes = do
  banner ← map_err no_banner (fetch_upstream_banner probe upstream_banner_fetch_timeout)
  start_with banner connected hashes

-- A SIGHUP reloads the blocklist first.
abbrev pub begin_reload : Server → Option (List Bytes) → Server
begin_reload s hashes = record (reload_blocklist s hashes).0 { reloading = true }

-- Then the banner, whether or not the blocklist was reloaded.
abbrev pub end_reload : Server → Option Conn → Server
end_reload s probe = record (refresh_upstream_banner s probe).0 { reloading = false }

-- `s.connSemaphore <- struct{}{}`
abbrev pub acquire : Server → Server
acquire s = record s { conn_semaphore = s.conn_semaphore + 1; phase = admitting }

-- `s.activeConns.Add(1)` and the `go` statement.
abbrev pub spawn : Server → Server
spawn s = record s { active_conns = s.active_conns + 1; running = s.running + 1; phase = accepting }

-- `<-s.connSemaphore`, when `handleConnection` has returned.
abbrev pub release : Server → Server
release s = record s {
  conn_semaphore = s.conn_semaphore - 1;
  running = s.running - 1;
  releasing = s.releasing + 1;
}

-- `s.activeConns.Done()`
abbrev pub finish : Server → Server
finish s = record s { active_conns = s.active_conns - 1; releasing = s.releasing - 1 }

-- What a step gets from the outside.
pub data Label : Type 0 where
  quiet : Label
  loaded : Option (List Bytes) → Label
  probed : Option Conn → Label

-- The steps of the three kinds of goroutines. An accept that fails or times out changes nothing,
-- and neither does one beyond the limit, whose connection is closed. A reload may still run once
-- the context is done.
pub data Step : Server → Label → Server → Type 0 where
  admit :
      {s : Server}
      → s.phase ≡ accepting
      → s.conn_semaphore < max_concurrent_connections
      → Step s quiet (acquire s)
  reject :
      {s : Server}
      → s.phase ≡ accepting
      → max_concurrent_connections ≤ s.conn_semaphore
      → Step s quiet s
  nothing_accepted : {s : Server} → s.phase ≡ accepting → Step s quiet s
  start_handler : {s : Server} → s.phase ≡ admitting → Step s quiet (spawn s)
  handler_returns : {s : Server} → 0 < s.running → Step s quiet (release s)
  handler_done : {s : Server} → 0 < s.releasing → Step s quiet (finish s)
  cancelled : {s : Server} → s.phase ≡ accepting → Step s quiet (record s { phase = draining })
  start_returns :
      {s : Server}
      → s.phase ≡ draining
      → s.active_conns ≡ 0
      → Step s quiet (record s { phase = returned })
  signalled :
      {s : Server} {hashes : Option (List Bytes)}
      → s.reloading ≡ false
      → Step s (loaded hashes) (begin_reload s hashes)
  refreshed :
      {s : Server} {probe : Option Conn}
      → s.reloading ≡ true
      → Step s (probed probe) (end_reload s probe)

-- The steps up to some moment, the latest label first.
pub data Run : Server → List Label → Server → Type 0 where
  start : {s : Server} → Run s [] s
  next :
      {s t u : Server} {labels : List Label} {l : Label}
      → Run s labels t
      → Step t l u
      → Run s (l ∷ labels) u

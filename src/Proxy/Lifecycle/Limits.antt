-- ===== src/Proxy/Lifecycle/Limits.antt =====
-- How many connections are handled at once, and when `Start` returns.
use hassh.Common.{
  ℕ, ◌+◌, ◌-◌, ◌≤◌, ◌≡◌, refl, Bool, Option, none, some, List, arith, Result, ok, err, panics,
}
use hassh.Text.{Bytes}
use hassh.Proxy.Lifecycle.Reloads.{new_server_lem}
use hassh.Proxy.Reader.{Conn}
use hassh.Proxy.Lifecycle.{
  Phase, accepting, admitting, draining, returned, Server, FetchError, keep_banner, fresh,
  max_concurrent_connections, reload_blocklist, refresh_upstream_banner, fetch_upstream_banner,
  new_server, Label, Step, admit, reject, nothing_accepted, start_handler, handler_returns,
  handler_done, cancelled, start_returns, signalled, refreshed, Run, start, next,
  upstream_banner_fetch_timeout,
}

-- The place in the semaphore of a connection whose handler has not started.
abbrev pub pending : Phase → ℕ
pending accepting = 0
pending admitting = 1
pending draining = 0
pending returned = 0

-- The counters, of which `Start` may only leave zero behind.
abbrev pub IsSettled : Phase → ℕ → Type 0
IsSettled accepting n = Unit
IsSettled admitting n = Unit
IsSettled draining n = Unit
IsSettled returned n = n ≡ 0

pub record IsCounted (phase : Phase) (semaphore active running releasing : ℕ) : Type 0 where
  pub places : semaphore ≡ running + pending phase
  pub handlers : active ≡ running + releasing
  pub room : semaphore ≤ max_concurrent_connections
  pub settled : IsSettled phase active

abbrev pub Counted : Server → Type 0
Counted s = IsCounted s.phase s.conn_semaphore s.active_conns s.running s.releasing

IsSettled-less : (p : Phase) (n : ℕ) → IsSettled p n → IsSettled p (n - 1)
IsSettled-less accepting n h = tt
IsSettled-less admitting n h = tt
IsSettled-less draining n h = tt
IsSettled-less returned n h = omega arith

reload_blocklist-Counted :
    (s : Server) (hashes : Option (List Bytes)) → Counted s → Counted (reload_blocklist s hashes).0
unfolding reload_blocklist
reload_blocklist-Counted s none h = h
reload_blocklist-Counted s (some hashes) h = h

keep_banner-Counted :
    (s : Server) (r : Result FetchError Bytes) → Counted s → Counted (keep_banner s r).0
keep_banner-Counted s (ok banner) h = h
keep_banner-Counted s (err e) h = h
keep_banner-Counted s panics h = h

refresh_upstream_banner-Counted :
    (s : Server) (probe : Option Conn) → Counted s → Counted (refresh_upstream_banner s probe).0
unfolding refresh_upstream_banner
refresh_upstream_banner-Counted s probe h =
    keep_banner-Counted s (fetch_upstream_banner probe upstream_banner_fetch_timeout) h

pub Step-Counted : {s t : Server} {l : Label} → Step s l t → Counted s → Counted t
Step-Counted {s} (admit phase room) h =
    let idle = rw phase at h.places in
    record { places = omega arith; handlers = h.handlers; room = omega arith; settled = tt }
Step-Counted (reject phase full) h = h
Step-Counted (nothing_accepted phase) h = h
Step-Counted {s} (start_handler phase) h =
    let held = rw phase at h.places in
    record {
      places = omega arith;
      handlers = omega (arith, h.handlers);
      room = h.room;
      settled = tt;
    }
Step-Counted {s} (handler_returns running) h = record {
  places = omega (arith, h.places);
  handlers = omega (arith, h.handlers);
  room = omega (arith, h.room);
  settled = h.settled;
}
Step-Counted {s} (handler_done releasing) h = record {
  places = h.places;
  handlers = omega (arith, h.handlers);
  room = h.room;
  settled = IsSettled-less s.phase s.active_conns h.settled;
}
Step-Counted {s} (cancelled phase) h =
    let idle = rw phase at h.places in
    record { places = idle; handlers = h.handlers; room = h.room; settled = tt }
Step-Counted {s} (start_returns phase none_left) h =
    let idle = rw phase at h.places in
    record { places = idle; handlers = h.handlers; room = h.room; settled = none_left }
Step-Counted {s} (signalled {hashes = hashes} idle) h = reload_blocklist-Counted s hashes h
Step-Counted {s} (refreshed {probe = probe} busy) h = refresh_upstream_banner-Counted s probe h

pub Run-Counted : {s t : Server} {labels : List Label} → Run s labels t → Counted s → Counted t
Run-Counted start h = h
Run-Counted (next run step) h = Step-Counted step (Run-Counted run h)

fresh-Counted : (banner : Bytes) (connected : Bool) → Counted (fresh banner connected)
fresh-Counted banner connected = record {
  places = refl;
  handlers = refl;
  room = omega arith;
  settled = tt;
}

pub new_server-Counted :
    (probe : Option Conn) (connected : Bool) (hashes : Option (List Bytes)) {s : Server}
    → new_server probe connected hashes ≡ ok s
    → Counted s
new_server-Counted probe connected hashes h =
    let (banner, (hs, e)) = new_server_lem probe connected hashes h in
    rw e.2 (fresh-Counted banner connected)

-- From the start of a server on, at most 2048 handlers run at any moment, the semaphore holds no
-- more places than that, and every handler that runs or has not yet reported its end is counted in
-- the group that the shutdown waits for.
pub Run_limit :
    (probe : Option Conn) (connected : Bool) (hashes : Option (List Bytes)) {s t : Server}
    {labels : List Label}
    → new_server probe connected hashes ≡ ok s
    → Run s labels t
    → (t.running ≤ max_concurrent_connections)
      × (t.conn_semaphore ≤ max_concurrent_connections)
      × (t.active_conns ≡ t.running + t.releasing)
Run_limit probe connected hashes started run =
    let c = Run-Counted run (new_server-Counted probe connected hashes started) in
    (omega (arith, c.places, c.room), c.room, c.handlers)

-- Once `Start` has returned, no handler runs and every place of the semaphore is free.
pub Run_shutdown :
    (probe : Option Conn) (connected : Bool) (hashes : Option (List Bytes)) {s t : Server}
    {labels : List Label}
    → new_server probe connected hashes ≡ ok s
    → Run s labels t
    → t.phase ≡ returned
    → (t.running ≡ 0) × (t.releasing ≡ 0) × (t.conn_semaphore ≡ 0)
Run_shutdown probe connected hashes started run over =
    let c = Run-Counted run (new_server-Counted probe connected hashes started) in
    let places = rw over at c.places in
    let settled = rw over at c.settled in
    (omega (arith, c.handlers), omega (arith, c.handlers), omega (arith, c.handlers))

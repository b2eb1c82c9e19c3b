-- ===== src/Proxy/Lifecycle/Latest.antt =====
-- Which blocklist and which banner a running server has.
use hassh.Common.{
  ◌≡◌, refl, ap, Bool, true, false, Option, none, some, List, [], ◌∷◌, Result, ok, err, panics,
}
use hassh.Text.{Bytes}
use hassh.Filter.{BlocklistFilter, contains, new_blocklist_filter, reload}
use hassh.Filter.Laws.{listed, contains-reload}
use hassh.Proxy.Reader.{Conn}
use hassh.Proxy.Lifecycle.Reloads.{started, new_server_lem, last_loaded, last_banner, banner_or}
use hassh.Proxy.Server.{World, handle_connection}
use hassh.Proxy.Server.Gate.{Captures, sent_upstream, dials, handle_connection_blocked}
use hassh.Hassh.Fingerprint.{Fingerprint}
use hassh.Proxy.Lifecycle.{
  Server, FetchError, keep_banner, present, reload_blocklist, refresh_upstream_banner,
  fetch_upstream_banner, new_server, upstream_banner_fetch_timeout, Label, loaded, Step, admit,
  reject, nothing_accepted, start_handler, handler_returns, handler_done, cancelled, start_returns,
  signalled, refreshed, Run, start, next,
}

-- The server holds what was loaded last.
record IsUpToDate (hs : List Bytes) (banner : Bytes) (s : Server) : Type 0 where
  filter : BlocklistFilter
  held : s.blocklist ≡ some filter
  blocked : (k : Bytes) → contains filter k ≡ listed k hs
  greeting : s.upstream_banner ≡ banner

reload_blocklist-IsUpToDate :
    (s : Server) (hashes : Option (List Bytes)) (initial : List Bytes) (labels : List Label)
    (banner : Bytes)
    → IsUpToDate (last_loaded initial labels) banner s
    → IsUpToDate (last_loaded initial (loaded hashes ∷ labels)) banner (reload_blocklist s hashes).0
unfolding reload_blocklist
reload_blocklist-IsUpToDate s none initial labels banner h = h
reload_blocklist-IsUpToDate s (some hs) initial labels banner h = record {
  filter = reload (present s.blocklist) hs;
  held = refl;
  blocked = contains-reload (present s.blocklist) hs;
  greeting = h.greeting;
}

keep_banner-IsUpToDate :
    (s : Server) (r : Result FetchError Bytes) (hs : List Bytes) (banner : Bytes)
    → IsUpToDate hs banner s
    → IsUpToDate hs (banner_or banner r) (keep_banner s r).0
keep_banner-IsUpToDate s (ok new) hs banner h = record {
  filter = h.filter;
  held = h.held;
  blocked = h.blocked;
  greeting = refl;
}
keep_banner-IsUpToDate s (err e) hs banner h = h
keep_banner-IsUpToDate s panics hs banner h = h

module _ (hs : List Bytes) (b : Bytes) where
  Step-IsUpToDate :
      {s t : Server} {l : Label} (labels : List Label)
      → Step s l t
      → IsUpToDate (last_loaded hs labels) (last_banner b labels) s
      → IsUpToDate (last_loaded hs (l ∷ labels)) (last_banner b (l ∷ labels)) t
  Step-IsUpToDate labels (admit phase room) h = record {
    filter = h.filter;
    held = h.held;
    blocked = h.blocked;
    greeting = h.greeting;
  }
  Step-IsUpToDate labels (reject phase full) h = h
  Step-IsUpToDate labels (nothing_accepted phase) h = h
  Step-IsUpToDate labels (start_handler phase) h = record {
    filter = h.filter;
    held = h.held;
    blocked = h.blocked;
    greeting = h.greeting;
  }
  Step-IsUpToDate labels (handler_returns running) h = record {
    filter = h.filter;
    held = h.held;
    blocked = h.blocked;
    greeting = h.greeting;
  }
  Step-IsUpToDate labels (handler_done releasing) h = record {
    filter = h.filter;
    held = h.held;
    blocked = h.blocked;
    greeting = h.greeting;
  }
  Step-IsUpToDate labels (cancelled phase) h = record {
    filter = h.filter;
    held = h.held;
    blocked = h.blocked;
    greeting = h.greeting;
  }
  Step-IsUpToDate labels (start_returns phase none_left) h = record {
    filter = h.filter;
    held = h.held;
    blocked = h.blocked;
    greeting = h.greeting;
  }
  Step-IsUpToDate {s} labels (signalled {hashes = hashes} idle) h =
      let r = reload_blocklist-IsUpToDate s hashes hs labels (last_banner b labels) h in
      record { filter = r.filter; held = r.held; blocked = r.blocked; greeting = r.greeting }
  Step-IsUpToDate {s} labels (refreshed {probe = probe} busy) h =
      unfold refresh_upstream_banner in
      (let r =
          keep_banner-IsUpToDate s (fetch_upstream_banner probe upstream_banner_fetch_timeout)
            (last_loaded hs labels) (last_banner b labels) h in
        record { filter = r.filter; held = r.held; blocked = r.blocked; greeting = r.greeting })

  Run-IsUpToDate :
      {s t : Server} {labels : List Label}
      → Run s labels t
      → IsUpToDate hs b s
      → IsUpToDate (last_loaded hs labels) (last_banner b labels) t
  Run-IsUpToDate start h = h
  Run-IsUpToDate (next {labels = labels} run step) h =
      Step-IsUpToDate labels step (Run-IsUpToDate run h)

started-IsUpToDate :
    (banner : Bytes) (connected : Bool) (hs : List Bytes)
    → IsUpToDate hs banner (started banner connected hs)
started-IsUpToDate banner connected hs = record {
  filter = reload new_blocklist_filter hs;
  held = refl;
  blocked = contains-reload new_blocklist_filter hs;
  greeting = refl;
}

new_server-IsUpToDate :
    (probe : Option Conn) (connected : Bool) (hs : List Bytes) {s t : Server} {labels : List Label}
    → new_server probe connected (some hs) ≡ ok s
    → Run s labels t
    → IsUpToDate (last_loaded hs labels) (last_banner s.upstream_banner labels) t
new_server-IsUpToDate probe connected hs {s} {t} {labels} begun run =
    let (banner, (hs', e)) = new_server_lem probe connected (some hs) begun in
    let same_hashes : hs' ≡ hs = cc (e.1) in
    let up_to_date : IsUpToDate hs s.upstream_banner s =
      rw (e.2, same_hashes) (started-IsUpToDate banner connected hs) in
    Run-IsUpToDate hs s.upstream_banner run up_to_date

-- `s.blocklist.Contains(…)`, where `none` is a nil pointer.
abbrev pub blocks : Server → Bytes → Option Bool
blocks s k = elim s.blocklist [ none ↦ none | some b ↦ some (contains b k) ]

-- At any moment of any run of a server, its blocklist is there and refuses exactly the fingerprints
-- of the last list that a start or a SIGHUP loaded, and its banner is the last that one of them
-- probed: an error of the database or of the probe changes nothing.
pub Run_latest :
    (probe : Option Conn) (connected : Bool) (hs : List Bytes) {s t : Server} {labels : List Label}
    (k : Bytes)
    → new_server probe connected (some hs) ≡ ok s
    → Run s labels t
    → (blocks t k ≡ some (listed k (last_loaded hs labels)))
      × (t.upstream_banner ≡ last_banner s.upstream_banner labels)
Run_latest probe connected hs k begun run =
    let u = new_server-IsUpToDate probe connected hs begun run in
    (rw u.held (ap some (u.blocked k)), u.greeting)

-- A handler that looks up a fingerprint of the last list that was loaded, at any moment of any run,
-- never dials the server and sends it nothing.
pub Run_refuses :
    (probe : Option Conn) (connected : Bool) (hs : List Bytes) {s t : Server} {labels : List Label}
    (w : World) (fp : Fingerprint)
    → new_server probe connected (some hs) ≡ ok s
    → Run s labels t
    → t.blocklist ≡ some w.blocklist
    → w.greets ≡ true
    → Captures w fp
    → listed fp.hash (last_loaded hs labels) ≡ true
    → (dials (handle_connection w) ≡ false) × (sent_upstream (handle_connection w) ≡ [])
Run_refuses probe connected hs w fp begun run held greets captured is_listed =
    let u = new_server-IsUpToDate probe connected hs begun run in
    let same_filter : w.blocklist ≡ u.filter = cc (held, u.held) in
    let blocked : contains w.blocklist fp.hash ≡ true =
      rw (same_filter, u.blocked fp.hash) is_listed in
    let r = handle_connection_blocked w fp greets captured blocked in (r.1, r.2)

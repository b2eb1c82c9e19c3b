-- ===== src/Proxy/Lifecycle/Reloads.antt =====
-- What a server starts with, and what the labels of a run say of it.
use hassh.Common.{
  ◌≡◌, refl, sym, Bool, Option, none, some, List, [], ◌∷◌, Result, ok, err, panics, map_err, ◌>>=◌,
  ok_injective,
}
use hassh.Text.{Bytes}
use hassh.Filter.{new_blocklist_filter, reload}
use hassh.Proxy.Reader.{Conn}
use hassh.Proxy.Lifecycle.{
  Server, FetchError, no_banner, fresh, reload_blocklist, fetch_upstream_banner, new_server,
  start_with, upstream_banner_fetch_timeout, Label, quiet, loaded, probed,
}

-- The server that starts with a banner and with the fingerprints of a list blocked.
abbrev pub started : Bytes → Bool → List Bytes → Server
started banner connected hashes = record (fresh banner connected) {
  blocklist = some (reload new_blocklist_filter hashes);
}

start_with_lem :
    (banner : Bytes) (connected : Bool) (hashes : Option (List Bytes)) {s : Server}
    → start_with banner connected hashes ≡ ok s
    → (hs : List Bytes) × ((hashes ≡ some hs) × (s ≡ started banner connected hs))
unfolding start_with reload_blocklist
start_with_lem banner connected none h = cc
start_with_lem banner connected (some hs) h = (hs, (refl, sym (ok_injective h)))

-- A server starts only if a banner was probed and a blocklist loaded; it then has this banner, and
-- exactly the fingerprints of the list are blocked.
pub new_server_lem :
    (probe : Option Conn) (connected : Bool) (hashes : Option (List Bytes)) {s : Server}
    → new_server probe connected hashes ≡ ok s
    → (banner : Bytes) × ((hs : List Bytes) × ((fetch_upstream_banner probe
              upstream_banner_fetch_timeout
            ≡ ok banner)
          × (hashes ≡ some hs)
          × (s ≡ started banner connected hs)))
unfolding new_server
new_server_lem probe connected hashes {s} h =
    go (fetch_upstream_banner probe upstream_banner_fetch_timeout) h
  where
    go :
        (r : Result FetchError Bytes)
        → (map_err no_banner r >>= λ banner. start_with banner connected hashes) ≡ ok s
        → (banner : Bytes) × ((hs : List Bytes) × ((r ≡ ok banner)
              × (hashes ≡ some hs)
              × (s ≡ started banner connected hs)))
    go (ok banner) h =
        let (hs, e) = start_with_lem banner connected hashes h in (banner, (hs, (refl, e.0, e.1)))
    go (err e) h = cc
    go panics h = cc

-- The fingerprints of the last list that was loaded, the first of the labels being the latest.
abbrev pub last_loaded : List Bytes → List Label → List Bytes
last_loaded initial [] = initial
last_loaded initial (quiet ∷ labels) = last_loaded initial labels
last_loaded initial (probed probe ∷ labels) = last_loaded initial labels
last_loaded initial (loaded none ∷ labels) = last_loaded initial labels
last_loaded initial (loaded (some hashes) ∷ labels) = hashes

abbrev pub banner_or : Bytes → Result FetchError Bytes → Bytes
banner_or banner (ok new) = new
banner_or banner (err e) = banner
banner_or banner panics = banner

-- The last banner that was probed.
abbrev pub last_banner : Bytes → List Label → Bytes
last_banner initial [] = initial
last_banner initial (quiet ∷ labels) = last_banner initial labels
last_banner initial (loaded hashes ∷ labels) = last_banner initial labels
last_banner initial (probed probe ∷ labels) =
    banner_or (last_banner initial labels)
      (fetch_upstream_banner probe upstream_banner_fetch_timeout)

-- ===== src/Tests/Serving.antt =====
-- Whole connections, on concrete clients and servers.
use hassh.Common.{◌≡◌, ◌≢◌, refl, ap, sym, true, false, [], inl}
use hassh.Text.{codes, same}
use hassh.Filter.{contains, lookup}
use hassh.Proxy.Reader.{read_failed, eof}
use hassh.Proxy.Server.{World, handle_connection}
use hassh.Proxy.Server.Gate.{dials, refused, sent_client, sent_upstream, handle_connection_blocked}
use hassh.Proxy.Server.Transparency.{IsRelayed, handle_connection_transparent}
use hassh.Proxy.Server.Banners.{handle_connection_mismatch, handle_connection_stale}
use hassh.Proxy.Server.Upstream.{IsPrefix, handle_connection-IsPrefix}
use hassh.Tests.Reading.{banner_read, client_unclassified, whole_found}
use hassh.Tests.Data.{
  banner, client_conn, opened, sample_fingerprint, sample_world, upstream_conn, whole,
}

-- A client with a blocked fingerprint, and one that stops after its banner.
abbrev refused_world : World
refused_world = sample_world (opened whole) banner banner

abbrev fresh_world : World
fresh_world = sample_world client_conn banner banner

abbrev stale_world : World
stale_world = sample_world client_conn (codes "SSH-A\r\n") banner

abbrev mismatched_world : World
mismatched_world = sample_world client_conn banner (codes "SSH-A\r\n")

fingerprint_blocked : contains refused_world.blocklist sample_fingerprint.hash ≡ true
unfolding contains lookup same
fingerprint_blocked = refl

handle_connection_blocked_example :
    (handle_connection refused_world ≡ refused refused_world sample_fingerprint)
    × (dials (handle_connection refused_world) ≡ false)
    × (sent_upstream (handle_connection refused_world) ≡ [])
    × (sent_client (handle_connection refused_world) ≡ banner)
handle_connection_blocked_example =
    handle_connection_blocked refused_world sample_fingerprint refl whole_found fingerprint_blocked

handle_connection-IsPrefix_example :
    IsPrefix (sent_upstream (handle_connection fresh_world)) (codes "SSH-2\r\n")
handle_connection-IsPrefix_example = handle_connection-IsPrefix fresh_world

fresh_world-IsRelayed : IsRelayed fresh_world upstream_conn banner (codes "key")
unfolding same
fresh_world-IsRelayed = record {
  greets = refl;
  allowed = inl (read_failed eof, client_unclassified);
  dialled = refl;
  line = banner_read;
  agrees = refl;
  replays = refl;
  relays = refl;
  client_clean = (refl, (refl, tt));
  upstream_clean = (refl, (refl, (refl, tt)));
}

stale_world-IsRelayed : IsRelayed stale_world upstream_conn banner (codes "key")
unfolding same
stale_world-IsRelayed = record {
  greets = refl;
  allowed = inl (read_failed eof, client_unclassified);
  dialled = refl;
  line = banner_read;
  agrees = refl;
  replays = refl;
  relays = refl;
  client_clean = (refl, (refl, tt));
  upstream_clean = (refl, (refl, (refl, tt)));
}

handle_connection_transparent_example :
    (sent_upstream (handle_connection fresh_world) ≡ codes "SSH-2\r\n")
    × (sent_client (handle_connection fresh_world) ≡ codes "SSH-B\r\nkeys")
handle_connection_transparent_example =
    handle_connection_transparent fresh_world upstream_conn banner (codes "key")
      fresh_world-IsRelayed refl

old_banner : codes "SSH-A\r\n" ≢ banner
unfolding same
old_banner = λ e. absurd (cc (ap (λ s. same s banner) e))

new_banner : banner ≢ codes "SSH-A\r\n"
new_banner = λ e. old_banner (sym e)

handle_connection_stale_example :
    (sent_upstream (handle_connection stale_world) ≡ codes "SSH-2\r\n")
    × (sent_client (handle_connection stale_world) ≢ codes "SSH-B\r\nkeys")
handle_connection_stale_example =
    handle_connection_stale stale_world upstream_conn banner (codes "key") stale_world-IsRelayed
      old_banner

handle_connection_mismatch_example :
    (sent_upstream (handle_connection mismatched_world) ≡ [])
    × (sent_client (handle_connection mismatched_world) ≡ banner)
handle_connection_mismatch_example =
    handle_connection_mismatch mismatched_world upstream_conn banner (codes "key") refl
      (inl (read_failed eof, client_unclassified)) refl banner_read new_banner

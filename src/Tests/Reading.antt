-- ===== src/Tests/Reading.antt =====
-- The parser of handshakes and the two reading loops, on concrete connections.
use hassh.Common.{◌≡◌, ◌≢◌, refl, [], ◌++◌, ok, err, panics, arith, index, slice, be_uint32}
use hassh.Text.{codes, join, split, trim_space, index_of, hex}
use hassh.Hassh.Names.{is_valid_algorithm_name, sanitize_algorithm_names}
use hassh.Hassh.NameList.{parse_name_list}
use hassh.Hassh.NameList.RoundTrip.{put_name_list}
use hassh.Hassh.KexInit.{parse_kex_init, parse_kex_init_impl}
use hassh.Hassh.KexInit.RoundTrip.{put_packet}
use hassh.Hassh.Fingerprint.{calculate}
use hassh.Proxy.Handshake.{try_parse_handshake}
use hassh.Proxy.Handshake.Totality.{try_parse_handshake_no_panic}
use hassh.Proxy.Handshake.Stability.{try_parse_handshake-append}
use hassh.Proxy.Reader.{
  capture_loop, capture_handshake, read_failed, eof, line_loop, read_identification_line,
}
use hassh.Proxy.Reader.Captured.{bytes_of, capture_handshake-conserves}
use hassh.Proxy.Handshake.RoundTrip.{
  IsIdentification, put_handshake, try_parse_handshake-put_handshake,
}
use hassh.Tests.Parsing.{sample_packet-IsWithinLimits}
use hassh.Proxy.Reader.Verdict.{
  capture_handshake-put_handshake, capture_loop_segmentation, capture_handshake_complete,
}
use hassh.Proxy.Server.{handshake_timeout}
use hassh.Tests.Data.{
  sample_packet, zeros, banner, blank_digests, client_addr, client_bytes, client_conn, opened,
  sample_fingerprint, upstream_conn, whole, halves,
}

client_bytes_parse :
    try_parse_handshake blank_digests client_bytes client_addr ≡ ok sample_fingerprint
unfolding try_parse_handshake put_packet put_name_list join index_of slice be_uint32 index
    parse_kex_init parse_kex_init_impl parse_name_list split sanitize_algorithm_names trim_space
    is_valid_algorithm_name calculate hex
client_bytes_parse = refl

try_parse_handshake_no_panic_example :
    try_parse_handshake blank_digests (codes "SSH-2.0-x\r\nabcde") client_addr ≢ panics
try_parse_handshake_no_panic_example =
    try_parse_handshake_no_panic blank_digests (codes "SSH-2.0-x\r\nabcde") client_addr

try_parse_handshake-append_example :
    try_parse_handshake blank_digests (client_bytes ++ codes "more") client_addr
    ≡ ok sample_fingerprint
try_parse_handshake-append_example =
    try_parse_handshake-append blank_digests client_addr client_bytes (codes "more")
      client_bytes_parse

capture_handshake-conserves_example :
    ((capture_handshake blank_digests client_addr client_conn 5).0.outcome ≢ panics)
    × ((capture_handshake blank_digests client_addr client_conn 5).0.buffered
          ++ bytes_of (capture_handshake blank_digests client_addr client_conn 5).1.arrivals
        ≡ codes "SSH-2\r\n")
capture_handshake-conserves_example =
    capture_handshake-conserves blank_digests client_addr client_conn 5

pub whole_found :
    (capture_handshake blank_digests client_addr (opened whole) 5).0.outcome ≡ ok sample_fingerprint
unfolding put_packet put_name_list join
whole_found =
    capture_handshake_complete blank_digests client_addr client_bytes [] (opened whole) 5 refl
      (refl, tt) refl (omega arith) client_bytes_parse

capture_handshake_complete_example :
    (capture_handshake blank_digests client_addr (opened whole) 5).0.outcome ≡ ok sample_fingerprint
unfolding put_packet put_name_list join
capture_handshake_complete_example =
    capture_handshake_complete blank_digests client_addr client_bytes [] (opened whole) 5 refl
      (refl, tt) refl (omega arith) client_bytes_parse

halves_found : (capture_loop blank_digests client_addr [] halves).outcome ≡ ok sample_fingerprint
unfolding try_parse_handshake put_packet put_name_list join index_of slice be_uint32 index
    parse_kex_init parse_kex_init_impl parse_name_list split sanitize_algorithm_names trim_space
    is_valid_algorithm_name calculate hex capture_loop
halves_found = refl

whole_looped : (capture_loop blank_digests client_addr [] whole).outcome ≡ ok sample_fingerprint
unfolding try_parse_handshake put_packet put_name_list join index_of slice be_uint32 index
    parse_kex_init parse_kex_init_impl parse_name_list split sanitize_algorithm_names trim_space
    is_valid_algorithm_name calculate hex capture_loop
whole_looped = refl

capture_loop_segmentation_example : sample_fingerprint ≡ sample_fingerprint
unfolding put_packet put_name_list join
capture_loop_segmentation_example =
    capture_loop_segmentation blank_digests client_addr whole halves refl whole_looped halves_found

pub banner_read :
    (read_identification_line upstream_conn handshake_timeout).0.result ≡ ok (banner, codes "key")
unfolding read_identification_line line_loop index_of slice
banner_read = refl

pub client_unclassified :
    (capture_handshake blank_digests client_addr client_conn handshake_timeout).0.outcome
    ≡ err (read_failed eof)
unfolding capture_handshake capture_loop try_parse_handshake index_of slice
client_unclassified = refl

line-IsIdentification : IsIdentification (codes "SSH-2")
unfolding index_of
line-IsIdentification = record { begins = refl; ends = refl; fits = omega arith }

try_parse_handshake-put_handshake_example :
    try_parse_handshake blank_digests
      (put_handshake (codes "SSH-2") sample_packet (zeros 4))
      client_addr
    ≡ ok sample_fingerprint
unfolding calculate hex
try_parse_handshake-put_handshake_example =
    try_parse_handshake-put_handshake blank_digests (codes "SSH-2") sample_packet (zeros 4)
      client_addr line-IsIdentification sample_packet-IsWithinLimits (omega arith) (omega arith)

capture_handshake-put_handshake_example :
    (capture_handshake blank_digests client_addr (opened halves) 5).0.outcome
    ≡ ok sample_fingerprint
unfolding calculate hex put_packet put_name_list join
capture_handshake-put_handshake_example =
    capture_handshake-put_handshake blank_digests (codes "SSH-2") sample_packet (zeros 4)
      client_addr [] (opened halves) 5 line-IsIdentification sample_packet-IsWithinLimits
      (omega arith) (omega arith) (omega arith) refl (refl, (refl, tt)) refl

-- ===== src/Proxy/Handshake/Stability.antt =====
-- What has been read of a stream settles the verdict: more bytes do not change it.
use hassh.Common.{
  ℕ, ◌+◌, ◌-◌, ◌≡◌, refl, Bool, Option, none, some, ◌++◌, arith, leb, leb→le, le→leb, ltb, ◌&&◌,
  ◌||◌, not, true, length, length-append, ok, be_uint32, Agrees, Extends-refl, Agrees-of,
  Agrees-eq-ok, Agrees-bind, Grows-bind, Extends-guard, Extends-same_guard, slice-append,
  slice_end-append, index-append,
}
use hassh.Text.{Bytes, index_of, index_of-append}
use hassh.Hassh.Fingerprint.{Fingerprint, Digests}
use hassh.Proxy.Handshake.{
  max_packet_size, ssh_prefix, crlf, found, find_banner, cut_payload, find_payload,
  try_parse_handshake,
}

module _ (more : Bytes) where
  found-append :
      (s pat : Bytes) → Agrees (found (index_of s pat)) (found (index_of (s ++ more) pat))
  found-append s pat = Agrees-of (go (index_of s pat) refl)
    where
      go :
          (o : Option ℕ)
          → index_of s pat ≡ o
          → (i : ℕ) → found o ≡ ok i
          → found (index_of (s ++ more) pat) ≡ ok i
      go none e i h = cc
      go (some j) e i h = rw (index_of-append s more pat e) h

  longer : (s : Bytes) (n : ℕ) → leb n (length s) ≡ true → leb n (length (s ++ more)) ≡ true
  longer s n h =
      le→leb n (length (s ++ more)) (omega (arith, leb→le n (length s) h, length-append s more))

  longer_and :
      (s : Bytes) (b : Bool) (n : ℕ)
      → (b && leb n (length s)) ≡ true
      → (b && leb n (length (s ++ more))) ≡ true
  longer_and s b n h = ground (arith, longer s n)

  find_banner-append : (buf : Bytes) → Agrees (find_banner buf) (find_banner (buf ++ more))
  unfolding find_banner
  find_banner-append buf = Agrees-bind (found-append buf ssh_prefix) λ idx _.
      Grows-bind more _ (slice_end-append buf more idx) λ from_banner _.
        Agrees-bind (found-append from_banner crlf) λ end_idx _.
          Agrees-bind (slice-append buf more idx (idx + end_idx)) λ line _. Extends-refl

  cut_payload-append :
      (packet_buf : Bytes) (packet_len : ℕ)
      → Agrees (cut_payload packet_buf packet_len) (cut_payload (packet_buf ++ more) packet_len)
  unfolding cut_payload
  cut_payload-append packet_buf packet_len =
      Extends-same_guard (not (ltb packet_len 1 || ltb max_packet_size packet_len)) _ λ _.
        Extends-guard (leb (4 + packet_len) (length packet_buf))
          (leb (4 + packet_len) (length (packet_buf ++ more))) _
          (longer packet_buf (4 + packet_len))
          λ _. Agrees-bind (index-append packet_buf more 4) λ padding_len _.
            Extends-same_guard (leb 4 padding_len) _ λ _.
              let payload_len = packet_len - padding_len - 1 in
              Extends-guard (ltb 0 payload_len && leb (5 + payload_len) (length packet_buf))
                (ltb 0 payload_len && leb (5 + payload_len) (length (packet_buf ++ more))) _
                (longer_and packet_buf (ltb 0 payload_len) (5 + payload_len))
                λ _.
                  Agrees-bind (slice-append packet_buf more 5 (5 + payload_len))
                    λ payload _. Extends-refl

  find_payload-append :
      (buf : Bytes) (banner_end : ℕ)
      → Agrees (find_payload buf banner_end) (find_payload (buf ++ more) banner_end)
  unfolding find_payload
  find_payload-append buf banner_end =
      Extends-guard (leb (banner_end + 5) (length buf))
        (leb (banner_end + 5) (length (buf ++ more))) _ (longer buf (banner_end + 5))
        λ _. Grows-bind more _ (slice_end-append buf more banner_end) λ packet_buf _.
          Agrees-bind (slice-append packet_buf more 0 4) λ length_field _.
            Agrees-bind {m = be_uint32 length_field} Extends-refl
              λ packet_len _. cut_payload-append packet_buf packet_len

-- A handshake that has been parsed is parsed alike, to the same fingerprint, whatever bytes
-- follow it in the buffer.
pub try_parse_handshake-append :
    (d : Digests) (remote_addr buf more : Bytes) {fp : Fingerprint}
    → try_parse_handshake d buf remote_addr ≡ ok fp
    → try_parse_handshake d (buf ++ more) remote_addr ≡ ok fp
unfolding try_parse_handshake
try_parse_handshake-append d remote_addr buf more = Agrees-eq-ok (
    Extends-guard (leb 10 (length buf)) (leb 10 (length (buf ++ more))) _ (longer more buf 10) λ _.
      Agrees-bind (find_banner-append more buf)
        λ r _. Agrees-bind (find_payload-append more buf r.1) λ payload _. Extends-refl)

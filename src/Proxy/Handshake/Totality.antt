-- ===== src/Proxy/Handshake/Totality.antt =====
-- What `try_parse_handshake` returns on any buffer.
use hassh.Common.{
  ℕ, zero, suc, ◌+◌, ◌-◌, ◌≤◌, ◌<◌, ◌≡◌, ◌≢◌, refl, not, ◌||◌, ◌&&◌, some, [], ◌∷◌, arith, ltb, leb,
  leb→le, ◌==◌, length, length-drop, length-take_of_le, drop, get_elem?, ok, panics, slice, index,
  be_uint32, slice-eq-ok, be_uint32-total, Ensures, ensures_ok, ensured_ok, ensured_no_panic,
  Ensures-guard, Ensures-bind, Ensures-map_err,
}
use hassh.Text.{Bytes}
use hassh.Hassh.KexInit.{KexInit}
use hassh.Hassh.KexInit.Totality.{IsPacket, parse_kex_init-Ensures}
use hassh.Hassh.Fingerprint.{Fingerprint, Digests, calculate}
use hassh.Proxy.Handshake.Banner.{IsBanner, find_banner-Ensures}
use hassh.Proxy.Handshake.{
  max_packet_size, ssh_msg_kex_init, cut_payload, find_payload, try_parse_handshake,
}

-- A byte within the length is read.
index-Ensures :
    {E : Type 0} (xs : Bytes) (i : ℕ)
    → i < length xs
    → Ensures {E = E} (λ b. get_elem? xs i ≡ some b) (λ _. Unit {0}) (index xs i)
unfolding index
index-Ensures [] i h = absurd (omega arith)
index-Ensures (x ∷ xs) zero h = ensures_ok refl
index-Ensures (x ∷ xs) (suc i) h = index-Ensures xs i (omega arith)

slice-Ensures :
    {E : Type 0} (xs : Bytes) (lo hi : ℕ)
    → lo ≤ hi
    → hi ≤ length xs
    → Ensures {E = E} (λ v. length v ≡ hi - lo) (λ _. Unit {0}) (slice xs lo hi)
slice-Ensures xs lo hi h k =
    let fits : hi - lo ≤ length (drop lo xs) = omega (arith, length-drop lo xs) in
    rw (slice-eq-ok xs lo hi h k) (ensures_ok (length-take_of_le (hi - lo) (drop lo xs) fits))

be_uint32-Ensures :
    {E : Type 0} (xs : Bytes)
    → 4 ≤ length xs
    → Ensures {E = E} (λ n. be_uint32 {E = E} xs ≡ ok n) (λ _. Unit {0}) (be_uint32 xs)
be_uint32-Ensures {E} xs h = let (n, e) = be_uint32-total {E = E} xs h in rw e (ensures_ok refl)

cut_payload-Ensures :
    (packet_buf : Bytes) (packet_len : ℕ)
    → 5 ≤ length packet_buf
    → Ensures (λ _. Unit {0}) (λ _. Unit {0}) (cut_payload packet_buf packet_len)
unfolding cut_payload
cut_payload-Ensures packet_buf packet_len h =
    Ensures-guard (not (ltb packet_len 1 || ltb max_packet_size packet_len)) _ (λ _. tt)
      λ _.
        Ensures-guard (leb (4 + packet_len) (length packet_buf)) _ (λ _. tt)
          λ _. Ensures-bind (index-Ensures packet_buf 4 (omega arith)) λ padding_len _.
            Ensures-guard (leb 4 padding_len) _ (λ _. tt)
              λ _.
                let payload_len = packet_len - padding_len - 1 in
                Ensures-guard (ltb 0 payload_len && leb (5 + payload_len) (length packet_buf)) _
                  (λ _. tt)
                  λ fits.
                    Ensures-bind
                      (slice-Ensures packet_buf 5 (5 + payload_len) (omega arith) (ground arith))
                      λ payload _.
                        Ensures-guard (ltb 0 (length payload)) _ (λ _. tt)
                          λ pos. Ensures-bind (index-Ensures payload 0 (ground arith)) λ b _.
                            Ensures-guard (b == ssh_msg_kex_init) _ (λ _. tt) λ _. ensures_ok tt

find_payload-Ensures :
    (buf : Bytes) (banner_end : ℕ)
    → Ensures (λ _. Unit {0}) (λ _. Unit {0}) (find_payload buf banner_end)
unfolding find_payload
find_payload-Ensures buf banner_end =
    Ensures-guard (leb (banner_end + 5) (length buf)) _ (λ _. tt)
      λ fits.
        let room = leb→le (banner_end + 5) (length buf) fits in
        Ensures-bind (slice-Ensures buf banner_end (length buf) (omega arith) (omega arith))
          λ packet_buf n.
            Ensures-bind (slice-Ensures packet_buf 0 4 (omega arith) (omega arith))
              λ length_field m.
                Ensures-bind (be_uint32-Ensures length_field (omega arith))
                  λ packet_len _. cut_payload-Ensures packet_buf packet_len (omega arith)

-- What a fingerprint says of the connection.
pub record IsFingerprint (d : Digests) (buf remote_addr : Bytes) (fp : Fingerprint) : Type 0 where
  pub banner : IsBanner buf fp.client_banner
  pub addr : fp.remote_addr ≡ remote_addr
  pub offer : KexInit
  pub hash : fp.hash ≡ calculate d offer.kex offer.ciphers offer.macs offer.compression
  pub valid : (payload : Bytes) × IsPacket payload offer

try_parse_handshake-Ensures :
    (d : Digests) (buf remote_addr : Bytes)
    → Ensures
        (IsFingerprint d buf remote_addr)
        (λ _. Unit {0})
        (try_parse_handshake d buf remote_addr)
unfolding try_parse_handshake
try_parse_handshake-Ensures d buf remote_addr =
    Ensures-guard (leb 10 (length buf)) _ (λ _. tt)
      λ _. Ensures-bind (find_banner-Ensures buf) λ r cut.
        Ensures-bind (find_payload-Ensures buf r.1) λ payload _.
          Ensures-bind (Ensures-map_err _ (λ _ _. tt) (parse_kex_init-Ensures payload)) λ k packet.
            ensures_ok (record {
              banner = cut.0;
              addr = refl;
              offer = k;
              hash = refl;
              valid = (payload, packet);
            })

-- No bytes from a client make the parser panic, which would end the whole proxy.
pub try_parse_handshake_no_panic :
    (d : Digests) (buf remote_addr : Bytes) → try_parse_handshake d buf remote_addr ≢ panics
try_parse_handshake_no_panic d buf remote_addr =
    ensured_no_panic (try_parse_handshake-Ensures d buf remote_addr)

-- A fingerprint carries a banner that stands in the buffer, begins with `SSH-`, holds no CRLF and
-- has at most 255 bytes, the address that was passed in, and the hash of an offer that was parsed
-- from a packet of RFC 4253.
pub try_parse_handshake-IsFingerprint :
    (d : Digests) (buf remote_addr : Bytes) {fp : Fingerprint}
    → try_parse_handshake d buf remote_addr ≡ ok fp
    → IsFingerprint d buf remote_addr fp
try_parse_handshake-IsFingerprint d buf remote_addr h =
    ensured_ok (rw h at (try_parse_handshake-Ensures d buf remote_addr))

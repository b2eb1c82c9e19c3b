-- ===== src/Proxy/Handshake/RoundTrip.antt =====
-- A banner and a KEXINIT packet, written by RFC 4253 §4.2 and §6 and read back.
use hassh.Common.{
  ℕ, ◌+◌, ◌-◌, ◌≤◌, ◌≡◌, sym, ap, subst, ◌∙◌, true, false, not, ◌||◌, ◌<◌, index, length-drop, some,
  [], ◌∷◌, ◌++◌, append_assoc, arith, ltb, leb, le→leb, lt→ltb, length, length-append, drop,
  drop-append, take-append, take, ok, slice, be_uint32, slice-eq-ok, slice-length,
}
use hassh.Text.{Bytes, index_of, index_of-append}
use hassh.Hassh.KexInit.RoundTrip.{Packet, put_packet, IsWithinLimits, parse_kex_init-put_packet}
use hassh.Hassh.NameList.RoundTrip.{put_uint32, be_uint32-put_uint32}
use hassh.Hassh.Fingerprint.{Digests, calculate}
use hassh.Proxy.Handshake.{
  NotYet, max_packet_size, crlf, ssh_prefix, max_banner_length, clip_banner, find_banner,
  cut_payload, find_payload, try_parse_handshake,
}

-- The binary packet: its length, the length of the padding, payload and padding.
abbrev pub put_binary : Bytes → Bytes → Bytes
put_binary payload padding =
    put_uint32 (length payload + length padding + 1) ++ (length padding ∷ (payload ++ padding))

-- An identification line that fits its column.
pub record IsIdentification (line : Bytes) : Type 0 where
  pub begins : index_of line ssh_prefix ≡ some 0
  pub ends : index_of (line ++ crlf) crlf ≡ some (length line)
  pub fits : length line ≤ max_banner_length

find_banner-put :
    (line rest : Bytes)
    → IsIdentification line
    → find_banner (line ++ (crlf ++ rest)) ≡ ok (line, 0 + length line + 2)
unfolding find_banner clip_banner
find_banner-put line rest h =
    let buf = line ++ (crlf ++ rest) in
    let ends : index_of buf crlf ≡ some (length line) =
      subst (λ s. index_of s crlf ≡ some (length line)) (append_assoc line crlf rest)
        (index_of-append (line ++ crlf) rest crlf h.ends) in
    let whole : slice {E = NotYet} buf 0 (length buf) ≡ ok buf = slice-length buf 0 (omega arith) in
    let n : 0 + length line - 0 ≡ length line = omega arith in
    let room : 0 + length line ≤ length buf = omega (arith, length-append line (crlf ++ rest)) in
    let cut : slice {E = NotYet} buf 0 (0 + length line) ≡ ok line =
      slice-eq-ok buf 0 (0 + length line) (omega arith) room
      ∙ ap ok (ap (λ m. take m buf) n ∙ take-append line (crlf ++ rest)) in
    let short : ltb max_banner_length (length line) ≡ false = ground (arith, h.fits) in
    rw (index_of-append line (crlf ++ rest) ssh_prefix h.begins, whole, ends, cut, short)

cut_payload-put :
    (head padding : Bytes)
    → 4 ≤ length padding
    → length (20 ∷ head) + length padding < max_packet_size
    → cut_payload (put_binary (20 ∷ head) padding) (length (20 ∷ head) + length padding + 1)
      ≡ ok (20 ∷ head)
unfolding cut_payload index
cut_payload-put head padding pad small =
    let payload = 20 ∷ head in
    let packet = put_binary payload padding in
    let n = length payload + length padding + 1 in
    let size : length packet ≡ 5 + (length payload + length padding) =
      omega (arith, length-append payload padding) in
    let sane : not (ltb n 1 || ltb max_packet_size n) ≡ true = ground arith in
    let all_there : leb (4 + n) (length packet) ≡ true = le→leb _ _ (omega arith) in
    let padded : leb 4 (length padding) ≡ true = le→leb _ _ pad in
    let m : n - length padding - 1 ≡ length payload = omega arith in
    let here : leb (5 + length payload) (length packet) ≡ true = le→leb _ _ (omega arith) in
    let five : 5 + length payload - 5 ≡ length payload = omega arith in
    let cut : slice {E = NotYet} packet 5 (5 + length payload) ≡ ok payload =
      slice-eq-ok packet 5 (5 + length payload) (omega arith) (omega arith)
      ∙ ap ok (ap (λ k. take k (payload ++ padding)) five ∙ take-append payload padding) in
    let full : ltb 0 (length payload) ≡ true = lt→ltb 0 (length payload) (omega arith) in
    rw (sane, all_there, padded, m, full, here, cut, full)

find_payload-put :
    (buf head padding : Bytes) (banner_end : ℕ)
    → drop banner_end buf ≡ put_binary (20 ∷ head) padding
    → 4 ≤ length padding
    → length (20 ∷ head) + length padding < max_packet_size
    → find_payload buf banner_end ≡ ok (20 ∷ head)
unfolding find_payload
find_payload-put buf head padding banner_end here pad small =
    let payload = 20 ∷ head in
    let packet = put_binary payload padding in
    let n = length payload + length padding + 1 in
    let size : length packet ≡ 5 + (length payload + length padding) =
      omega (arith, length-append payload padding) in
    let behind : length packet ≡ length buf - banner_end =
      sym (ap length here) ∙ length-drop banner_end buf in
    let room : leb (banner_end + 5) (length buf) ≡ true = le→leb _ _ (omega arith) in
    let rest : slice {E = NotYet} buf banner_end (length buf) ≡ ok packet =
      slice-length buf banner_end (omega arith) ∙ ap ok here in
    let field : slice {E = NotYet} packet 0 4 ≡ ok (put_uint32 n) =
      slice-eq-ok packet 0 4 (omega arith) (omega arith) in
    let read : be_uint32 {E = NotYet} (put_uint32 n) ≡ ok n =
      be_uint32-put_uint32 n [] (omega arith) in
    rw (room, rest, field, read) (cut_payload-put head padding pad small)

-- The bytes that a client writes first.
abbrev pub put_handshake : Bytes → Packet → Bytes → Bytes
put_handshake line p padding = line ++ (crlf ++ put_binary (put_packet p) padding)

-- An identification line of at most 255 bytes and a KEXINIT packet within the limits of the parser,
-- written by RFC 4253 with 4 to 255 bytes of padding, are read back: the fingerprint has this line,
-- and the hash of the lists that the client offers.
pub try_parse_handshake-put_handshake :
    (d : Digests) (line : Bytes) (p : Packet) (padding remote_addr : Bytes)
    → IsIdentification line
    → IsWithinLimits p
    → 4 ≤ length padding
    → length padding ≤ 255
    → try_parse_handshake d (put_handshake line p padding) remote_addr
      ≡ ok (record {
        hash = calculate d p.kex p.ciphers p.macs p.compression;
        client_banner = line;
        remote_addr = remote_addr;
      })
unfolding try_parse_handshake put_packet
try_parse_handshake-put_handshake d line p padding remote_addr h w pad short =
    let payload = put_packet p in
    let rest = put_binary payload padding in
    let buf = put_handshake line p padding in
    let size : length rest ≡ 5 + (length payload + length padding) =
      omega (arith, length-append payload padding) in
    let whole : length buf ≡ length line + (2 + length rest) =
      omega (arith, length-append line (crlf ++ rest)) in
    let long : leb 10 (length buf) ≡ true = le→leb 10 (length buf) (omega arith) in
    let e : 0 + length line + 2 ≡ length (line ++ crlf) = omega (arith, length-append line crlf) in
    let behind : drop (0 + length line + 2) buf ≡ rest = rw e (
      subst (λ s. drop (length (line ++ crlf)) s ≡ rest) (append_assoc line crlf rest)
        (drop-append (line ++ crlf) rest)) in
    let found_line = find_banner-put line rest h in
    let found_payload =
      find_payload-put buf _ padding (0 + length line + 2) behind pad (omega (arith, w.small)) in
    let read = parse_kex_init-put_packet p w in rw (long, found_line, found_payload, read)

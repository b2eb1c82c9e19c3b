-- ===== src/Hassh/KexInit/RoundTrip.antt =====
-- A KEXINIT payload, written by RFC 4253 §7.1 and read back.
use hassh.Common.{
  ℕ, ◌+◌, ◌≤◌, ◌≡◌, refl, ap, subst, List, ◌∷◌, ◌++◌, arith, le→leb, length, length-drop, drop,
  drop-drop, drop-append, index, ok,
}
use hassh.Text.{Bytes}
use hassh.Hassh.Names.{max_payload_size, max_total_algorithms, ssh_msg_kex_init}
use hassh.Hassh.NameList.RoundTrip.{put_name_list, IsSendable, parse_name_list-put_name_list}
use hassh.Hassh.KexInit.{
  Field, Error, KexInit, parse_and_track, check_tail, parse_kex_init_impl, parse_kex_init,
}

-- The fields of a packet; `tail` is the boolean, the reserved uint32 and whatever follows.
pub record Packet : Type 0 where
  pub cookie : Bytes
  pub kex : List Bytes
  pub host_keys : List Bytes
  pub ciphers : List Bytes
  pub ciphers_back : List Bytes
  pub macs : List Bytes
  pub macs_back : List Bytes
  pub compression : List Bytes
  pub compression_back : List Bytes
  pub languages : List Bytes
  pub languages_back : List Bytes
  pub tail : Bytes

-- What follows the cookie.
abbrev put_lists : Packet → Bytes
put_lists p =
    put_name_list p.kex
    ++ (put_name_list p.host_keys
        ++ (put_name_list p.ciphers
            ++ (put_name_list p.ciphers_back
                ++ (put_name_list p.macs
                    ++ (put_name_list p.macs_back
                        ++ (put_name_list p.compression
                            ++ (put_name_list p.compression_back
                                ++ (put_name_list p.languages
                                    ++ (put_name_list p.languages_back ++ p.tail)))))))))

unfoldable pub put_packet : Packet → Bytes
put_packet p = ssh_msg_kex_init ∷ (p.cookie ++ put_lists p)

-- The packet is within the limits of the parser.
pub record IsWithinLimits (p : Packet) : Type 0 where
  pub cookie : length p.cookie ≡ 16
  pub kex : IsSendable p.kex
  pub host_keys : IsSendable p.host_keys
  pub ciphers : IsSendable p.ciphers
  pub ciphers_back : IsSendable p.ciphers_back
  pub macs : IsSendable p.macs
  pub macs_back : IsSendable p.macs_back
  pub compression : IsSendable p.compression
  pub compression_back : IsSendable p.compression_back
  pub languages : IsSendable p.languages
  pub languages_back : IsSendable p.languages_back
  pub few :
      length p.kex
        + length p.host_keys
        + length p.ciphers
        + length p.ciphers_back
        + length p.macs
        + length p.macs_back
        + length p.compression
        + length p.compression_back
        + length p.languages
        + length p.languages_back
      ≤ max_total_algorithms
  pub tail : 5 ≤ length p.tail
  pub small : length (put_packet p) ≤ max_payload_size

-- One list is read; what follows stands at the offset behind it.
module _ (payload : Bytes) (o : ℕ) (names : List Bytes) (rest : Bytes)
    (here : drop o payload ≡ put_name_list names ++ rest) where
  parse_and_track-put :
      (t : ℕ) (f : Field)
      → IsSendable names
      → t + length names ≤ max_total_algorithms
      → parse_and_track payload o t f
        ≡ ok (names, o + length (put_name_list names), t + length names)
  unfolding parse_and_track
  parse_and_track-put t f s few =
      rw (parse_name_list-put_name_list payload o names rest here s, le→leb _ _ few)

  behind : drop (o + length (put_name_list names)) payload ≡ rest
  behind = rw (← drop-drop o (length (put_name_list names)) payload, here, drop-append)

module _ (p : Packet) (w : IsWithinLimits p) (payload : Bytes)
    (small : length payload ≤ max_payload_size)
    (first : index {E = Error} payload 0 ≡ ok ssh_msg_kex_init)
    (start : drop 17 payload ≡ put_lists p) where
  check_tail-put : (o : ℕ) (k : KexInit) → drop o payload ≡ p.tail → check_tail payload o k ≡ ok k
  unfolding check_tail
  check_tail-put o k here =
      let long : o + 5 ≤ length payload =
        omega (arith, length-drop o payload, ap length here, w.tail) in
      rw (
        le→leb (o + 1) (length payload) (omega arith),
        le→leb (o + 1 + 4) (length payload) (omega arith),
      )

  long_enough : (o : ℕ) → 17 ≤ o → drop o payload ≡ p.tail → 17 ≤ length payload
  long_enough o h here = omega (arith, length-drop o payload, ap length here, w.tail)

  parse_kex_init_impl-put :
      parse_kex_init_impl payload
      ≡ ok (record { kex = p.kex; ciphers = p.ciphers; macs = p.macs; compression = p.compression })
  unfolding parse_kex_init_impl
  parse_kex_init_impl-put =
      let h1 = behind payload 17 p.kex _ start in
      let t1 : ℕ = 0 + length p.kex in
      let h2 = behind payload _ p.host_keys _ h1 in
      let t2 : ℕ = t1 + length p.host_keys in
      let h3 = behind payload _ p.ciphers _ h2 in
      let t3 : ℕ = t2 + length p.ciphers in
      let h4 = behind payload _ p.ciphers_back _ h3 in
      let t4 : ℕ = t3 + length p.ciphers_back in
      let h5 = behind payload _ p.macs _ h4 in
      let t5 : ℕ = t4 + length p.macs in
      let h6 = behind payload _ p.macs_back _ h5 in
      let t6 : ℕ = t5 + length p.macs_back in
      let h7 = behind payload _ p.compression _ h6 in
      let t7 : ℕ = t6 + length p.compression in
      let h8 = behind payload _ p.compression_back _ h7 in
      let t8 : ℕ = t7 + length p.compression_back in
      let h9 = behind payload _ p.languages _ h8 in
      let t9 : ℕ = t8 + length p.languages in
      let h10 = behind payload _ p.languages_back _ h9 in
      let t10 : ℕ = t9 + length p.languages_back in
      rw (
        le→leb (length payload) max_payload_size small,
        le→leb 17 (length payload) (long_enough _ (omega arith) h10),
        first,
        parse_and_track-put payload _ p.kex _ start 0 Field.kex_algorithms w.kex
            (omega (arith, w.few)),
        parse_and_track-put payload _ p.host_keys _ h1 t1 Field.server_host_key_algorithms
            w.host_keys (omega (arith, w.few)),
        parse_and_track-put payload _ p.ciphers _ h2 t2 Field.encryption_algorithms_client_to_server
            w.ciphers (omega (arith, w.few)),
        parse_and_track-put payload _ p.ciphers_back _ h3 t3
            Field.encryption_algorithms_server_to_client w.ciphers_back (omega (arith, w.few)),
        parse_and_track-put payload _ p.macs _ h4 t4 Field.mac_algorithms_client_to_server w.macs
            (omega (arith, w.few)),
        parse_and_track-put payload _ p.macs_back _ h5 t5 Field.mac_algorithms_server_to_client
            w.macs_back (omega (arith, w.few)),
        parse_and_track-put payload _ p.compression _ h6 t6
            Field.compression_algorithms_client_to_server w.compression (omega (arith, w.few)),
        parse_and_track-put payload _ p.compression_back _ h7 t7
            Field.compression_algorithms_server_to_client w.compression_back (omega (arith, w.few)),
        parse_and_track-put payload _ p.languages _ h8 t8 Field.languages_client_to_server
            w.languages (omega (arith, w.few)),
        parse_and_track-put payload _ p.languages_back _ h9 t9 Field.languages_server_to_client
            w.languages_back (omega (arith, w.few)),
        check_tail-put _ _ h10,
      )

put_packet-start : (p : Packet) → length p.cookie ≡ 16 → drop 17 (put_packet p) ≡ put_lists p
unfolding put_packet
put_packet-start p h =
    subst (λ n. drop n (p.cookie ++ put_lists p) ≡ put_lists p) h
      (drop-append p.cookie (put_lists p))

-- A written packet is parsed, and the lists of the client's side are returned as they were: the
-- cookie has 16 bytes, at least five bytes follow the lists, and no limit of the parser is passed.
pub parse_kex_init-put_packet :
    (p : Packet)
    → IsWithinLimits p
    → parse_kex_init (put_packet p)
      ≡ ok (record { kex = p.kex; ciphers = p.ciphers; macs = p.macs; compression = p.compression })
parse_kex_init-put_packet p w =
    let read =
      parse_kex_init_impl-put p w (put_packet p) w.small (first p) (put_packet-start p w.cookie) in
    unfold parse_kex_init in rw read
  where
    first : (p : Packet) → index {E = Error} (put_packet p) 0 ≡ ok ssh_msg_kex_init
    first p = unfold put_packet index in refl

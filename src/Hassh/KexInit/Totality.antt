-- ===== src/Hassh/KexInit/Totality.antt =====
-- What `parse_kex_init` returns on any payload.
use hassh.Common.{
  ℕ, ◌+◌, ◌≤◌, ◌≡◌, ◌≢◌, refl, ap, ◌∙◌, ==_iff, List, [], ◌∷◌, arith, leb, leb→le, ◌==◌, length,
  get_elem?, ok, panics, index, Ensures, ensures_ok, ensured_ok, ensured_no_panic, recover-eq_self,
  Ensures-guard, Ensures-bind, Ensures-map_err, some,
}
use hassh.Text.{Bytes}
use hassh.Hassh.Names.{panicked, max_payload_size, max_total_algorithms, ssh_msg_kex_init}
use hassh.Hassh.NameList.Totality.{IsNameList, parse_name_list-Ensures}
use hassh.Hassh.KexInit.{
  Field, Error, plain, in_field, context, KexInit, parse_and_track, check_tail, parse_kex_init_impl,
  parse_kex_init,
}

-- An error of the parser, other than that of a recovered panic.
abbrev pub IsKexError : Error → Type 0
IsKexError (plain s) = s ≢ panicked
IsKexError (in_field f s) = s ≢ panicked
IsKexError (context e) = ⊥

-- Name-lists that follow one another in the payload.
pub data Rows (payload : Bytes) : ℕ → List (List Bytes) → ℕ → Type 0 where
  done : {o : ℕ} → Rows payload o [] o
  row :
      {o o' end : ℕ} {names : List Bytes} {rest : List (List Bytes)}
      → IsNameList payload o (names, o')
      → Rows payload o' rest end
      → Rows payload o (names ∷ rest) end

abbrev pub total_names : List (List Bytes) → ℕ
total_names [] = 0
total_names (names ∷ rest) = length names + total_names rest

-- The packet of RFC 4253 §7.1, with the four lists that are returned.
pub record IsPacket (payload : Bytes) (k : KexInit) : Type 0 where
  pub host_keys : List Bytes
  pub ciphers_back : List Bytes
  pub macs_back : List Bytes
  pub compression_back : List Bytes
  pub languages : List Bytes
  pub languages_back : List Bytes
  pub end : ℕ
  pub rows :
      Rows payload 17
        (k.kex ∷ host_keys ∷ k.ciphers ∷ ciphers_back ∷ k.macs ∷ macs_back ∷ k.compression
          ∷ compression_back ∷ languages ∷ languages_back ∷ [])
        end
  pub few :
      total_names (
        k.kex ∷ host_keys ∷ k.ciphers ∷ ciphers_back ∷ k.macs ∷ macs_back ∷ k.compression
        ∷ compression_back ∷ languages ∷ languages_back ∷ [])
      ≤ max_total_algorithms
  pub kind : get_elem? payload 0 ≡ some ssh_msg_kex_init
  pub fits : length payload ≤ max_payload_size
  pub tail : end + 5 ≤ length payload

-- One list is read, and its names are counted.
abbrev IsTracked : Bytes → ℕ → ℕ → List Bytes × ℕ × ℕ → Type 0
IsTracked payload o t r =
    IsNameList payload o (r.0, r.1) × (r.2 ≡ t + length r.0) × (r.2 ≤ max_total_algorithms)

parse_and_track-Ensures :
    (payload : Bytes) (o t : ℕ) (f : Field)
    → Ensures (IsTracked payload o t) IsKexError (parse_and_track payload o t f)
unfolding parse_and_track
parse_and_track-Ensures payload o t f =
    Ensures-bind (Ensures-map_err _ (λ e q. q.0) (parse_name_list-Ensures payload o))
      λ r is_list. Ensures-guard _ _ (λ _. cc) λ few. ensures_ok (is_list, refl, leb→le _ _ few)

check_tail-Ensures :
    {P : KexInit → Type 0} (payload : Bytes) (o : ℕ) (k : KexInit)
    → (o + 5 ≤ length payload → P k)
    → Ensures P IsKexError (check_tail payload o k)
unfolding check_tail
check_tail-Ensures payload o k p =
    Ensures-guard (leb (o + 1) (length payload)) _ (λ _. cc)
      λ _.
        Ensures-guard (leb (o + 1 + 4) (length payload)) _ (λ _. cc)
          λ fits. ensures_ok (p (omega (arith, leb→le (o + 1 + 4) (length payload) fits)))

index-Ensures :
    (payload : Bytes)
    → 1 ≤ length payload
    → Ensures {E = Error} (λ b. get_elem? payload 0 ≡ some b) IsKexError (index payload 0)
unfolding index
index-Ensures [] h = absurd (omega arith)
index-Ensures (b ∷ payload) h = ensures_ok refl

parse_kex_init_impl-Ensures :
    (payload : Bytes) → Ensures (IsPacket payload) IsKexError (parse_kex_init_impl payload)
unfolding parse_kex_init_impl
parse_kex_init_impl-Ensures payload =
    Ensures-guard (leb (length payload) max_payload_size) _ (λ _. cc)
      λ fits.
        Ensures-guard (leb 17 (length payload)) _ (λ _. cc)
          λ long. Ensures-bind (index-Ensures payload (omega (arith, leb→le 17 _ long))) λ b first.
            Ensures-guard (b == ssh_msg_kex_init) _ (λ _. cc)
              λ kind. Ensures-bind (parse_and_track-Ensures payload _ _ _) λ x0 r0.
                Ensures-bind (parse_and_track-Ensures payload _ _ _) λ x1 r1.
                  Ensures-bind (parse_and_track-Ensures payload _ _ _) λ x2 r2.
                    Ensures-bind (parse_and_track-Ensures payload _ _ _) λ x3 r3.
                      Ensures-bind (parse_and_track-Ensures payload _ _ _) λ x4 r4.
                        Ensures-bind (parse_and_track-Ensures payload _ _ _) λ x5 r5.
                          Ensures-bind (parse_and_track-Ensures payload _ _ _) λ x6 r6.
                            Ensures-bind (parse_and_track-Ensures payload _ _ _) λ x7 r7.
                              Ensures-bind (parse_and_track-Ensures payload _ _ _) λ x8 r8.
                                Ensures-bind (parse_and_track-Ensures payload _ _ _) λ x9 r9.
                                  check_tail-Ensures payload x9.1 _ λ tail. record {
                                    host_keys = x1.0;
                                    ciphers_back = x3.0;
                                    macs_back = x5.0;
                                    compression_back = x7.0;
                                    languages = x8.0;
                                    languages_back = x9.0;
                                    end = x9.1;
                                    rows =
                                        search
                                          (
                                            done, row, r0.0, r1.0, r2.0, r3.0, r4.0, r5.0, r6.0,
                                            r7.0, r8.0, r9.0,
                                          )
                                          depth 12;
                                    few = omega arith;
                                    kind = first ∙ ap some ((==_iff b 20).0 kind);
                                    fits = leb→le (length payload) max_payload_size fits;
                                    tail = tail;
                                  }

parse_kex_init-eq_impl : (payload : Bytes) → parse_kex_init payload ≡ parse_kex_init_impl payload
unfolding parse_kex_init
parse_kex_init-eq_impl payload =
    recover-eq_self (plain panicked) (parse_kex_init_impl-Ensures payload)

pub parse_kex_init-Ensures :
    (payload : Bytes) → Ensures (IsPacket payload) IsKexError (parse_kex_init payload)
parse_kex_init-Ensures payload =
    rw (parse_kex_init-eq_impl payload) (parse_kex_init_impl-Ensures payload)

-- No payload makes the parser panic, so the deferred recovery changes no result.
pub parse_kex_init_no_panic :
    (payload : Bytes)
    → (parse_kex_init_impl payload ≢ panics)
      × (parse_kex_init payload ≡ parse_kex_init_impl payload)
parse_kex_init_no_panic payload =
    (ensured_no_panic (parse_kex_init_impl-Ensures payload), parse_kex_init-eq_impl payload)

-- If a payload is parsed, it is a packet of RFC 4253: message type 20, at most `max_payload_size`
-- bytes, ten name-lists that follow one another from byte 17 with at most `max_total_algorithms`
-- names together, and at least five bytes behind them. The first, third, fifth and seventh list
-- are returned.
pub parse_kex_init-IsPacket :
    (payload : Bytes) {k : KexInit} → parse_kex_init payload ≡ ok k → IsPacket payload k
parse_kex_init-IsPacket payload h = ensured_ok (rw h at (parse_kex_init-Ensures payload))

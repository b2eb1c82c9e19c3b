-- ===== src/Proxy/Handshake/Banner.antt =====
-- The banner that step 1 of `try_parse_handshake` cuts out of a buffer.
use hassh.Common.{
  ℕ, zero, suc, ◌+◌, ◌-◌, ◌≤◌, ◌<◌, ◌≡◌, refl, true, Option, none, some, inl, inr, [], ◌∷◌, ◌++◌,
  append_assoc, arith, ltb, Option-cases, length, length-drop, length-take_of_le, take, drop,
  take-append-drop, ok, ◌>>=◌, slice, slice-eq-ok, slice-length, Ensures, ensures_ok, ensures_err,
  Ensures-if, Ensures-bind,
}
use hassh.Text.{
  Bytes, has_prefix, index_of, has_prefix-append_inv, index_of-fits, index_of-has_prefix,
  index_of-append,
}
use hassh.Proxy.Handshake.{
  NotYet, max_banner_length, ssh_prefix, crlf, found, clip_banner, find_banner,
}

-- A banner that a client sent: it begins with `SSH-`, is one line, and is cut to the width of its
-- column.
pub record IsBanner (buf banner : Bytes) : Type 0 where
  pub ssh : has_prefix ssh_prefix banner ≡ true
  pub one_line : index_of banner crlf ≡ none
  pub short : length banner ≤ max_banner_length
  pub before : Bytes
  pub after : Bytes
  pub sent : buf ≡ before ++ (banner ++ after)

-- A banner with an offset in the buffer behind it.
abbrev pub IsCut : Bytes → Bytes × ℕ → Type 0
IsCut buf r = IsBanner buf r.0 × (r.1 ≤ length buf)

-- The text in front of the first occurrence holds no occurrence.
index_of_before :
    (banner t pat : Bytes) {i : ℕ}
    → 0 < length pat
    → index_of (banner ++ t) pat ≡ some i
    → length banner ≤ i
    → index_of banner pat ≡ none
index_of_before banner t pat {i} pos h le = elim (Option-cases (index_of banner pat)) [
  | inl e ↦ e
  | inr (j, e) ↦ absurd (ground (arith, index_of-append banner t pat e, index_of-fits banner pat e))
]

-- A line that begins with `SSH-` does not end within these four bytes.
crlf_behind_ssh :
    (s : Bytes) (i : ℕ) → has_prefix ssh_prefix s ≡ true → has_prefix crlf (drop i s) ≡ true → 4 ≤ i
unfolding has_prefix
crlf_behind_ssh [] i h k = cc
crlf_behind_ssh (a ∷ s) zero h k = absurd (ground arith)
crlf_behind_ssh (a ∷ []) (suc i) h k = absurd (ground arith)
crlf_behind_ssh (a ∷ b ∷ s) (suc zero) h k = absurd (ground arith)
crlf_behind_ssh (a ∷ b ∷ []) (suc (suc i)) h k = absurd (ground arith)
crlf_behind_ssh (a ∷ b ∷ c ∷ s) (suc (suc zero)) h k = absurd (ground arith)
crlf_behind_ssh (a ∷ b ∷ c ∷ []) (suc (suc (suc i))) h k = absurd (ground arith)
crlf_behind_ssh (a ∷ b ∷ c ∷ d ∷ s) (suc (suc (suc zero))) h k = absurd (ground arith)
crlf_behind_ssh (a ∷ b ∷ c ∷ d ∷ s) (suc (suc (suc (suc i)))) h k = omega arith

-- A prefix of what follows `SSH-`, at least these four bytes and at most up to the CRLF.
module _ (buf : Bytes) (idx end_idx : ℕ) (at : index_of buf ssh_prefix ≡ some idx)
    (ends : index_of (drop idx buf) crlf ≡ some end_idx) where
  four : 4 ≤ end_idx
  four =
      crlf_behind_ssh (drop idx buf) end_idx (index_of-has_prefix buf ssh_prefix idx at)
        (index_of-has_prefix (drop idx buf) crlf end_idx ends)

  IsBanner-of :
      (banner t : Bytes)
      → banner ++ t ≡ drop idx buf
      → 4 ≤ length banner
      → length banner ≤ end_idx
      → length banner ≤ max_banner_length
      → IsBanner buf banner
  IsBanner-of banner t e long le short = record {
    ssh =
        has_prefix-append_inv ssh_prefix banner t long
          (rw e (index_of-has_prefix buf ssh_prefix idx at));
    one_line = index_of_before banner t crlf (omega arith) (rw e ends) le;
    short = short;
    before = take idx buf;
    after = t;
    sent = rw (e, take-append-drop);
  }

  room : idx + end_idx + 2 ≤ length buf
  room = omega (
    arith,
    index_of-fits (drop idx buf) crlf ends,
    index_of-fits buf ssh_prefix at,
    length-drop idx buf,
  )

  length-line : length (take end_idx (drop idx buf)) ≡ end_idx
  length-line = length-take_of_le end_idx (drop idx buf) (omega (arith, room, length-drop idx buf))

  clipped :
      max_banner_length ≤ length (take end_idx (drop idx buf))
      → Ensures
          (IsBanner buf)
          (λ _. Unit {0})
          (slice {E = NotYet} (take end_idx (drop idx buf)) 0 max_banner_length)
  clipped long =
      let line = take end_idx (drop idx buf) in
      let n : length (take max_banner_length line) ≡ max_banner_length =
        length-take_of_le max_banner_length line long in
      rw (slice-eq-ok line 0 max_banner_length (omega arith) long) (
        ensures_ok (
          IsBanner-of (take max_banner_length line)
            (drop max_banner_length line ++ drop end_idx (drop idx buf))
            (rw (← append_assoc, take-append-drop) (take-append-drop end_idx (drop idx buf)))
            (omega (arith, n)) (omega (arith, n, length-line)) (omega (arith, n))))

  clip_banner-Ensures :
      Ensures (IsBanner buf) (λ _. Unit {0}) (clip_banner (take end_idx (drop idx buf)))
  unfolding clip_banner
  clip_banner-Ensures =
      Ensures-if (ltb max_banner_length (length (take end_idx (drop idx buf))))
        (λ long. clipped (ground arith))
        (λ short. ensures_ok (
          IsBanner-of (take end_idx (drop idx buf)) (drop end_idx (drop idx buf))
            (take-append-drop end_idx (drop idx buf)) (omega (arith, four, length-line))
            (omega (arith, length-line)) (ground arith)))

  line-Ensures :
      Ensures
        (IsCut buf)
        (λ _. Unit {0})
        (do
          line ← slice {E = NotYet} buf idx (idx + end_idx)
          client_banner ← clip_banner line
          ok (client_banner, idx + end_idx + 2))
  line-Ensures =
      let n : idx + end_idx - idx ≡ end_idx = omega arith in
      rw (slice-eq-ok buf idx (idx + end_idx) (omega arith) (omega (arith, room)), n)
        (Ensures-bind clip_banner-Ensures λ banner b. ensures_ok (b, room))

found-Ensures : (o : Option ℕ) → Ensures (λ i. o ≡ some i) (λ _. Unit {0}) (found o)
found-Ensures none = ensures_err tt
found-Ensures (some i) = ensures_ok refl

pub find_banner-Ensures : (buf : Bytes) → Ensures (IsCut buf) (λ _. Unit {0}) (find_banner buf)
unfolding find_banner
find_banner-Ensures buf =
    Ensures-bind (found-Ensures (index_of buf ssh_prefix)) λ idx at. from_idx idx at
  where
    from_idx :
        (idx : ℕ)
        → index_of buf ssh_prefix ≡ some idx
        → Ensures
            (IsCut buf)
            (λ _. Unit {0})
            (do
              from_banner ← slice buf idx (length buf)
              end_idx ← found (index_of from_banner crlf)
              line ← slice buf idx (idx + end_idx)
              client_banner ← clip_banner line
              ok (client_banner, idx + end_idx + 2))
    from_idx idx at = rw (slice-length buf idx (omega (arith, index_of-fits buf ssh_prefix at))) (
        Ensures-bind (found-Ensures (index_of (drop idx buf) crlf))
          λ end_idx ends. line-Ensures buf idx end_idx at ends)

-- ===== src/Hassh/NameList/Totality.antt =====
-- What `parse_name_list` returns on any buffer and offset.
use hassh.Common.{
  ℕ, ◌+◌, ◌-◌, ◌≤◌, ◌≡◌, ◌≢◌, refl, sym, subst, true, inl, inr, List, [], ◌∷◌, arith, ltb, leb,
  leb→le, ◌==◌, Bool-cases, length, length-drop, take, drop, All, ok, panics, be_uint32, ◌>>=◌,
  slice, slice-eq-ok, slice-length, be_uint32-total, Ensures, ensures_ok, ensures_err, ensured_ok,
  ensured_no_panic, recover-eq_self, Ensures-mono, Ensures-guard, Ensures-if, Ensures-bind,
  Ensures-map_err,
}
use hassh.Text.{Bytes, is_empty, trim_space, split}
use hassh.Hassh.Names.{
  Sentinel, buffer_too_short, panicked, max_name_list_length, max_algorithm_count,
  sanitize_algorithm_names,
}
use hassh.Hassh.Names.Valid.{IsValidName}
use hassh.Hassh.Names.Sanitized.{cleaned, all_valid, all_valid_sound, sanitize_algorithm_names_lem}
use hassh.Hassh.NameList.{names_of, read_names, parse_name_list_body, parse_name_list}

-- A name-list that was read from `offset`, up to the offset behind it.
pub record IsNameList (buf : Bytes) (offset : ℕ) (r : List Bytes × ℕ) : Type 0 where
  pub valid : All IsValidName r.0
  pub few : length r.0 ≤ max_algorithm_count
  pub advances : offset + 4 ≤ r.1
  pub within : r.1 ≤ length buf
  pub small : r.1 ≤ offset + 4 + max_name_list_length
  pub length_field : be_uint32 {E = Sentinel × ℕ} (drop offset buf) ≡ ok (r.1 - (offset + 4))
  pub content : r.0 ≡ cleaned (split (take (r.1 - (offset + 4)) (drop (offset + 4) buf)) b',')

-- An error of the parser: not the one of a recovered panic, and beside it an offset that has not
-- passed the end of the buffer unless it is the one passed in.
abbrev pub IsNameListError : ℕ → Sentinel × ℕ → Type 0
IsNameListError offset e = (e.0 ≢ panicked) × (offset ≤ e.1)

length-cleaned-le : (names : List Bytes) → length (cleaned names) ≤ length names
length-cleaned-le [] = omega arith
length-cleaned-le (name ∷ names) = elim (Bool-cases (is_empty (trim_space name))) [
  | inl e ↦ rw e (omega (arith, length-cleaned-le names))
  | inr e ↦ rw e (omega (arith, length-cleaned-le names))
]

-- The names are the cleaned parts.
abbrev pub AreNamesOf : Bytes → List Bytes → Type 0
AreNamesOf raw names =
    All IsValidName names
    × (length names ≤ max_algorithm_count)
    × (names ≡ cleaned (split raw b','))

sanitize-Ensures :
    (names : List Bytes)
    → Ensures
        (λ r. All IsValidName r × (r ≡ cleaned names))
        (λ e. e ≢ panicked)
        (sanitize_algorithm_names names)
sanitize-Ensures names = rw (sanitize_algorithm_names_lem names) (
    Ensures-if (all_valid (cleaned names))
      (λ valid. ensures_ok (all_valid_sound (cleaned names) valid, refl))
      (λ invalid. ensures_err cc))

names_of-Ensures :
    (raw : Bytes) (offset : ℕ)
    → Ensures
        (λ r. AreNamesOf raw r.0 × (r.1 ≡ offset))
        (IsNameListError offset)
        (names_of raw offset)
unfolding names_of
names_of-Ensures raw offset =
    Ensures-guard _ _ (λ _. (cc, omega arith))
      λ few.
        Ensures-bind (Ensures-map_err _ (λ e ne. (ne, omega arith)) (sanitize-Ensures _))
          λ names r. ensures_ok ((r.0, bounded names r.1 (leb→le _ _ few), r.1), refl)
  where
    bounded :
        (names : List Bytes)
        → names ≡ cleaned (split raw b',')
        → length (split raw b',') ≤ max_algorithm_count
        → length names ≤ max_algorithm_count
    bounded names e few = rw e (omega (arith, length-cleaned-le (split raw b',')))

cleaned-nil : cleaned (split [] b',') ≡ []
unfolding split trim_space
cleaned-nil = refl

-- A list of `list_len` bytes behind its length field.
module _ (buf : Bytes) (list_len offset : ℕ) (fits : offset + 4 + list_len ≤ length buf)
    (small : list_len ≤ max_name_list_length)
    (field : be_uint32 {E = Sentinel × ℕ} (drop offset buf) ≡ ok list_len) where
  span : offset + 4 + list_len - (offset + 4) ≡ list_len
  span = omega arith

  IsNameList-names :
      (names : List Bytes)
      → AreNamesOf (take list_len (drop (offset + 4) buf)) names
      → IsNameList buf offset (names, offset + 4 + list_len)
  IsNameList-names names (valid, few, content) = record {
    valid = valid;
    few = few;
    advances = omega arith;
    within = omega arith;
    small = omega arith;
    length_field = rw span field;
    content = rw span content;
  }

  named :
      (r : List Bytes × ℕ)
      → AreNamesOf (take list_len (drop (offset + 4) buf)) r.0 × (r.1 ≡ offset + 4 + list_len)
      → IsNameList buf offset r
  named r (h, e) = subst (λ n. IsNameList buf offset (r.0, n)) (sym e) (IsNameList-names r.0 h)

  copied-Ensures : Ensures (IsNameList buf offset) (IsNameListError offset) (do
    copied ← slice buf (offset + 4) (offset + 4 + list_len)
    names_of copied (offset + 4 + list_len))
  copied-Ensures =
      rw (slice-eq-ok buf (offset + 4) (offset + 4 + list_len) (omega arith) fits, span)
        (Ensures-mono named (λ e q. (q.0, omega arith)) (names_of-Ensures _ _))

  empty-Ensures :
      list_len ≡ 0
      → Ensures {E = Sentinel × ℕ}
          (IsNameList buf offset)
          (IsNameListError offset)
          (ok ([], offset + 4))
  empty-Ensures e =
      let end : offset + 4 + list_len ≡ offset + 4 = omega arith in
      let blank : AreNamesOf (take list_len (drop (offset + 4) buf)) [] =
        (tt, omega arith, rw e (sym cleaned-nil)) in
      ensures_ok (subst (λ n. IsNameList buf offset ([], n)) end (IsNameList-names [] blank))

read_names-Ensures :
    (buf : Bytes) (list_len offset : ℕ)
    → offset + 4 ≤ length buf
    → be_uint32 {E = Sentinel × ℕ} (drop offset buf) ≡ ok list_len
    → Ensures
        (IsNameList buf offset)
        (IsNameListError offset)
        (read_names buf list_len (offset + 4))
unfolding read_names
read_names-Ensures buf list_len offset h field =
    Ensures-guard _ _ (λ _. (cc, omega arith))
      λ small.
        Ensures-guard _ _ (λ _. (cc, omega arith))
          λ fits.
            Ensures-if _
              (λ e.
                empty-Ensures buf list_len offset (room fits) (leb→le _ _ small) field (no_bytes e))
              (λ e. copied-Ensures buf list_len offset (room fits) (leb→le _ _ small) field)
  where
    room : leb list_len (length buf - (offset + 4)) ≡ true → offset + 4 + list_len ≤ length buf
    room fits = omega (arith, leb→le _ _ fits)

    no_bytes : list_len == 0 ≡ true → list_len ≡ 0
    no_bytes e = ground arith

parse_name_list_body-Ensures :
    (buf : Bytes) (offset : ℕ)
    → Ensures (IsNameList buf offset) (IsNameListError offset) (parse_name_list_body buf offset)
unfolding parse_name_list_body
parse_name_list_body-Ensures buf offset =
    Ensures-guard (ltb offset (length buf)) (buffer_too_short, offset) (λ _. (cc, omega arith))
      λ _.
        Ensures-guard (leb (offset + 4) (length buf)) (buffer_too_short, offset)
          (λ _. (cc, omega arith)) λ fits. from_field (leb→le _ _ fits)
  where
    from_field :
        offset + 4 ≤ length buf
        → Ensures (IsNameList buf offset) (IsNameListError offset) (do
          field ← slice buf offset (length buf)
          list_len ← be_uint32 field
          read_names buf list_len (offset + 4))
    from_field fits =
        let enough : 4 ≤ length (drop offset buf) = omega (arith, length-drop offset buf) in
        let (list_len, e) = be_uint32-total {E = Sentinel × ℕ} (drop offset buf) enough in
        rw (slice-length buf offset (omega arith), e)
          (read_names-Ensures buf list_len offset fits e)

pub parse_name_list-Ensures :
    (buf : Bytes) (offset : ℕ)
    → Ensures (IsNameList buf offset) (IsNameListError offset) (parse_name_list buf offset)
unfolding parse_name_list
parse_name_list-Ensures buf offset =
    let body = parse_name_list_body-Ensures buf offset in
    rw (recover-eq_self (panicked, offset) body) body

-- No buffer and no offset make the parser panic, so the deferred recovery changes no result.
pub parse_name_list_no_panic :
    (buf : Bytes) (offset : ℕ)
    → (parse_name_list_body buf offset ≢ panics)
      × (parse_name_list buf offset ≡ parse_name_list_body buf offset)
parse_name_list_no_panic buf offset = (
  ensured_no_panic (parse_name_list_body-Ensures buf offset),
  unfold parse_name_list in
      recover-eq_self (panicked, offset) (parse_name_list_body-Ensures buf offset),
)

-- If a name-list is read from `offset`, it lies within the buffer behind a length field that holds
-- its length, at most `max_name_list_length`; the names are its parts between commas, trimmed and
-- without the blank ones, at most `max_algorithm_count`, and each is valid.
pub parse_name_list-IsNameList :
    (buf : Bytes) (offset : ℕ) {r : List Bytes × ℕ}
    → parse_name_list buf offset ≡ ok r
    → IsNameList buf offset r
parse_name_list-IsNameList buf offset h = ensured_ok (rw h at (parse_name_list-Ensures buf offset))

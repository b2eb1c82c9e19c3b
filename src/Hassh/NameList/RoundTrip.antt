-- ===== src/Hassh/NameList/RoundTrip.antt =====
-- RFC 4251 name-lists, written and read back.
use native.Mathlib.Nat.{add-zero}
use hassh.Common.{
  ℕ, ◌+◌, ◌-◌, ◌/◌, ◌%◌, ◌^◌, ◌≤◌, ◌<◌, ◌≡◌, ◌≢◌, refl, false, ap, List, [], ◌∷◌, ◌++◌, arith,
  length, length-append, take-append, length-drop, drop, drop-drop, slice, All, ok, be_uint32,
  slice-eq-ok, slice-length, lt→ltb, le→leb, append_assoc, ◌==◌,
}
use hassh.Text.{Bytes, join, split-join, Lacks}
use hassh.Hassh.Names.{max_name_list_length, max_algorithm_count}
use hassh.Hassh.Names.Valid.{IsNameByte, IsValidName}
use hassh.Hassh.Names.Sanitized.{sanitize_algorithm_names-eq_self}
use hassh.Hassh.NameList.{names_of, read_names, parse_name_list_body, parse_name_list}

-- A uint32 in network byte order.
abbrev pub put_uint32 : ℕ → Bytes
put_uint32 n = (n / 2 ^ 24 % 256) ∷ (n / 2 ^ 16 % 256) ∷ (n / 2 ^ 8 % 256) ∷ (n % 256) ∷ []

unfoldable pub put_name_list : List Bytes → Bytes
put_name_list names = put_uint32 (length (join names b',')) ++ join names b','

-- What a name-list may hold.
pub record IsSendable (names : List Bytes) : Type 0 where
  pub valid : All IsValidName names
  pub few : length names ≤ max_algorithm_count
  pub small : length (join names b',') ≤ max_name_list_length

pub be_uint32-put_uint32 :
    {E : Type 0} (n : ℕ) (rest : Bytes)
    → n < 2 ^ 32
    → be_uint32 {E = E} (put_uint32 n ++ rest) ≡ ok n
unfolding be_uint32
be_uint32-put_uint32 n rest h = ap ok (omega arith)

IsValidName-Lacks : (name : Bytes) → All IsNameByte name → Lacks b',' name
IsValidName-Lacks [] h = tt
IsValidName-Lacks (c ∷ name) (hc, h) = (hc.2, IsValidName-Lacks name h)

pub All-Lacks : (names : List Bytes) → All IsValidName names → All (Lacks b',') names
All-Lacks [] h = tt
All-Lacks (name ∷ names) (v, h) = (IsValidName-Lacks name v.bytes, All-Lacks names h)

names_of-join :
    (names : List Bytes) (offset : ℕ)
    → names ≢ []
    → IsSendable names
    → names_of (join names b',') offset ≡ ok (names, offset)
unfolding names_of
names_of-join names offset ne s = rw (
  split-join names b',' ne (All-Lacks names s.valid),
  le→leb _ _ s.few,
  sanitize_algorithm_names-eq_self names s.valid,
)

pub length-join-pos :
    (names : List Bytes) → names ≢ [] → All IsValidName names → 0 < length (join names b',')
unfolding join
length-join-pos [] ne h = absurd (ne refl)
length-join-pos (p ∷ []) ne (v, _) = v.nonempty
length-join-pos (p ∷ q ∷ ps) ne (v, _) =
    omega (arith, v.nonempty, length-append p (b',' ∷ join (q ∷ ps) b','))

-- A written list stands in a buffer at an offset.
module _ (buf : Bytes) (offset : ℕ) (names : List Bytes) (rest : Bytes)
    (here : drop offset buf ≡ put_name_list names ++ rest) (s : IsSendable names) where
  room : offset + 4 + length (join names b',') ≤ length buf
  unfolding put_name_list
  room = omega (arith, length-drop offset buf, ap length here, length-append (join names b',') rest)

  body_there : drop (offset + 4) buf ≡ join names b',' ++ rest
  unfolding put_name_list
  body_there = rw (← drop-drop offset 4 buf, here)

  slice_there :
      {E : Type 0}
      → slice {E = E} buf (offset + 4) (offset + 4 + length (join names b','))
        ≡ ok (join names b',')
  slice_there =
      let n : offset + 4 + length (join names b',') - (offset + 4) ≡ length (join names b',') =
        omega arith in
      rw (slice-eq-ok buf (offset + 4) _ (omega arith) room, n, body_there, take-append)

  remaining : length (join names b',') ≤ length buf - (offset + 4)
  remaining = omega (arith, room)

  length-put : offset + 4 + length (join names b',') ≡ offset + length (put_name_list names)
  unfolding put_name_list
  length-put = omega arith

  field_there : {E : Type 0} → be_uint32 {E = E} (drop offset buf) ≡ ok (length (join names b','))
  unfolding put_name_list
  field_there = rw (
    here,
    append_assoc (put_uint32 (length (join names b','))) (join names b',') rest,
    be_uint32-put_uint32 (length (join names b',')) (join names b',' ++ rest)
        (omega (arith, s.small)),
  )

ne_zero : (n : ℕ) → 0 < n → (n == 0) ≡ false
ne_zero n h = ground arith

read_names-put :
    (buf : Bytes) (offset : ℕ) (names : List Bytes) (rest : Bytes)
    → drop offset buf ≡ put_name_list names ++ rest
    → IsSendable names
    → read_names buf (length (join names b',')) (offset + 4)
      ≡ ok (names, offset + 4 + length (join names b','))
read_names-put buf offset [] rest here s =
    unfold read_names join in rw (le→leb 0 (length buf - (offset + 4)) (omega arith), add-zero)
read_names-put buf offset (p ∷ ps) rest here s =
    unfold read_names in
    rw (
      le→leb (length (join (p ∷ ps) b',')) max_name_list_length s.small,
      le→leb _ _ (remaining buf offset (p ∷ ps) rest here s),
      ne_zero _ (length-join-pos (p ∷ ps) (cc) s.valid),
      slice_there buf offset (p ∷ ps) rest here s,
      names_of-join (p ∷ ps) (offset + 4 + length (join (p ∷ ps) b',')) (cc) s,
    )

-- A written list of valid names is read back wherever it stands, and the offset behind it is
-- returned: at most `max_algorithm_count` names, in at most `max_name_list_length` bytes.
pub parse_name_list-put_name_list :
    (buf : Bytes) (offset : ℕ) (names : List Bytes) (rest : Bytes)
    → drop offset buf ≡ put_name_list names ++ rest
    → IsSendable names
    → parse_name_list buf offset ≡ ok (names, offset + length (put_name_list names))
unfolding parse_name_list parse_name_list_body
parse_name_list-put_name_list buf offset names rest here s =
    let fits = room buf offset names rest here s in
    rw (
      lt→ltb offset (length buf) (omega arith),
      le→leb (offset + 4) (length buf) (omega arith),
      slice-length buf offset (omega arith),
      field_there buf offset names rest here s,
      read_names-put buf offset names rest here s,
      length-put buf offset names rest here s,
    )

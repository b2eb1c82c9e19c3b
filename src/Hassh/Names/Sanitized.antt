-- ===== src/Hassh/Names/Sanitized.antt =====
-- What `sanitize_algorithm_names` returns, on every list of names.
use hassh.Common.{
  ℕ, ◌+◌, ◌≡◌, refl, Bool, true, ◌&&◌, inl, inr, List, [], ◌∷◌, ◌++◌, append_assoc, append-nil,
  arith, if◌then◌else◌, Bool-cases, length, All, Result, ok, err,
}
use hassh.Text.{Bytes, IsPrintable, is_empty, trim_space, trim_space-printable}
use hassh.Hassh.Names.{
  Sentinel, invalid_algorithm_name, is_valid_algorithm_name, count_names, sanitize_from,
  sanitize_algorithm_names,
}
use hassh.Hassh.Names.Valid.{IsNameByte, IsValidName, is_valid_algorithm_name_iff}

-- The specification: trim every name, drop the blank ones.
abbrev pub cleaned : List Bytes → List Bytes
cleaned [] = []
cleaned (name ∷ names) =
    if is_empty (trim_space name) then cleaned names else trim_space name ∷ cleaned names

abbrev pub all_valid : List Bytes → Bool
all_valid [] = true
all_valid (name ∷ names) = is_valid_algorithm_name name && all_valid names

abbrev or_invalid : List Bytes → List Bytes → Result Sentinel (List Bytes)
or_invalid result names =
    if all_valid names then ok (result ++ names) else err invalid_algorithm_name

sanitize_from_lem :
    (result names : List Bytes) → sanitize_from result names ≡ or_invalid result (cleaned names)
unfolding sanitize_from
sanitize_from_lem result [] = rw append-nil
sanitize_from_lem result (name ∷ names) = elim (Bool-cases (is_empty (trim_space name))) [
  | inl blank ↦ rw blank (sanitize_from_lem result names)
  | inr full ↦ rw full (elim (Bool-cases (is_valid_algorithm_name (trim_space name))) [
    | inl valid ↦
        rw (valid, sanitize_from_lem (result ++ trim_space name ∷ []) names) (rw append_assoc)
    | inr invalid ↦ rw invalid
  ])
]

-- Sanitising trims every name and drops the blank ones; the result is all of these if each is
-- valid, and the error `invalid_algorithm_name` otherwise. It never panics.
pub sanitize_algorithm_names_lem :
    (names : List Bytes)
    → sanitize_algorithm_names names
      ≡ (if all_valid (cleaned names) then ok (cleaned names) else err invalid_algorithm_name)
unfolding sanitize_algorithm_names
sanitize_algorithm_names_lem [] = refl
sanitize_algorithm_names_lem (name ∷ names) = sanitize_from_lem [] (name ∷ names)

count_names_lem : (n : ℕ) (names : List Bytes) → count_names n names ≡ n + length (cleaned names)
unfolding count_names
count_names_lem n [] = omega arith
count_names_lem n (name ∷ names) = elim (Bool-cases (is_empty (trim_space name))) [
  | inl blank ↦ rw blank (count_names_lem n names)
  | inr full ↦ rw full (omega (arith, count_names_lem (n + 1) names))
]

pub all_valid_sound : (names : List Bytes) → all_valid names ≡ true → All IsValidName names
all_valid_sound [] h = tt
all_valid_sound (name ∷ names) h =
    ((is_valid_algorithm_name_iff name).0 (ground arith), all_valid_sound names (ground arith))

pub all_valid_complete : (names : List Bytes) → All IsValidName names → all_valid names ≡ true
all_valid_complete [] h = refl
all_valid_complete (name ∷ names) (v, h) =
    rw ((is_valid_algorithm_name_iff name).1 v) (all_valid_complete names h)

-- If sanitising succeeds, every name of the result is valid, and the capacity that the first loop
-- counted is exactly their number.
pub sanitize_algorithm_names-IsValidName :
    (names : List Bytes) {result : List Bytes}
    → sanitize_algorithm_names names ≡ ok result
    → All IsValidName result × (length result ≡ count_names 0 names)
sanitize_algorithm_names-IsValidName names {result} h =
    elim (Bool-cases (all_valid (cleaned names))) [
      | inl valid ↦
          let e : cleaned names ≡ result = ground (arith, sanitize_algorithm_names_lem names) in
          rw (← e) (all_valid_sound (cleaned names) valid, omega (arith, count_names_lem 0 names))
      | inr invalid ↦ absurd (ground (arith, sanitize_algorithm_names_lem names))
    ]

IsValidName-IsPrintable : (name : Bytes) → All IsNameByte name → All IsPrintable name
IsValidName-IsPrintable [] h = tt
IsValidName-IsPrintable (c ∷ name) (hc, h) = ((hc.0, hc.1), IsValidName-IsPrintable name h)

pub trim_space-IsValidName : (name : Bytes) → IsValidName name → trim_space name ≡ name
trim_space-IsValidName name v = trim_space-printable name (IsValidName-IsPrintable name v.bytes)

cleaned-IsValidName : (names : List Bytes) → All IsValidName names → cleaned names ≡ names
cleaned-IsValidName [] h = refl
cleaned-IsValidName ([] ∷ names) (v, h) = absurd (omega (arith, v.nonempty))
cleaned-IsValidName ((c ∷ name) ∷ names) (v, h) =
    rw (trim_space-IsValidName (c ∷ name) v, cleaned-IsValidName names h)

-- A list of valid names is returned as it is.
pub sanitize_algorithm_names-eq_self :
    (names : List Bytes) → All IsValidName names → sanitize_algorithm_names names ≡ ok names
sanitize_algorithm_names-eq_self names h =
    rw (sanitize_algorithm_names_lem names, cleaned-IsValidName names h, all_valid_complete names h)

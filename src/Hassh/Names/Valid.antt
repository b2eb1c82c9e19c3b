-- ===== src/Hassh/Names/Valid.antt =====
-- Which names are valid, and what sanitising makes of a list of names.
use hassh.Common.{ℕ, ◌≤◌, ◌<◌, ◌≡◌, ◌≢◌, ◌↔◌, refl, true, false, [], ◌∷◌, arith, length, All}
use hassh.Text.{Bytes}
use hassh.Hassh.Names.{scan_name, is_valid_algorithm_name, max_algorithm_name_length}

-- What the comments ask of a name: 1 to 128 printable ASCII bytes other than the comma.
abbrev pub IsNameByte : ℕ → Type 0
IsNameByte c = (33 ≤ c) × (c ≤ 126) × (c ≢ 44)

pub record IsValidName (name : Bytes) : Type 0 where
  pub nonempty : 0 < length name
  pub fits : length name ≤ max_algorithm_name_length
  pub bytes : All IsNameByte name

scan_name-false : (name : Bytes) → scan_name false name ≡ false
unfolding scan_name
scan_name-false [] = refl
scan_name-false (c ∷ name) = ground (arith, scan_name-false name)

scan_name_sound : (name : Bytes) → scan_name true name ≡ true → All IsNameByte name
unfolding scan_name
scan_name_sound [] h = tt
scan_name_sound (c ∷ name) h = ground (arith, scan_name_sound name, scan_name-false name)

scan_name_complete : (name : Bytes) → All IsNameByte name → scan_name true name ≡ true
unfolding scan_name
scan_name_complete [] h = refl
scan_name_complete (c ∷ name) h = ground (arith, scan_name_complete name)

-- The scan accepts exactly the names of 1 to 128 printable bytes other than the comma.
pub is_valid_algorithm_name_iff :
    (name : Bytes) → (is_valid_algorithm_name name ≡ true) ↔ IsValidName name
unfolding is_valid_algorithm_name
is_valid_algorithm_name_iff [] = (λ h. cc, λ h. absurd (omega (arith, h.nonempty)))
is_valid_algorithm_name_iff (c ∷ name) = (
  λ h. record {
    nonempty = omega arith;
    fits = ground arith;
    bytes = scan_name_sound (c ∷ name) (ground arith);
  },
  λ h. ground (arith, h.fits, scan_name_complete (c ∷ name) h.bytes),
)

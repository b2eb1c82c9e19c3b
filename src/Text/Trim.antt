-- ===== src/Text/Trim.antt =====
-- `trim_space` leaves alone what begins and ends with a printable ASCII byte.
use mathlib.Core.List.{reverse, reverse-cons, reverse-reverse}
use hassh.Common.{ℕ, ◌≤◌, ◌≡◌, refl, [], ◌∷◌, arith, All, All-append}
use hassh.Text.Defs.{Bytes, trim_left, trim_right_reversed, trim_space}

abbrev pub IsPrintable : ℕ → Type 0
IsPrintable c = (33 ≤ c) × (c ≤ 126)

trim_left-printable : (s : Bytes) → All IsPrintable s → trim_left s ≡ s
unfolding trim_left
trim_left-printable [] h = refl
trim_left-printable (c ∷ []) h = ground arith
trim_left-printable (c ∷ b ∷ []) h = ground arith
trim_left-printable (c ∷ b ∷ d ∷ s) (h, _) = ground arith

trim_right_reversed-printable : (s : Bytes) → All IsPrintable s → trim_right_reversed s ≡ s
unfolding trim_right_reversed
trim_right_reversed-printable [] h = refl
trim_right_reversed-printable (c ∷ []) h = ground arith
trim_right_reversed-printable (c ∷ b ∷ []) h = ground arith
trim_right_reversed-printable (c ∷ b ∷ d ∷ s) (h, _) = ground arith

All-reverse : (s : Bytes) → All IsPrintable s → All IsPrintable (reverse s)
All-reverse [] h = tt
All-reverse (c ∷ s) (hc, h) =
    rw reverse-cons (All-append IsPrintable (reverse s) (c ∷ []) (All-reverse s h) (hc, tt))

-- A text of printable bytes has no space to trim.
pub trim_space-printable : (s : Bytes) → All IsPrintable s → trim_space s ≡ s
unfolding trim_space
trim_space-printable s h = rw (
  trim_left-printable s h,
  trim_right_reversed-printable (reverse s) (All-reverse s h),
  reverse-reverse,
)

-- ===== src/Text/Find.antt =====
-- `index_of` finds an occurrence, and more text behind does not move it.
use hassh.Common.{
  ℕ, zero, suc, ◌+◌, ◌≤◌, ◌<◌, ◌≡◌, ◌↔◌, refl, true, false, inl, inr, some, [], ◌∷◌, ◌++◌, arith,
  Bool-cases, Option-cases, length, drop,
}
use hassh.Text.Defs.{Bytes, same, has_prefix, index_of}

-- `same` decides equality.
pub same_iff : (a b : Bytes) → (same a b ≡ true) ↔ (a ≡ b)
unfolding same
same_iff [] [] = ground arith
same_iff [] (y ∷ ys) = ground arith
same_iff (x ∷ xs) [] = ground arith
same_iff (x ∷ xs) (y ∷ ys) = ground (arith, same_iff xs ys)

pub same_refl : (a : Bytes) → same a a ≡ true
same_refl a = (same_iff a a).1 refl

pub has_prefix-append : (pat s t : Bytes) → has_prefix pat s ≡ true → has_prefix pat (s ++ t) ≡ true
unfolding has_prefix
has_prefix-append [] s t h = refl
has_prefix-append (p ∷ ps) [] t h = cc
has_prefix-append (p ∷ ps) (c ∷ s) t h = ground (arith, has_prefix-append ps s t)

has_prefix-length : (pat s : Bytes) → has_prefix pat s ≡ true → length pat ≤ length s
unfolding has_prefix
has_prefix-length [] s h = omega arith
has_prefix-length (p ∷ ps) [] h = cc
has_prefix-length (p ∷ ps) (c ∷ s) h = ground (arith, has_prefix-length ps s)

pub has_prefix-append_inv :
    (pat s t : Bytes)
    → length pat ≤ length s
    → has_prefix pat (s ++ t) ≡ true
    → has_prefix pat s ≡ true
unfolding has_prefix
has_prefix-append_inv [] s t le h = refl
has_prefix-append_inv (p ∷ ps) [] t le h = absurd (omega arith)
has_prefix-append_inv (p ∷ ps) (c ∷ s) t le h = ground (arith, has_prefix-append_inv ps s t)

-- What is found lies within the text.
pub index_of-fits : (s pat : Bytes) {i : ℕ} → index_of s pat ≡ some i → i + length pat ≤ length s
unfolding index_of
index_of-fits [] pat h = cc
index_of-fits (c ∷ s) pat h = elim (Bool-cases (has_prefix pat (c ∷ s))) [
  | inl here ↦ ground (arith, has_prefix-length pat (c ∷ s) here)
  | inr there ↦ elim (Option-cases (index_of s pat)) [
    | inl e ↦ ground arith
    | inr (j, e) ↦ ground (arith, index_of-fits s pat e)
  ]
]

-- The pattern stands where it is found.
pub index_of-has_prefix :
    (s pat : Bytes) (i : ℕ) → index_of s pat ≡ some i → has_prefix pat (drop i s) ≡ true
unfolding index_of
index_of-has_prefix [] pat i h = cc
index_of-has_prefix (c ∷ s) pat zero h = ground arith
index_of-has_prefix (c ∷ s) pat (suc i) h = elim (Bool-cases (has_prefix pat (c ∷ s))) [
  | inl here ↦ ground arith
  | inr there ↦ elim (Option-cases (index_of s pat)) [
    | inl e ↦ ground arith
    | inr (j, e) ↦ index_of-has_prefix s pat i (ground arith)
  ]
]

-- It stands nowhere before that.
pub index_of_first :
    (s pat : Bytes) (i j : ℕ) → index_of s pat ≡ some i → j < i → has_prefix pat (drop j s) ≡ false
unfolding index_of
index_of_first [] pat i j h lt = cc
index_of_first (c ∷ s) pat i zero h lt = ground arith
index_of_first (c ∷ s) pat i (suc j) h lt = elim (Bool-cases (has_prefix pat (c ∷ s))) [
  | inl here ↦ ground arith
  | inr there ↦ elim (Option-cases (index_of s pat)) [
    | inl e ↦ ground arith
    | inr (k, e) ↦ index_of_first s pat k j e (ground arith)
  ]
]

-- More text behind does not change what is found first.
pub index_of-append :
    (s t pat : Bytes) {i : ℕ} → index_of s pat ≡ some i → index_of (s ++ t) pat ≡ some i
unfolding index_of
index_of-append [] t pat h = cc
index_of-append (c ∷ s) t pat h = elim (Bool-cases (has_prefix pat (c ∷ s))) [
  | inl here ↦ rw (has_prefix-append pat (c ∷ s) t here) (ground arith)
  | inr there ↦ elim (Option-cases (index_of s pat)) [
    | inl e ↦ ground arith
    | inr (j, e) ↦ ground (
      arith,
      index_of-append s t pat e,
      index_of-fits s pat e,
      has_prefix-append_inv pat (c ∷ s) t,
    )
  ]
]

-- ===== src/Common/Extending.antt =====
-- Calls on a buffer and on an extension of it: whatever the first returns, the second returns
-- something related to it.
use Prim.Native.Nat.{ℕ, ◌+◌, ◌-◌, ◌≤◌}
use mathlib.Core.Path.{◌≡◌, refl, sym, ap, ◌∙◌, subst}
use mathlib.Core.Bool.{Bool, true, false}
use mathlib.Core.List.{List, ◌++◌}
use mathlib.Core.Logic.{inl, inr}
use native.Mathlib.Omega.{arith}
use hassh.Common.Tests.{Option-cases}
use hassh.Common.Lists.{
  length, get_elem?, take, drop, length-append, length-drop, take-append_of_le, drop-append_of_le,
  get_elem?-append,
}
use hassh.Common.Errors.{Result, ok, err, panics, ◌>>=◌, ◌>>◌, guard, slice, index}
use hassh.Common.Post.{slice-eq-ok, slice-length}

pub record Extends {E A A' : Type 0} (R : A → A' → Type 0) (m : Result E A) (m' : Result E A')
    : Type 0 where
  pub at : (a : A) → m ≡ ok a → (a' : A') × (m' ≡ ok a') × R a a'

-- Both return the same.
abbrev pub Agrees : {E A : Type 0} → Result E A → Result E A → Type 0
Agrees = Extends (λ a a'. a' ≡ a)

module _ {E A : Type 0} where
  pub Extends-refl : {m : Result E A} → Agrees m m
  Extends-refl = record { at = λ a h. (a, h, refl) }

  pub Agrees-of : {m m' : Result E A} → ((a : A) → m ≡ ok a → m' ≡ ok a) → Agrees m m'
  Agrees-of f = record { at = λ a h. (a, f a h, refl) }

  pub Agrees-eq-ok : {m m' : Result E A} {a : A} → Agrees m m' → m ≡ ok a → m' ≡ ok a
  Agrees-eq-ok {a} s h = let (a', h', e) = s.at a h in h' ∙ ap ok e

module _ {E A B A' B' : Type 0} {R : A → A' → Type 0} {S : B → B' → Type 0} where
  pub Extends-bind :
      {m : Result E A} {m' : Result E A'} {f : A → Result E B} {f' : A' → Result E B'}
      → Extends R m m'
      → ((a : A) (a' : A') → m ≡ ok a → R a a' → Extends S (f a) (f' a'))
      → Extends S (m >>= f) (m' >>= f')
  Extends-bind {m} {m'} {f} {f'} s k = record { at = go m s k }
    where
      go :
          (m : Result E A)
          → Extends R m m'
          → ((a : A) (a' : A') → m ≡ ok a → R a a' → Extends S (f a) (f' a'))
          → (b : B) → (m >>= f) ≡ ok b
          → (b' : B') × ((m' >>= f') ≡ ok b') × S b b'
      go (ok a) s k b h = let (a', h', r) = s.at a refl in rw h' ((k a a' refl r).at b h)
      go (err e) s k b h = cc
      go panics s k b h = cc

module _ {E A B B' : Type 0} {S : B → B' → Type 0} where
  pub Agrees-bind :
      {m m' : Result E A} {f : A → Result E B} {f' : A → Result E B'}
      → Agrees m m'
      → ((a : A) → m ≡ ok a → Extends S (f a) (f' a))
      → Extends S (m >>= f) (m' >>= f')
  Agrees-bind {f} {f'} s k =
      Extends-bind s λ a a' h e. subst (λ x. Extends S (f a) (f' x)) (sym e) (k a h)

  -- The second returns more behind what the first returns.
  pub Grows-bind :
      (more : List A) {m m' : Result E (List A)} {f : List A → Result E B}
      (f' : List A → Result E B')
      → Extends (λ v v'. v' ≡ v ++ more) m m'
      → ((v : List A) → m ≡ ok v → Extends S (f v) (f' (v ++ more)))
      → Extends S (m >>= f) (m' >>= f')
  Grows-bind more {f} f' s k =
      Extends-bind s λ a a' h e. subst (λ x. Extends S (f a) (f' x)) (sym e) (k a h)

module _ {E B B' : Type 0} {S : B → B' → Type 0} where
  pub Extends-guard :
      (b b' : Bool) (e : E) {k : Result E B} {k' : Result E B'}
      → (b ≡ true → b' ≡ true)
      → (b ≡ true → Extends S k k')
      → Extends S (guard b e >> k) (guard b' e >> k')
  Extends-guard true b' e t s = rw (t refl) (s refl)
  Extends-guard false b' e t s = record { at = λ a h. cc }

module _ {E B B' : Type 0} {S : B → B' → Type 0} where
  pub Extends-same_guard :
      (b : Bool) (e : E) {k : Result E B} {k' : Result E B'}
      → (b ≡ true → Extends S k k')
      → Extends S (guard b e >> k) (guard b e >> k')
  Extends-same_guard b e s = Extends-guard b b e (λ h. h) s

pub ok_injective : {E A : Type 0} {a b : A} → ◌≡◌ {A = Result E A} (ok a) (ok b) → a ≡ b
ok_injective h = cc

take-drop-append :
    {A : Type 0} (xs more : List A) (lo n : ℕ)
    → lo + n ≤ length xs
    → take n (drop lo (xs ++ more)) ≡ take n (drop lo xs)
take-drop-append xs more lo n h =
    let room : n ≤ length (drop lo xs) = omega (arith, length-drop lo xs) in
    rw (drop-append_of_le lo xs more (omega arith)) (take-append_of_le n (drop lo xs) more room)

module _ {E A : Type 0} (xs more : List A) where
  slice_bounds :
      (lo hi : ℕ) {v : List A} → slice {E = E} xs lo hi ≡ ok v → (lo ≤ hi) × (hi ≤ length xs)
  unfolding slice
  slice_bounds lo hi h = (ground arith, ground arith)

  cut :
      (lo hi : ℕ) {v : List A}
      → lo ≤ hi
      → hi ≤ length xs
      → slice {E = E} xs lo hi ≡ ok v
      → ◌≡◌ {A = Result E (List A)} (ok (take (hi - lo) (drop lo (xs ++ more)))) (ok v)
  cut lo hi le fits h =
      rw (take-drop-append xs more lo (hi - lo) (omega arith))
        (rw (slice-eq-ok xs lo hi le fits) at h)

  rest :
      (lo : ℕ) {v : List A}
      → slice {E = E} xs lo (length xs) ≡ ok v
      → drop lo (xs ++ more) ≡ v ++ more
  rest lo {v} h =
      let (le, _) = slice_bounds lo (length xs) h in
      let v-eq : drop lo xs ≡ v = ok_injective (rw (slice-length xs lo le) at h) in
      rw (drop-append_of_le lo xs more le, v-eq)

  -- A slice within a list is the same slice of a longer one.
  pub slice-append : (lo hi : ℕ) → Agrees (slice {E = E} xs lo hi) (slice (xs ++ more) lo hi)
  slice-append lo hi = Agrees-of λ v h.
      let (le, fits) = slice_bounds lo hi h in
      let longer : hi ≤ length (xs ++ more) = omega (arith, length-append xs more) in
      rw (slice-eq-ok (xs ++ more) lo hi le longer) (cut lo hi le fits h)

  -- A slice to the end grows by what is appended.
  pub slice_end-append :
      (lo : ℕ)
      → Extends
          (λ v v'. v' ≡ v ++ more)
          (slice {E = E} xs lo (length xs))
          (slice (xs ++ more) lo (length (xs ++ more)))
  slice_end-append lo = record {
    at = λ v h.
        let (le, _) = slice_bounds lo (length xs) h in
        let longer : lo ≤ length (xs ++ more) = omega (arith, length-append xs more) in
        (_, slice-length (xs ++ more) lo longer, rest lo h);
  }

  pub index-append : (i : ℕ) → Agrees (index {E = E} xs i) (index (xs ++ more) i)
  unfolding index
  index-append i = Agrees-of λ a h. elim (Option-cases (get_elem? xs i)) [
    | inl e ↦ absurd (ground arith)
    | inr (b, e) ↦ rw (get_elem?-append xs more i e) (ground arith)
  ]

-- ===== src/Common/Post.antt =====
-- Postconditions of calls: `P` of what is returned, `Q` of an error, and no panic.
use Prim.Native.Nat.{ℕ, ◌-◌, ◌≤◌}
use mathlib.Core.Path.{◌≡◌, refl}
use mathlib.Core.Bool.{Bool, true, false}
use mathlib.Core.List.{List, [], ◌∷◌, ◌++◌}
use mathlib.Core.Logic.{◌≢◌}
use native.Mathlib.Omega.{arith}
use hassh.Common.Tests.{le→leb, if◌then◌else◌}
use hassh.Common.Lists.{length, take, drop, length-drop, take_all}
use hassh.Common.Errors.{
  Result, ok, err, panics, ◌>>=◌, ◌>>◌, guard, map_err, recover, slice, be_uint32,
}

pub data Ensures {E A : Type 0} (P : A → Type 0) (Q : E → Type 0) : Result E A → Type 0 where
  ensures_ok : {a : A} → P a → Ensures P Q (ok a)
  ensures_err : {e : E} → Q e → Ensures P Q (err e)

module _ {E A : Type 0} {P : A → Type 0} {Q : E → Type 0} where
  pub ensured_ok : {a : A} → Ensures P Q (ok a) → P a
  ensured_ok (ensures_ok p) = p

  pub ensured_err : {e : E} → Ensures P Q (err e) → Q e
  ensured_err (ensures_err q) = q

  pub ensured_no_panic : {m : Result E A} → Ensures P Q m → m ≢ panics
  ensured_no_panic (ensures_ok p) = cc
  ensured_no_panic (ensures_err q) = cc

  -- What never panics is not touched by the deferred recovery.
  pub recover-eq_self : {m : Result E A} (e : E) → Ensures P Q m → recover e m ≡ m
  recover-eq_self e (ensures_ok p) = refl
  recover-eq_self e (ensures_err q) = refl

  pub Ensures-guard :
      (b : Bool) (e : E) {k : Result E A}
      → (b ≡ false → Q e)
      → (b ≡ true → Ensures P Q k)
      → Ensures P Q (guard b e >> k)
  Ensures-guard true e q p = p refl
  Ensures-guard false e q p = ensures_err (q refl)

  pub Ensures-if :
      (b : Bool) {m n : Result E A}
      → (b ≡ true → Ensures P Q m)
      → (b ≡ false → Ensures P Q n)
      → Ensures P Q (if b then m else n)
  Ensures-if true p q = p refl
  Ensures-if false p q = q refl

module _ {E A B : Type 0} {R : A → Type 0} {P : B → Type 0} {Q : E → Type 0} where
  pub Ensures-bind :
      {m : Result E A} {f : A → Result E B}
      → Ensures R Q m
      → ((a : A) → R a → Ensures P Q (f a))
      → Ensures P Q (m >>= f)
  Ensures-bind (ensures_ok {a} r) k = k a r
  Ensures-bind (ensures_err q) k = ensures_err q

module _ {E F A : Type 0} {P : A → Type 0} {Q : E → Type 0} {Q' : F → Type 0} where
  pub Ensures-map_err :
      (f : E → F) {m : Result E A}
      → ((e : E) → Q e → Q' (f e))
      → Ensures P Q m
      → Ensures P Q' (map_err f m)
  Ensures-map_err f h (ensures_ok p) = ensures_ok p
  Ensures-map_err f h (ensures_err {e} q) = ensures_err (h e q)

module _ {E A : Type 0} {P P' : A → Type 0} {Q Q' : E → Type 0} where
  pub Ensures-mono :
      {m : Result E A}
      → ((a : A) → P a → P' a)
      → ((e : E) → Q e → Q' e)
      → Ensures P Q m
      → Ensures P' Q' m
  Ensures-mono h k (ensures_ok {a} p) = ensures_ok (h a p)
  Ensures-mono h k (ensures_err {e} q) = ensures_err (k e q)

module _ {E A : Type 0} where
  -- A slice within bounds.
  pub slice-eq-ok :
      (xs : List A) (lo hi : ℕ)
      → lo ≤ hi
      → hi ≤ length xs
      → slice {E = E} xs lo hi ≡ ok (take (hi - lo) (drop lo xs))
  unfolding slice
  slice-eq-ok xs lo hi h k = rw (le→leb lo hi h, le→leb hi (length xs) k)

  -- The slice from an offset to the end.
  pub slice-length :
      (xs : List A) (lo : ℕ) → lo ≤ length xs → slice {E = E} xs lo (length xs) ≡ ok (drop lo xs)
  slice-length xs lo h =
      rw (slice-eq-ok xs lo (length xs) h (omega arith), ← length-drop lo xs, take_all)

-- Four bytes are enough for a uint32.
pub be_uint32-total :
    {E : Type 0} (xs : List ℕ) → 4 ≤ length xs → (n : ℕ) × (be_uint32 {E = E} xs ≡ ok n)
unfolding be_uint32
be_uint32-total [] h = absurd (omega arith)
be_uint32-total (a ∷ []) h = absurd (omega arith)
be_uint32-total (a ∷ b ∷ []) h = absurd (omega arith)
be_uint32-total (a ∷ b ∷ c ∷ []) h = absurd (omega arith)
be_uint32-total (a ∷ b ∷ c ∷ d ∷ xs) h = (_, refl)

-- What is behind the four bytes does not matter.
pub be_uint32-append :
    {E : Type 0} (xs ys : List ℕ) {n : ℕ}
    → be_uint32 {E = E} xs ≡ ok n
    → be_uint32 {E = E} (xs ++ ys) ≡ ok n
unfolding be_uint32
be_uint32-append [] ys h = cc
be_uint32-append (a ∷ []) ys h = cc
be_uint32-append (a ∷ b ∷ []) ys h = cc
be_uint32-append (a ∷ b ∷ c ∷ []) ys h = cc
be_uint32-append (a ∷ b ∷ c ∷ d ∷ xs) ys h = h

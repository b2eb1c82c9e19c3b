-- ===== src/Common/Errors.antt =====
-- What a Go call comes back with: values, an error of type `E`, or a run-time panic. Slices and
-- indexed reads panic out of range; `recover` is the deferred handler that turns a panic into an
-- error.
use Prim.Native.Nat.{ℕ, ◌+◌, ◌-◌, ◌*◌, ◌^◌}
use mathlib.Core.Path.{◌≡◌, refl}
use mathlib.Core.Bool.{Bool, true, false, ◌&&◌}
use mathlib.Core.List.{List, ◌∷◌}
use mathlib.Core.Option.{Option, none, some}
use hassh.Common.Tests.{leb, if◌then◌else◌}
use hassh.Common.Lists.{length, get_elem?, take, drop}

pub data Result {ℓ κ} (E : Type ℓ) (A : Type κ) : Type (ℓ ⊔ κ) where
  ok : A → Result E A
  err : E → Result E A
  panics : Result E A

infixl 5 ◌>>=◌ ◌>>◌
abbrev pub ◌>>=◌ {ℓ κ μ} :
    {E : Type ℓ} {A : Type κ} {B : Type μ} → Result E A → (A → Result E B) → Result E B
ok a >>= f = f a
err e >>= f = err e
panics >>= f = panics

abbrev pub ◌>>◌ {ℓ κ} : {E : Type ℓ} {B : Type κ} → Result E (Unit {0}) → Result E B → Result E B
m >> k = m >>= λ _. k

-- `if !b { return err }`
abbrev pub guard {ℓ} : {E : Type ℓ} → Bool → E → Result E (Unit {0})
guard true e = ok tt
guard false e = err e

-- The error of a call, handled by the caller.
abbrev pub map_err {ℓ κ μ} :
    {E : Type ℓ} {F : Type κ} {A : Type μ} → (E → F) → Result E A → Result F A
map_err f (ok a) = ok a
map_err f (err e) = err (f e)
map_err f panics = panics

-- `defer func() { if r := recover(); r != nil { err = … } }()`
abbrev pub recover {ℓ κ} : {E : Type ℓ} {A : Type κ} → E → Result E A → Result E A
recover e (ok a) = ok a
recover e (err e') = err e'
recover e panics = err e

module _ {ℓ κ} {E : Type ℓ} {A : Type κ} where
  -- xs[lo:hi]. Go allows `hi` up to the capacity; here a slice ends within the length.
  unfoldable pub slice : List A → ℕ → ℕ → Result E (List A)
  slice xs lo hi =
      if leb lo hi && leb hi (length xs) then ok (take (hi - lo) (drop lo xs)) else panics

  abbrev pub or_panic : Option A → Result E A
  or_panic none = panics
  or_panic (some a) = ok a

  -- xs[i]
  unfoldable pub index : List A → ℕ → Result E A
  index xs i = or_panic (get_elem? xs i)

-- binary.BigEndian.Uint32
unfoldable pub be_uint32 {ℓ} : {E : Type ℓ} → List ℕ → Result E ℕ
be_uint32 (a ∷ b ∷ c ∷ d ∷ _) = ok (a * 2 ^ 24 + b * 2 ^ 16 + c * 2 ^ 8 + d)
be_uint32 _ = panics

module _ {ℓ κ μ} {E : Type ℓ} {A : Type κ} {B : Type μ} where
  pub bind-eq-ok :
      (m : Result E A) (f : A → Result E B) {b : B}
      → (m >>= f) ≡ ok b
      → (a : A) × (m ≡ ok a) × (f a ≡ ok b)
  bind-eq-ok (ok a) f h = (a, refl, h)
  bind-eq-ok (err e) f h = cc
  bind-eq-ok panics f h = cc

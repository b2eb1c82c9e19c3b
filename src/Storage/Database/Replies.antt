-- ===== src/Storage/Database/Replies.antt =====
-- A call of the database comes back with a value or an error, and the state that it leaves; and the
-- postconditions of such calls.

pub data DbError : Type 0 where
  record_not_found : DbError
  invalid_data : DbError
  query_failed : DbError

pub data Reply (A : Type 0) : Type 0 where
  done : A → Reply A
  failed : DbError → Reply A

-- `P` of a value and the state behind it, `Q` of an error and the state behind it.
pub data After {A S : Type 0} (P : A → S → Type 0) (Q : DbError → S → Type 0)
    : Reply A × S → Type 0 where
  after_done : {a : A} {s : S} → P a s → After P Q (done a, s)
  after_failed : {e : DbError} {s : S} → Q e s → After P Q (failed e, s)

-- `if err != nil { return err }`
infixl 5 ◌>>=◌
abbrev pub ◌>>=◌ : {S A B : Type 0} → Reply A × S → (A → S → Reply B × S) → Reply B × S
(done a, s) >>= f = f a s
(failed e, s) >>= f = (failed e, s)

module _ {S A B : Type 0} {R : A → S → Type 0} {P : B → S → Type 0} {Q : DbError → S → Type 0} where
  pub After-bind :
      {m : Reply A × S} {f : A → S → Reply B × S}
      → After R Q m
      → ((a : A) (s : S) → R a s → After P Q (f a s))
      → After P Q (m >>= f)
  After-bind (after_done {a} {s} r) k = k a s r
  After-bind (after_failed q) k = after_failed q

module _ {S A : Type 0} {P P' : A → S → Type 0} {Q Q' : DbError → S → Type 0} where
  pub After-mono :
      {m : Reply A × S}
      → ((a : A) (s : S) → P a s → P' a s)
      → ((e : DbError) (s : S) → Q e s → Q' e s)
      → After P Q m
      → After P' Q' m
  After-mono h k (after_done {a} {s} p) = after_done (h a s p)
  After-mono h k (after_failed {e} {s} q) = after_failed (k e s q)

module _ {S A : Type 0} {P : A → S → Type 0} {Q : DbError → S → Type 0} where
  pub ended_done : {a : A} {s : S} → After P Q (done a, s) → P a s
  ended_done (after_done p) = p

  pub ended_failed : {e : DbError} {s : S} → After P Q (failed e, s) → Q e s
  ended_failed (after_failed q) = q

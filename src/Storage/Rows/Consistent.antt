-- ===== src/Storage/Rows/Consistent.antt =====
-- Tables in which no two fingerprints share a key or a text and every block names a fingerprint.
use hassh.Common.{
  if◌then◌else◌, ℕ, ◌≡◌, refl, ap, subst, inl, inr, Bool-cases, Bool, true, false, not, ◌&&◌, none,
  some, List, [], ◌∷◌, arith, ◌==◌,
}
use hassh.Text.{Bytes, same, same_iff}
use hassh.Storage.Rows.{
  Row, hassh_fingerprint, blocked_fingerprint, logged, Entry, Query, by_fingerprint, matches, find,
  has, same_table, taken,
}

-- Is a key that of a fingerprint?
abbrev pub has_id : ℕ → List Entry → Bool
has_id = taken (hassh_fingerprint [])

-- A fingerprint's row is the only one of its key and of its text.
unfoldable pub is_alone : Entry → List Entry → Bool
is_alone (i, hassh_fingerprint f) es = not (has_id i es) && not (has (by_fingerprint f) es)
is_alone (i, _) es = true

unfoldable pub distinct_rows : List Entry → Bool
distinct_rows [] = true
distinct_rows (e ∷ es) = is_alone e es && distinct_rows es

unfoldable pub is_grounded : Row → List Entry → Bool
is_grounded (blocked_fingerprint i reason) es = has_id i es
is_grounded _ es = true

-- Every block of the first list names a fingerprint of the second.
unfoldable pub grounded : List Entry → List Entry → Bool
grounded [] es = true
grounded (b ∷ bs) es = is_grounded b.1 es && grounded bs es

pub record IsConsistent (es : List Entry) : Type 0 where
  pub distinct : distinct_rows es ≡ true
  pub blocks : grounded es es ≡ true

-- Among the fingerprints, exactly those with text `f` have key `i`.
unfoldable pub fits : Bytes → ℕ → Entry → Bool
fits f i (j, hassh_fingerprint g) = if same g f then j == i else not (j == i)
fits f i (j, _) = true

unfoldable pub agrees : Bytes → ℕ → List Entry → Bool
agrees f i [] = true
agrees f i (e ∷ es) = fits f i e && agrees f i es

agrees_absent :
    (f : Bytes) (i : ℕ) (es : List Entry)
    → has (by_fingerprint f) es ≡ false
    → has_id i es ≡ false
    → agrees f i es ≡ true
unfolding agrees fits has taken matches same_table
agrees_absent f i [] h k = refl
agrees_absent f i ((j, hassh_fingerprint g) ∷ es) h k = ground (arith, agrees_absent f i es)
agrees_absent f i ((j, blocked_fingerprint n r) ∷ es) h k = agrees_absent f i es h k
agrees_absent f i ((j, logged r) ∷ es) h k = agrees_absent f i es h k

-- The fingerprint that `find` returns is there, under its key.
pub find-has_id :
    (f : Bytes) (es : List Entry) (i : ℕ) (r : Row)
    → find (by_fingerprint f) es ≡ some (i, r)
    → has_id i es ≡ true
unfolding find taken matches same_table
find-has_id f [] i r h = cc
find-has_id f ((j, hassh_fingerprint g) ∷ es) i r h = ground (arith, find-has_id f es i r)
find-has_id f ((j, blocked_fingerprint n t) ∷ es) i r h = find-has_id f es i r h
find-has_id f ((j, logged t) ∷ es) i r h = find-has_id f es i r h

pub find-some-has : (q : Query) (es : List Entry) (e : Entry) → find q es ≡ some e → has q es ≡ true
unfolding find has
find-some-has q [] e h = cc
find-some-has q (x ∷ es) e h = ground (arith, find-some-has q es e)

pub find-none-has : (q : Query) (es : List Entry) → find q es ≡ none → has q es ≡ false
unfolding find has
find-none-has q [] h = refl
find-none-has q (x ∷ es) h = ground (arith, find-none-has q es)

pub find-agrees :
    (f : Bytes) (es : List Entry) (i : ℕ) (r : Row)
    → distinct_rows es ≡ true
    → find (by_fingerprint f) es ≡ some (i, r)
    → agrees f i es ≡ true
unfolding find agrees fits distinct_rows is_alone matches
find-agrees f [] i r d h = cc
find-agrees f ((j, hassh_fingerprint g) ∷ es) i r d h = elim (Bool-cases (same g f)) [
  | inl e ↦
      let text : g ≡ f = (same_iff g f).0 e in
      let alone : has (by_fingerprint f) es ≡ false =
        subst (λ t. has (by_fingerprint t) es ≡ false) text (ground arith) in
      let found : j ≡ i = ap (λ o. elim o [ none ↦ 0 | some x ↦ x.0 ]) (rw e at h) in
      rw (e, ← found) (ground (arith, agrees_absent f j es alone))
  | inr e ↦ ground (arith, find-agrees f es i r, find-has_id f es i r)
]
find-agrees f ((j, blocked_fingerprint n t) ∷ es) i r d h = find-agrees f es i r d h
find-agrees f ((j, logged t) ∷ es) i r d h = find-agrees f es i r d h

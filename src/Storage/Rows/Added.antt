-- ===== src/Storage/Rows/Added.antt =====
-- The tables stay consistent when a row is added.
use hassh.Common.{ℕ, ◌≡◌, refl, true, false, ◌&&◌, List, [], ◌∷◌, ◌++◌, arith, ◌==◌}
use hassh.Text.{Bytes, same_iff}
use hassh.Storage.Rows.{
  LogRow, hassh_fingerprint, blocked_fingerprint, logged, Entry, by_fingerprint, matches, has,
  same_table, taken,
}
use hassh.Storage.Rows.Consistent.{
  has_id, grounded, is_grounded, IsConsistent, distinct_rows, is_alone,
}
use hassh.Storage.Rows.Changes.{has-append, taken-append}

grounded_more :
    (bs es : List Entry) (x : Entry) → grounded bs es ≡ true → grounded bs (es ++ x ∷ []) ≡ true
unfolding grounded is_grounded
grounded_more [] es x g = refl
grounded_more ((n, hassh_fingerprint f) ∷ bs) es x g = ground (arith, grounded_more bs es x)
grounded_more ((n, blocked_fingerprint m r) ∷ bs) es x g =
    ground (arith, grounded_more bs es x, taken-append (hassh_fingerprint []) m es x)
grounded_more ((n, logged r) ∷ bs) es x g = ground (arith, grounded_more bs es x)

grounded-append :
    (bs es : List Entry) (x : Entry)
    → grounded (bs ++ x ∷ []) es ≡ (grounded bs es && is_grounded x.1 es)
unfolding grounded
grounded-append [] es x = ground arith
grounded-append (b ∷ bs) es x = ground (arith, grounded-append bs es x)

grounded-both :
    (es : List Entry) (x : Entry)
    → grounded es es ≡ true
    → is_grounded x.1 (es ++ x ∷ []) ≡ true
    → grounded (es ++ x ∷ []) (es ++ x ∷ []) ≡ true
grounded-both es x g h = ground (arith, grounded-append es (es ++ x ∷ []) x, grounded_more es es x)

distinct_rows-append :
    (es : List Entry) (x : Entry)
    → ((j : ℕ) → (same_table (hassh_fingerprint []) x.1 && x.0 == j) ≡ false)
    → ((k : Bytes) → matches (by_fingerprint k) x.1 ≡ false)
    → distinct_rows es ≡ true
    → is_alone x [] ≡ true
    → distinct_rows (es ++ x ∷ []) ≡ true
unfolding distinct_rows is_alone
distinct_rows-append [] x h k d a = ground arith
distinct_rows-append ((n, hassh_fingerprint g) ∷ es) x h k d a = ground (
  arith,
  taken-append (hassh_fingerprint []) n es x,
  has-append (by_fingerprint g) es x,
  h n,
  k g,
  distinct_rows-append es x h k,
)
distinct_rows-append ((n, blocked_fingerprint m r) ∷ es) x h k d a =
    ground (arith, distinct_rows-append es x h k)
distinct_rows-append ((n, logged r) ∷ es) x h k d a = ground (arith, distinct_rows-append es x h k)

distinct_rows-hassh :
    (es : List Entry) (i : ℕ) (f : Bytes)
    → has_id i es ≡ false
    → has (by_fingerprint f) es ≡ false
    → distinct_rows es ≡ true
    → distinct_rows (es ++ (i, hassh_fingerprint f) ∷ []) ≡ true
unfolding distinct_rows is_alone has taken matches same_table
distinct_rows-hassh [] i f new fresh d = ground arith
distinct_rows-hassh ((n, hassh_fingerprint g) ∷ es) i f new fresh d = ground (
  arith,
  taken-append (hassh_fingerprint []) n es (i, hassh_fingerprint f),
  has-append (by_fingerprint g) es (i, hassh_fingerprint f),
  same_iff f g,
  same_iff g f,
  distinct_rows-hassh es i f,
)
distinct_rows-hassh ((n, blocked_fingerprint m r) ∷ es) i f new fresh d =
    ground (arith, distinct_rows-hassh es i f)
distinct_rows-hassh ((n, logged r) ∷ es) i f new fresh d =
    ground (arith, distinct_rows-hassh es i f)

pub hassh-IsConsistent :
    (es : List Entry) (i : ℕ) (f : Bytes)
    → IsConsistent es
    → has_id i es ≡ false
    → has (by_fingerprint f) es ≡ false
    → IsConsistent (es ++ (i, hassh_fingerprint f) ∷ [])
unfolding is_grounded
hassh-IsConsistent es i f c new fresh = record {
  distinct = distinct_rows-hassh es i f new fresh c.distinct;
  blocks = grounded-both es (i, hassh_fingerprint f) c.blocks refl;
}

pub block-IsConsistent :
    (es : List Entry) (n i : ℕ) (reason : Bytes)
    → IsConsistent es
    → has_id i es ≡ true
    → IsConsistent (es ++ (n, blocked_fingerprint i reason) ∷ [])
unfolding is_grounded same_table matches is_alone
block-IsConsistent es n i reason c there =
    let x : Entry = (n, blocked_fingerprint i reason) in
    record {
      distinct = distinct_rows-append es x (λ j. refl) (λ k. refl) c.distinct refl;
      blocks =
          grounded-both es x c.blocks
            (ground (arith, there, taken-append (hassh_fingerprint []) i es x));
    }

pub logged-IsConsistent :
    (es : List Entry) (n : ℕ) (r : LogRow)
    → IsConsistent es
    → IsConsistent (es ++ (n, logged r) ∷ [])
unfolding is_grounded same_table matches is_alone
logged-IsConsistent es n r c = record {
  distinct = distinct_rows-append es (n, logged r) (λ j. refl) (λ k. refl) c.distinct refl;
  blocks = grounded-both es (n, logged r) c.blocks refl;
}

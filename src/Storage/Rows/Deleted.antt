-- ===== src/Storage/Rows/Deleted.antt =====
-- Which fingerprints are blocked after the blocks of a key are deleted.
use hassh.Common.{ℕ, ◌≡◌, refl, true, not, ◌&&◌, List, [], ◌∷◌, arith, ◌==◌}
use hassh.Text.{Bytes, same, same_iff}
use hassh.Storage.Rows.{
  hassh_fingerprint, blocked_fingerprint, logged, Entry, by_fingerprint, by_hassh_id, matches, has,
  without, same_table, taken, joined, is_blocked,
}
use hassh.Storage.Rows.Consistent.{
  has_id, agrees, fits, grounded, is_grounded, IsConsistent, distinct_rows, is_alone,
}

-- Only blocks are deleted.
has_id-without : (j i : ℕ) (es : List Entry) → has_id j (without (by_hassh_id i) es) ≡ has_id j es
unfolding without taken matches same_table
has_id-without j i [] = refl
has_id-without j i ((n, hassh_fingerprint g) ∷ es) = ground (arith, has_id-without j i es)
has_id-without j i ((n, blocked_fingerprint m r) ∷ es) = ground (arith, has_id-without j i es)
has_id-without j i ((n, logged r) ∷ es) = ground (arith, has_id-without j i es)

has-without :
    (f : Bytes) (i : ℕ) (es : List Entry)
    → has (by_fingerprint f) (without (by_hassh_id i) es) ≡ has (by_fingerprint f) es
unfolding without has matches
has-without f i [] = refl
has-without f i ((n, hassh_fingerprint g) ∷ es) = ground (arith, has-without f i es)
has-without f i ((n, blocked_fingerprint m r) ∷ es) = ground (arith, has-without f i es)
has-without f i ((n, logged r) ∷ es) = ground (arith, has-without f i es)

has_block-without :
    (j i : ℕ) (es : List Entry)
    → has (by_hassh_id j) (without (by_hassh_id i) es) ≡ (not (j == i) && has (by_hassh_id j) es)
unfolding without has matches
has_block-without j i [] = ground arith
has_block-without j i ((n, hassh_fingerprint g) ∷ es) = ground (arith, has_block-without j i es)
has_block-without j i ((n, blocked_fingerprint m r) ∷ es) = ground (arith, has_block-without j i es)
has_block-without j i ((n, logged r) ∷ es) = ground (arith, has_block-without j i es)

joined-without :
    (k : Bytes) (i : ℕ) (es bs : List Entry)
    → joined k (without (by_hassh_id i) es) bs ≡ joined k es bs
unfolding without joined matches
joined-without k i [] bs = refl
joined-without k i ((n, hassh_fingerprint g) ∷ es) bs = ground (arith, joined-without k i es bs)
joined-without k i ((n, blocked_fingerprint m r) ∷ es) bs = ground (arith, joined-without k i es bs)
joined-without k i ((n, logged r) ∷ es) bs = ground (arith, joined-without k i es bs)

joined_unblock :
    (k f : Bytes) (i : ℕ) (es bs : List Entry)
    → agrees f i es ≡ true
    → joined k es (without (by_hassh_id i) bs) ≡ (not (same f k) && joined k es bs)
unfolding joined agrees fits matches
joined_unblock k f i [] bs a = ground arith
joined_unblock k f i ((j, hassh_fingerprint g) ∷ es) bs a = ground (
  arith,
  same_iff g f,
  same_iff g k,
  same_iff f k,
  has_block-without j i bs,
  joined_unblock k f i es bs,
)
joined_unblock k f i ((j, blocked_fingerprint m t) ∷ es) bs a = joined_unblock k f i es bs a
joined_unblock k f i ((j, logged t) ∷ es) bs a = joined_unblock k f i es bs a

pub is_blocked-without :
    (k f : Bytes) (i : ℕ) (es : List Entry)
    → agrees f i es ≡ true
    → is_blocked k (without (by_hassh_id i) es) ≡ (not (same f k) && is_blocked k es)
is_blocked-without k f i es a =
    rw (joined-without k i es (without (by_hassh_id i) es)) (joined_unblock k f i es es a)

distinct_rows-without :
    (i : ℕ) (es : List Entry)
    → distinct_rows es ≡ true
    → distinct_rows (without (by_hassh_id i) es) ≡ true
unfolding without distinct_rows is_alone matches
distinct_rows-without i [] d = refl
distinct_rows-without i ((n, hassh_fingerprint g) ∷ es) d =
    ground (arith, has_id-without n i es, has-without g i es, distinct_rows-without i es)
distinct_rows-without i ((n, blocked_fingerprint m r) ∷ es) d =
    ground (arith, distinct_rows-without i es)
distinct_rows-without i ((n, logged r) ∷ es) d = ground (arith, distinct_rows-without i es)

grounded-without :
    (i : ℕ) (bs es : List Entry)
    → grounded bs es ≡ true
    → grounded (without (by_hassh_id i) bs) (without (by_hassh_id i) es) ≡ true
unfolding without grounded is_grounded matches
grounded-without i [] es g = refl
grounded-without i ((n, hassh_fingerprint f) ∷ bs) es g = ground (arith, grounded-without i bs es)
grounded-without i ((n, blocked_fingerprint m r) ∷ bs) es g =
    ground (arith, has_id-without m i es, grounded-without i bs es)
grounded-without i ((n, logged r) ∷ bs) es g = ground (arith, grounded-without i bs es)

pub without-IsConsistent :
    (i : ℕ) (es : List Entry) → IsConsistent es → IsConsistent (without (by_hassh_id i) es)
without-IsConsistent i es c = record {
  distinct = distinct_rows-without i es c.distinct;
  blocks = grounded-without i es es c.blocks;
}

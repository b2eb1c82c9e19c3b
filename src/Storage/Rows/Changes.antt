-- ===== src/Storage/Rows/Changes.antt =====
-- Which fingerprints are blocked after a row is added or blocks are deleted.
use hassh.Common.{
  ℕ, ◌≡◌, refl, sym, subst, inl, inr, Bool-cases, true, false, ◌&&◌, ◌||◌, List, [], ◌∷◌, ◌++◌,
  arith, ◌==◌,
}
use hassh.Text.{Bytes, same, same_iff}
use hassh.Storage.Rows.{
  Row, LogRow, hassh_fingerprint, blocked_fingerprint, logged, Entry, Query, by_fingerprint,
  by_hassh_id, matches, has, same_table, taken, joined, is_blocked,
}
use hassh.Storage.Rows.Consistent.{has_id, agrees, fits, grounded, is_grounded, IsConsistent}

pub has-append :
    (q : Query) (es : List Entry) (x : Entry) → has q (es ++ x ∷ []) ≡ (has q es || matches q x.1)
unfolding has
has-append q [] x = ground arith
has-append q (e ∷ es) x = ground (arith, has-append q es x)

pub taken-append :
    (r : Row) (i : ℕ) (es : List Entry) (x : Entry)
    → taken r i (es ++ x ∷ []) ≡ (taken r i es || (same_table r x.1 && x.0 == i))
unfolding taken
taken-append r i [] x = ground arith
taken-append r i (e ∷ es) x = ground (arith, taken-append r i es x)

joined-append :
    (k : Bytes) (es bs : List Entry) (x : Entry)
    → joined k (es ++ x ∷ []) bs
      ≡ (joined k es bs || (matches (by_fingerprint k) x.1 && has (by_hassh_id x.0) bs))
unfolding joined
joined-append k [] bs x = ground arith
joined-append k (e ∷ es) bs x = ground (arith, joined-append k es bs x)

-- A row that is no block changes nothing for the fingerprints that are there.
joined_more :
    (k : Bytes) (es bs : List Entry) (x : Entry)
    → ((j : ℕ) → matches (by_hassh_id j) x.1 ≡ false)
    → joined k es (bs ++ x ∷ []) ≡ joined k es bs
unfolding joined
joined_more k [] bs x h = refl
joined_more k (e ∷ es) bs x h =
    ground (arith, joined_more k es bs x h, has-append (by_hassh_id e.0) bs x, h e.0)

-- A block adds the fingerprint of its key.
joined_block :
    (k f : Bytes) (es bs : List Entry) (n i : ℕ) (reason : Bytes)
    → agrees f i es ≡ true
    → joined k es (bs ++ (n, blocked_fingerprint i reason) ∷ [])
      ≡ ((same f k && has (by_fingerprint f) es) || joined k es bs)
unfolding joined agrees fits has matches
joined_block k f [] bs n i reason a = ground arith
joined_block k f ((j, hassh_fingerprint g) ∷ es) bs n i reason a = ground (
  arith,
  same_iff g f,
  same_iff g k,
  same_iff f k,
  has-append (by_hassh_id j) bs (n, blocked_fingerprint i reason),
  joined_block k f es bs n i reason,
)
joined_block k f ((j, blocked_fingerprint m t) ∷ es) bs n i reason a =
    joined_block k f es bs n i reason a
joined_block k f ((j, logged t) ∷ es) bs n i reason a = joined_block k f es bs n i reason a

grounded_absent :
    (bs es : List Entry) (i : ℕ)
    → grounded bs es ≡ true
    → has_id i es ≡ false
    → has (by_hassh_id i) bs ≡ false
unfolding grounded is_grounded has matches
grounded_absent [] es i g h = refl
grounded_absent ((n, hassh_fingerprint f) ∷ bs) es i g h = grounded_absent bs es i g h
grounded_absent ((n, blocked_fingerprint j r) ∷ bs) es i g h = elim (Bool-cases (j == i)) [
  | inl e ↦
      let key : j ≡ i = ground arith in
      let there : has_id i es ≡ true = subst (λ m. has_id m es ≡ true) key (ground arith) in
      cc (there, h)
  | inr e ↦ ground (arith, grounded_absent bs es i)
]
grounded_absent ((n, logged r) ∷ bs) es i g h = grounded_absent bs es i g h

-- A new fingerprint is not blocked, and changes nothing for the others.
pub is_blocked-hassh :
    (k f : Bytes) (i : ℕ) (es : List Entry)
    → IsConsistent es
    → has_id i es ≡ false
    → is_blocked k (es ++ (i, hassh_fingerprint f) ∷ []) ≡ is_blocked k es
unfolding matches
is_blocked-hassh k f i es c new =
    let x : Entry = (i, hassh_fingerprint f) in
    let none_yet = grounded_absent es es i c.blocks new in
    ground (
      arith,
      joined-append k es (es ++ x ∷ []) x,
      joined_more k es es x (λ (j : ℕ). refl),
      has-append (by_hassh_id i) es x,
      none_yet,
    )

pub is_blocked-logged :
    (k : Bytes) (i : ℕ) (r : LogRow) (es : List Entry)
    → is_blocked k (es ++ (i, logged r) ∷ []) ≡ is_blocked k es
unfolding matches
is_blocked-logged k i r es =
    let x : Entry = (i, logged r) in
    ground (arith, joined-append k es (es ++ x ∷ []) x, joined_more k es es x (λ (j : ℕ). refl))

pub is_blocked-block :
    (k f : Bytes) (n i : ℕ) (reason : Bytes) (es : List Entry)
    → agrees f i es ≡ true
    → has (by_fingerprint f) es ≡ true
    → is_blocked k (es ++ (n, blocked_fingerprint i reason) ∷ []) ≡ (same f k || is_blocked k es)
unfolding matches
is_blocked-block k f n i reason es a there =
    let x : Entry = (n, blocked_fingerprint i reason) in
    ground (arith, joined-append k es (es ++ x ∷ []) x, joined_block k f es es n i reason a, there)

-- A fingerprint whose key is already in a block is blocked.
pub is_blocked_already :
    (f : Bytes) (i : ℕ) (es bs : List Entry)
    → agrees f i es ≡ true
    → has (by_fingerprint f) es ≡ true
    → has (by_hassh_id i) bs ≡ true
    → joined f es bs ≡ true
unfolding joined agrees fits has matches
is_blocked_already f i [] bs a there b = cc
is_blocked_already f i ((j, hassh_fingerprint g) ∷ es) bs a there b = elim (Bool-cases (same g f)) [
  | inl e ↦
      let key : j ≡ i = ground arith in
      let held : has (by_hassh_id j) bs ≡ true =
        subst (λ m. has (by_hassh_id m) bs ≡ true) (sym key) b in
      ground arith
  | inr e ↦ ground (arith, is_blocked_already f i es bs)
]
is_blocked_already f i ((j, blocked_fingerprint m t) ∷ es) bs a there b =
    is_blocked_already f i es bs a there b
is_blocked_already f i ((j, logged t) ∷ es) bs a there b = is_blocked_already f i es bs a there b

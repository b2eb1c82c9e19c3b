-- ===== src/Storage/Repository/Blocking.antt =====
-- What `BlockHASH` and `UnblockHASH` do to the set of blocked fingerprints.
use hassh.Common.{
  ℕ, ◌≡◌, sym, ◌∙◌, ap, subst, inl, inr, Bool-cases, true, not, ◌&&◌, ◌||◌, some, List, [], ◌∷◌,
  ◌++◌,
}
use hassh.Text.{Bytes, same, same_iff}
use hassh.Storage.Rows.{
  blocked_fingerprint, Entry, by_fingerprint, by_hassh_id, find, without, is_blocked,
}
use hassh.Storage.Rows.Consistent.{IsConsistent, find-agrees, find-some-has}
use hassh.Storage.Rows.Changes.{is_blocked-block, is_blocked_already}
use hassh.Storage.Rows.Added.{block-IsConsistent}
use hassh.Storage.Rows.Deleted.{is_blocked-without, without-IsConsistent}
use hassh.Storage.Database.Replies.{
  record_not_found, invalid_data, query_failed, Reply, After, after_done, after_failed, After-bind,
  After-mono,
}
use hassh.Storage.Database.{Database, IsLawful, IsMiss}
use hassh.Storage.Repository.{block_unless, block_body, block_hash, unblock_body, unblock_hash}
use hassh.Storage.Repository.Created.{IsLike, IsLike-refl, IsHassh, get_or_create_hassh-After}

-- The tables `fs` block what `es` do, and a fingerprint; or all but that fingerprint.
pub record IsBlocking (f : Bytes) (es fs : List Entry) : Type 0 where
  pub consistent : IsConsistent fs
  pub blocked : (k : Bytes) → is_blocked k fs ≡ (same f k || is_blocked k es)

pub record IsUnblocking (f : Bytes) (es fs : List Entry) : Type 0 where
  pub consistent : IsConsistent fs
  pub blocked : (k : Bytes) → is_blocked k fs ≡ (not (same f k) && is_blocked k es)

blocked_already :
    (f : Bytes) (i : ℕ) (es fs : List Entry) (e : Entry)
    → IsHassh f i es fs
    → find (by_hassh_id i) fs ≡ some e
    → IsBlocking f es fs
blocked_already f i es fs e h found = record {
  consistent = h.like.consistent;
  blocked = λ k. elim (Bool-cases (same f k)) [
    | inl y ↦
        let text : f ≡ k = (same_iff f k).0 y in
        let held = find-some-has (by_hassh_id i) fs e found in
        rw (y, ← text) (is_blocked_already f i fs fs h.key h.text held)
    | inr n ↦ rw n (h.like.blocked k)
  ];
}

blocked_newly :
    (f : Bytes) (i n : ℕ) (reason : Bytes) (es fs : List Entry)
    → IsHassh f i es fs
    → IsBlocking f es (fs ++ (n, blocked_fingerprint i reason) ∷ [])
blocked_newly f i n reason es fs h = record {
  consistent = block-IsConsistent fs n i reason h.like.consistent h.there;
  blocked = λ k.
      is_blocked-block k f n i reason fs h.key h.text ∙ ap (λ b. same f k || b) (h.like.blocked k);
}

module _ (D : Database) (L : IsLawful D) (f : Bytes) (reason : Bytes) (es : List Entry) where
  -- While a transaction runs, the committed tables block what they did.
  abbrev Committing : D.State → Type 0
  Committing u = IsBlocking f es (D.seen u) × IsLike es (D.rows u)

  block_unless-After :
      (i : ℕ) (u : D.State) {m : Reply Entry × D.State}
      → IsHassh f i es (D.rows u)
      → D.seen u ≡ D.rows u
      → After
          (λ e v.
            (D.rows v ≡ D.rows u)
            × (D.seen v ≡ D.seen u)
            × (find (by_hassh_id i) (D.seen u) ≡ some e))
          (λ e v.
            (D.rows v ≡ D.rows u) × (D.seen v ≡ D.seen u) × IsMiss D e (by_hassh_id i) (D.seen u))
          m
      → After (λ _ v. Committing v) (λ _ v. IsLike es (D.rows v)) (block_unless D i reason m)
  unfolding block_unless
  block_unless-After i u h fresh (after_done {a = e} (rows, seen, found)) =
      after_done
        (rw (seen, rows, fresh) (blocked_already f i es (D.rows u) e h (rw fresh at found), h.like))
  block_unless-After i u h fresh (after_failed {e = record_not_found} {s = v} (rows, seen, miss)) =
      After-bind
        (After-mono (λ n w made. made) (λ _ w kept. subst (IsLike es) (sym (kept ∙ rows)) h.like)
          (L.create_tx (blocked_fingerprint i reason) v))
        (λ n w made. after_done (
          rw (made.0, seen, fresh) (blocked_newly f i n reason es (D.rows u) h),
          rw (made.1, rows) h.like,
        ))
  block_unless-After i u h fresh (after_failed {e = invalid_data} (rows, seen, miss)) =
      after_failed (rw rows h.like)
  block_unless-After i u h fresh (after_failed {e = query_failed} (rows, seen, miss)) =
      after_failed (rw rows h.like)

  block_body-After :
      (t : D.State)
      → D.rows t ≡ es
      → D.is_fresh t ≡ true
      → IsConsistent es
      → After (λ _ u. Committing u) (λ _ u. IsLike es (D.rows u)) (block_body D f reason t)
  unfolding block_body
  block_body-After t e fresh c =
      After-bind
        (After-mono (λ i u h. h) (λ _ u kept. like u (kept.0 ∙ e))
          (get_or_create_hassh-After D L f t (rw e c)))
        (λ i u h.
          block_unless-After i u (rw e at h.0) (L.fresh u (h.2 ∙ fresh))
            (L.first_tx (by_hassh_id i) u))
    where
      like : (u : D.State) → D.rows u ≡ es → IsLike es (D.rows u)
      like u h = subst (IsLike es) (sym h) (IsLike-refl es c)

  unblock_body-After :
      (t : D.State)
      → D.rows t ≡ es
      → D.is_fresh t ≡ true
      → IsConsistent es
      → After
          (λ _ u. IsUnblocking f es (D.seen u) × IsLike es (D.rows u))
          (λ _ u. IsLike es (D.rows u))
          (unblock_body D f t)
  unfolding unblock_body
  unblock_body-After t e fresh c =
      let seen_rows : D.seen t ≡ es = L.fresh t fresh ∙ e in
      After-bind
        (After-mono (λ x u h. h) (λ _ u h. like u (h.0 ∙ e)) (L.first_tx (by_fingerprint f) t))
        (λ x u h.
          After-mono
            (λ _ v deleted. (
              rw (deleted.0, h.1, seen_rows) (unblocked x (rw seen_rows at h.2)),
              like v (deleted.1 ∙ h.0 ∙ e),
            ))
            (λ _ v kept. like v (kept ∙ h.0 ∙ e)) (L.delete_tx (by_hassh_id x.0) u))
    where
      like : (u : D.State) → D.rows u ≡ es → IsLike es (D.rows u)
      like u h = subst (IsLike es) (sym h) (IsLike-refl es c)

      unblocked :
          (x : Entry)
          → find (by_fingerprint f) es ≡ some x
          → IsUnblocking f es (without (by_hassh_id x.0) es)
      unblocked x found = record {
        consistent = without-IsConsistent x.0 es c;
        blocked = λ k. is_blocked-without k f x.0 es (find-agrees f es x.0 x.1 c.distinct found);
      }

-- On consistent tables, a successful `BlockHASH` blocks the fingerprint and leaves every other as it
-- was; a failed one changes nothing of what is blocked. Either way the tables stay consistent.
pub block_hash-After :
    (D : Database) (L : IsLawful D) (f reason : Bytes) (s : D.State)
    → IsConsistent (D.rows s)
    → After
        (λ _ t. IsBlocking f (D.rows s) (D.rows t))
        (λ _ t. IsLike (D.rows s) (D.rows t))
        (block_hash D f reason s)
unfolding block_hash
block_hash-After D L f reason s c =
    L.transaction (IsBlocking f (D.rows s)) (IsLike (D.rows s)) (block_body D f reason) s
      (IsLike-refl (D.rows s) c) (λ t e fresh. block_body-After D L f reason (D.rows s) t e fresh c)

-- On consistent tables, a successful `UnblockHASH` unblocks the fingerprint and leaves every other
-- as it was; a failed one changes nothing of what is blocked. Either way the tables stay
-- consistent.
pub unblock_hash-After :
    (D : Database) (L : IsLawful D) (f : Bytes) (s : D.State)
    → IsConsistent (D.rows s)
    → After
        (λ _ t. IsUnblocking f (D.rows s) (D.rows t))
        (λ _ t. IsLike (D.rows s) (D.rows t))
        (unblock_hash D f s)
unfolding unblock_hash
unblock_hash-After D L f s c =
    L.transaction (IsUnblocking f (D.rows s)) (IsLike (D.rows s)) (unblock_body D f) s
      (IsLike-refl (D.rows s) c) (λ t e fresh. unblock_body-After D L f [] (D.rows s) t e fresh c)

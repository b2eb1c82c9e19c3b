-- ===== src/Storage/Repository/Created.antt =====
-- What `getOrCreateIPAddress`, `getOrCreateHASSH` and `getOrCreateBanner` do to the tables.
use hassh.Common.{
  ℕ, ◌≡◌, refl, sym, ◌∙◌, ap, subst, ◌⊎◌, inl, inr, true, false, Option, none, some, List, [], ◌∷◌,
  ◌++◌, append-nil, arith, Bool-cases,
}
use hassh.Text.{Bytes, same_refl}
use hassh.Storage.Rows.{
  Row, LogRow, hassh_fingerprint, logged, ip_address, ssh_client_banner, Entry, Query,
  by_fingerprint, by_banner, by_address, find, has, taken, is_blocked, matches, same_table,
}
use hassh.Storage.Rows.Consistent.{
  has_id, agrees, IsConsistent, find-agrees, find-has_id, find-some-has, find-none-has,
}
use hassh.Storage.Rows.Changes.{is_blocked-hassh, is_blocked-logged}
use hassh.Storage.Rows.Added.{hassh-IsConsistent, logged-IsConsistent}
use hassh.Storage.Database.Replies.{
  record_not_found, invalid_data, query_failed, Reply, After, after_done, after_failed, After-mono,
}
use hassh.Storage.Database.{Database, IsLawful, Kept, IsMiss}
use hassh.Storage.Repository.{
  Net, parse_ip, with_address, or_create, get_or_create, get_or_create_hassh, get_or_create_banner,
  get_or_create_ip_address,
}

-- The key is that of the row that was there, or of the one that was added.
abbrev pub IsGot : Query → Row → ℕ → List Entry → List Entry → Type 0
IsGot q row i es fs =
    ((fs ≡ es) × ((r : Row) × (find q es ≡ some (i, r))))
    ⊎ ((fs ≡ es ++ (i, row) ∷ []) × (taken row i es ≡ false) × (find q es ≡ none))

-- What is blocked is not changed, and the tables stay consistent.
pub record IsLike (es fs : List Entry) : Type 0 where
  pub consistent : IsConsistent fs
  pub blocked : (k : Bytes) → is_blocked k fs ≡ is_blocked k es

pub IsLike-refl : (es : List Entry) → IsConsistent es → IsLike es es
IsLike-refl es c = record { consistent = c; blocked = λ k. refl }

pub record IsHassh (f : Bytes) (i : ℕ) (es fs : List Entry) : Type 0 where
  pub like : IsLike es fs
  pub key : agrees f i fs ≡ true
  pub text : has (by_fingerprint f) fs ≡ true
  pub there : has_id i fs ≡ true

-- Rows were only added, and the one that was asked for is there, under its key.
pub record IsMade (q : Query) (i : ℕ) (es fs : List Entry) : Type 0 where
  pub like : IsLike es fs
  pub added : (gs : List Entry) × (fs ≡ es ++ gs)
  pub row : (r : Row) × (find q fs ≡ some (i, r))

pub find-append :
    (q : Query) (es gs : List Entry) {e : Entry} → find q es ≡ some e → find q (es ++ gs) ≡ some e
unfolding find
find-append q [] gs h = cc
find-append q (x ∷ es) gs h = elim (Bool-cases (matches q x.1)) [
  | inl here ↦ rw here (rw here at h)
  | inr there ↦ rw there (find-append q es gs (rw there at h))
]

find_new :
    (q : Query) (i : ℕ) (row : Row) (es : List Entry)
    → matches q row ≡ true
    → find q es ≡ none
    → find q (es ++ (i, row) ∷ []) ≡ some (i, row)
unfolding find
find_new q i row [] m h = rw m
find_new q i row (x ∷ es) m h = elim (Bool-cases (matches q x.1)) [
  | inl here ↦ absurd (ground arith)
  | inr there ↦ rw there (find_new q i row es m (rw there at h))
]

module _ (f : Bytes) (i : ℕ) (es : List Entry) (c : IsConsistent es) where
  IsGot-IsHassh :
      (fs : List Entry) → IsGot (by_fingerprint f) (hassh_fingerprint f) i es fs → IsHassh f i es fs
  unfolding matches same_table taken
  IsGot-IsHassh fs (inl (same_rows, (r, h))) = rw same_rows (record {
    like = IsLike-refl es c;
    key = find-agrees f es i r c.distinct h;
    text = find-some-has (by_fingerprint f) es (i, r) h;
    there = find-has_id f es i r h;
  })
  IsGot-IsHassh fs (inr (more, new, h)) =
      let x : Entry = (i, hassh_fingerprint f) in
      let absent = find-none-has (by_fingerprint f) es h in
      let d = hassh-IsConsistent es i f c new absent in
      let found = find_new (by_fingerprint f) i (hassh_fingerprint f) es (same_refl f) h in
      rw more (record {
        like = record { consistent = d; blocked = λ k. is_blocked-hassh k f i es c new };
        key = find-agrees f (es ++ x ∷ []) i (hassh_fingerprint f) d.distinct found;
        text = find-some-has (by_fingerprint f) (es ++ x ∷ []) (i, hassh_fingerprint f) found;
        there = find-has_id f (es ++ x ∷ []) i (hassh_fingerprint f) found;
      })

IsGot-IsMade :
    (q : Query) (row : Row) (i : ℕ) (es fs : List Entry)
    → matches q row ≡ true
    → IsLike es fs
    → IsGot q row i es fs
    → IsMade q i es fs
IsGot-IsMade q row i es fs m like (inl (same_rows, h)) = record {
  like = like;
  added = ([], same_rows ∙ sym (append-nil es));
  row = rw same_rows h;
}
IsGot-IsMade q row i es fs m like (inr (more, _, h)) = record {
  like = like;
  added = ((i, row) ∷ [], more);
  row = rw more (row, find_new q i row es m h);
}

IsGot-IsLike :
    (q : Query) (r : LogRow) (i : ℕ) (es fs : List Entry)
    → IsConsistent es
    → IsGot q (logged r) i es fs
    → IsLike es fs
IsGot-IsLike q r i es fs c (inl (same_rows, _)) = rw same_rows (IsLike-refl es c)
IsGot-IsLike q r i es fs c (inr (more, _, _)) = rw more (record {
  consistent = logged-IsConsistent es i r c;
  blocked = λ k. is_blocked-logged k i r es;
})

-- The address is one that package net parses.
abbrev pub IsAddress : Option (ℕ × Bytes) → ℕ → List Entry → List Entry → Type 0
IsAddress o i es fs =
    (v : ℕ) × ((a : Bytes) × ((o ≡ some (v, a)) × IsMade (by_address v a) i es fs))

module _ (D : Database) (L : IsLawful D) where
  or_create-After :
      (q : Query) (row : Row) (s : D.State) {m : Reply Entry × D.State}
      → After
          (λ e t. Kept D s t × (find q (D.rows s) ≡ some e))
          (λ e t. Kept D s t × IsMiss D e q (D.rows s))
          m
      → After
          (λ i t. IsGot q row i (D.rows s) (D.rows t) × (D.is_fresh t ≡ D.is_fresh s))
          (λ _ t. Kept D s t)
          (or_create D row m)
  unfolding or_create
  or_create-After q row s (after_done {a = e} (kept, h)) =
      after_done (inl (kept.0, (e.1, h)), kept.1)
  or_create-After q row s (after_failed {e = record_not_found} {s = t} (kept, miss)) =
      After-mono
        (λ i u made. (
          inr (
            made.0 ∙ ap (λ es. es ++ (i, row) ∷ []) kept.0,
            subst (λ es. taken row i es ≡ false) kept.0 made.2,
            miss refl,
          ),
          made.1 ∙ kept.1,
        ))
        (λ e u h. (h.0 ∙ kept.0, h.1 ∙ kept.1)) (L.create_pool row t)
  or_create-After q row s (after_failed {e = invalid_data} h) = after_failed h.0
  or_create-After q row s (after_failed {e = query_failed} h) = after_failed h.0

  pub get_or_create-After :
      (q : Query) (row : Row) (s : D.State)
      → After
          (λ i t. IsGot q row i (D.rows s) (D.rows t) × (D.is_fresh t ≡ D.is_fresh s))
          (λ _ t. Kept D s t)
          (get_or_create D q row s)
  unfolding get_or_create
  get_or_create-After q row s = or_create-After q row s (L.first_pool q s)

  pub get_or_create_hassh-After :
      (f : Bytes) (s : D.State)
      → IsConsistent (D.rows s)
      → After
          (λ i t.
            IsHassh f i (D.rows s) (D.rows t)
            × IsMade (by_fingerprint f) i (D.rows s) (D.rows t)
            × (D.is_fresh t ≡ D.is_fresh s))
          (λ _ t. Kept D s t)
          (get_or_create_hassh D f s)
  unfolding get_or_create_hassh matches
  get_or_create_hassh-After f s c =
      After-mono
        (λ i t h.
          let here = IsGot-IsHassh f i (D.rows s) c (D.rows t) h.0 in
          (
            here,
            IsGot-IsMade (by_fingerprint f) (hassh_fingerprint f) i (D.rows s) (D.rows t)
                (same_refl f) here.like h.0,
            h.1,
          ))
        (λ _ t h. h) (get_or_create-After (by_fingerprint f) (hassh_fingerprint f) s)

  log_row-After :
      (q : Query) (r : LogRow) (s : D.State)
      → matches q (logged r) ≡ true
      → IsConsistent (D.rows s)
      → After
          (λ i t. IsMade q i (D.rows s) (D.rows t) × (D.is_fresh t ≡ D.is_fresh s))
          (λ _ t. Kept D s t)
          (get_or_create D q (logged r) s)
  log_row-After q r s m c =
      After-mono
        (λ i t h. (
          IsGot-IsMade q (logged r) i (D.rows s) (D.rows t) m
              (IsGot-IsLike q r i (D.rows s) (D.rows t) c h.0) h.0,
          h.1,
        ))
        (λ _ t h. h) (get_or_create-After q (logged r) s)

  pub get_or_create_banner-After :
      (b : Bytes) (s : D.State)
      → IsConsistent (D.rows s)
      → After
          (λ i t. IsMade (by_banner b) i (D.rows s) (D.rows t) × (D.is_fresh t ≡ D.is_fresh s))
          (λ _ t. Kept D s t)
          (get_or_create_banner D b s)
  unfolding get_or_create_banner matches
  get_or_create_banner-After b s c =
      log_row-After (by_banner b) (ssh_client_banner b) s (same_refl b) c

  with_address-After :
      (o : Option (ℕ × Bytes)) (s : D.State)
      → IsConsistent (D.rows s)
      → After
          (λ i t. IsAddress o i (D.rows s) (D.rows t) × (D.is_fresh t ≡ D.is_fresh s))
          (λ _ t. Kept D s t)
          (with_address D o s)
  unfolding matches
  with_address-After none s c = after_failed (refl, refl)
  with_address-After (some (v, a)) s c =
      After-mono (λ i t h. ((v, (a, (refl, h.0))), h.1)) (λ _ t h. h)
        (log_row-After (by_address v a) (ip_address v a) s (ground (arith, same_refl a)) c)

  pub get_or_create_ip_address-After :
      (N : Net) (ip : Bytes) (s : D.State)
      → IsConsistent (D.rows s)
      → After
          (λ i t. IsAddress (parse_ip N ip) i (D.rows s) (D.rows t) × (D.is_fresh t ≡ D.is_fresh s))
          (λ _ t. Kept D s t)
          (get_or_create_ip_address D N ip s)
  unfolding get_or_create_ip_address
  get_or_create_ip_address-After N ip s c = with_address-After (parse_ip N ip) s c

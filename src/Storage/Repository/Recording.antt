-- ===== src/Storage/Repository/Recording.antt =====
-- What `RecordConnection` does to the tables.
use hassh.Common.{
  ℕ, ◌≡◌, refl, sym, ◌∙◌, ap, subst, true, Bool, Bool-cases, inl, inr, arith, zero, suc, ◌≤◌,
  Option, some, List, [], ◌∷◌, ◌++◌, ltb, if◌then◌else◌, length, take,
}
use hassh.Text.{Bytes}
use hassh.Storage.Rows.{
  Entry, Row, Query, logged, ssh_connection, find, by_address, by_fingerprint, by_banner,
}
use hassh.Storage.Rows.Consistent.{IsConsistent}
use hassh.Storage.Rows.Changes.{is_blocked-logged}
use hassh.Storage.Rows.Added.{logged-IsConsistent}
use hassh.Storage.Database.Replies.{After, after_done, After-bind, After-mono}
use hassh.Storage.Database.{Database, IsLawful, Kept, tx}
use hassh.Storage.Repository.{
  Net, parse_ip, forget, record_body, record_connection, max_banner_column_length,
}
use hassh.Storage.Repository.Created.{
  IsLike, IsLike-refl, find-append, get_or_create_hassh-After, get_or_create_banner-After,
  get_or_create_ip_address-After,
}

-- The row of an address, a fingerprint or a banner.
abbrev pub IsRow : Query → ℕ → List Entry → Type 0
IsRow q i es = (r : Row) × (find q es ≡ some (i, r))

-- The last row is the connection; it names the rows of its address, its fingerprint and its banner.
-- What is blocked is as before.
pub record IsRecorded (o : Option (ℕ × Bytes)) (hassh banner : Bytes) (blocked : Bool)
    (es fs : List Entry) : Type 0 where
  pub like : IsLike es fs
  pub ip_id : ℕ
  pub hassh_id : ℕ
  pub banner_id : ℕ
  pub id : ℕ
  pub before : List Entry
  pub last : fs ≡ before ++ (id, logged (ssh_connection ip_id hassh_id banner_id blocked)) ∷ []
  pub address : (v : ℕ) × ((a : Bytes) × ((o ≡ some (v, a)) × IsRow (by_address v a) ip_id before))
  pub fingerprint : IsRow (by_fingerprint hassh) hassh_id before
  pub banner_row : IsRow (by_banner banner) banner_id before

IsLike-trans : {es fs gs : List Entry} → IsLike es fs → IsLike fs gs → IsLike es gs
IsLike-trans h k = record { consistent = k.consistent; blocked = λ x. k.blocked x ∙ h.blocked x }

-- A row stays where rows are only added.
IsRow_later :
    (q : Query) (i : ℕ) (es fs : List Entry)
    → ((gs : List Entry) × (fs ≡ es ++ gs))
    → IsRow q i es
    → IsRow q i fs
IsRow_later q i es fs (gs, e) (r, h) = (r, rw e (find-append q es gs h))

module _ (D : Database) (L : IsLawful D) (N : Net) (blocked : Bool) (es : List Entry) where
  -- Outside the transaction what is blocked stays as it was.
  abbrev Steady : D.State → Type 0
  Steady u = IsLike es (D.rows u) × (D.is_fresh u ≡ true)

  keep : {s : D.State} (u : D.State) → Steady s → Kept D s u → IsLike es (D.rows u)
  keep u h kept = subst (IsLike es) (sym kept.0) h.0

  module _ (ip hassh banner : Bytes) where
    abbrev Recorded : List Entry → Type 0
    Recorded = IsRecorded (parse_ip N ip) hassh banner blocked es

    insert :
        (i j k v : ℕ) (a : Bytes) (w : D.State)
        → Steady w
        → parse_ip N ip ≡ some (v, a)
        → IsRow (by_address v a) i (D.rows w)
        → IsRow (by_fingerprint hassh) j (D.rows w)
        → IsRow (by_banner banner) k (D.rows w)
        → After
            (λ _ u. Recorded (D.seen u) × IsLike es (D.rows u))
            (λ _ u. IsLike es (D.rows u))
            (forget D (D.create tx (logged (ssh_connection i j k blocked)) w))
    insert i j k v a w hw parsed ri rj rk =
        let r = ssh_connection i j k blocked in
        After-bind
          (After-mono (λ n u made. made) (λ _ u kept. subst (IsLike es) (sym kept) hw.0)
            (L.create_tx (logged r) w))
          λ n u made.
            let rows = made.0 ∙ ap (λ fs. fs ++ (n, logged r) ∷ []) (L.fresh w hw.1) in
            after_done (
              subst Recorded (sym rows) (record {
                like = IsLike-trans hw.0 (record {
                  consistent = logged-IsConsistent (D.rows w) n r hw.0.consistent;
                  blocked = λ x. is_blocked-logged x n r (D.rows w);
                });
                ip_id = i;
                hassh_id = j;
                banner_id = k;
                id = n;
                before = D.rows w;
                last = refl;
                address = (v, (a, (parsed, ri)));
                fingerprint = rj;
                banner_row = rk;
              }),
              subst (IsLike es) (sym made.1) hw.0,
            )

    record_body-After :
        (t : D.State)
        → Steady t
        → After
            (λ _ u. Recorded (D.seen u) × IsLike es (D.rows u))
            (λ _ u. IsLike es (D.rows u))
            (record_body D N ip hassh banner blocked t)
    unfolding record_body
    record_body-After t h =
        After-bind
          (After-mono (λ i u g. g) (λ _ u kept. keep u h kept)
            (get_or_create_ip_address-After D L N ip t h.0.consistent))
          λ i u g.
            let (v, (a, (parsed, made))) = g.0 in
            let hu : Steady u = (IsLike-trans h.0 made.like, g.1 ∙ h.1) in
            After-bind
              (After-mono (λ j x gj. gj) (λ _ x kept. keep x hu kept)
                (get_or_create_hassh-After D L hassh u hu.0.consistent))
              λ j x gj.
                let hx : Steady x = (IsLike-trans hu.0 gj.0.like, gj.2 ∙ hu.1) in
                After-bind
                  (After-mono (λ k w gk. gk) (λ _ w kept. keep w hx kept)
                    (get_or_create_banner-After D L banner x hx.0.consistent))
                  λ k w gk.
                    let hw : Steady w = (IsLike-trans hx.0 gk.0.like, gk.1 ∙ hx.1) in
                    let later =
                      IsRow_later (by_address v a) i (D.rows u) (D.rows x) gj.1.added made.row in
                    insert i j k v a w hw parsed
                      (IsRow_later (by_address v a) i (D.rows x) (D.rows w) gk.0.added later)
                      (IsRow_later (by_fingerprint hassh) j (D.rows x) (D.rows w) gk.0.added
                        gj.1.row)
                      gk.0.row

take_of_le : (n : ℕ) (xs : Bytes) → length xs ≤ n → take n xs ≡ xs
take_of_le zero [] h = refl
take_of_le (suc n) [] h = refl
take_of_le zero (x ∷ xs) h = absurd (omega arith)
take_of_le (suc n) (x ∷ xs) h = rw (take_of_le n xs (omega arith))

clipped_lem :
    (banner : Bytes)
    → (if ltb max_banner_column_length (length banner)
        then take max_banner_column_length banner
        else banner)
      ≡ take max_banner_column_length banner
clipped_lem banner = elim (Bool-cases (ltb max_banner_column_length (length banner))) [
  | inl e ↦ rw e
  | inr e ↦ rw e (sym (take_of_le max_banner_column_length banner (ground arith)))
]

-- On consistent tables, a successful `RecordConnection` adds the connection as the last row, which
-- names the rows of its address, its fingerprint and its banner of at most 255 bytes; and whether it
-- succeeds or fails, it blocks and unblocks no fingerprint and leaves the tables consistent.
pub record_connection-After :
    (D : Database) (L : IsLawful D) (N : Net) (ip hassh banner : Bytes) (blocked : Bool)
    (s : D.State)
    → IsConsistent (D.rows s)
    → After
        (λ _ t.
          IsRecorded
            (parse_ip N ip)
            hassh
            (take max_banner_column_length banner)
            blocked
            (D.rows s)
            (D.rows t))
        (λ _ t. IsLike (D.rows s) (D.rows t))
        (record_connection D N ip hassh banner blocked s)
unfolding record_connection
record_connection-After D L N ip hassh banner blocked s c =
    let like = IsLike-refl (D.rows s) c in
    let recorded : (b : Bytes)
        → After (λ _ t. IsRecorded (parse_ip N ip) hassh b blocked (D.rows s) (D.rows t))
            (λ _ t. IsLike (D.rows s) (D.rows t))
            (D.transaction (record_body D N ip hassh b blocked) s) =
      λ b.
        L.transaction (IsRecorded (parse_ip N ip) hassh b blocked (D.rows s)) (IsLike (D.rows s))
          (record_body D N ip hassh b blocked) s like
          (λ t e fresh.
            record_body-After D L N blocked (D.rows s) ip hassh b t
              (subst (IsLike (D.rows s)) (sym e) like, fresh)) in
    subst
      (λ b.
        After (λ _ t. IsRecorded (parse_ip N ip) hassh b blocked (D.rows s) (D.rows t))
          (λ _ t. IsLike (D.rows s) (D.rows t)) (record_connection D N ip hassh banner blocked s))
      (clipped_lem banner)
      (recorded (
        if ltb max_banner_column_length (length banner)
        then take max_banner_column_length banner
        else banner))

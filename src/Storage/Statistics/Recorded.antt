-- ===== src/Storage/Statistics/Recorded.antt =====
-- How `RecordConnection` changes the numbers of `GetStatistics`.
use hassh.Common.{
  ℕ, ◌+◌, ◌≤◌, ◌≡◌, refl, sym, ap, ◌∙◌, subst, inl, inr, arith, Bool, true, Option, none, some,
  List, [], ◌∷◌, ◌++◌, if◌then◌else◌, ltb, length, take,
}
use hassh.Text.{Bytes}
use hassh.Storage.Rows.{
  Row, hassh_fingerprint, logged, ip_address, ssh_client_banner, ssh_connection, Entry, Query,
  by_fingerprint, by_banner, by_address,
}
use hassh.Storage.Database.Replies.{After, after_done, after_failed, After-bind, After-mono}
use hassh.Storage.Database.{Database, IsLawful, tx}
use hassh.Storage.Repository.{
  Net, parse_ip, forget, with_address, get_or_create, get_or_create_hassh, get_or_create_banner,
  get_or_create_ip_address, record_body, record_connection, max_banner_column_length,
}
use hassh.Storage.Repository.Created.{IsGot, get_or_create-After}
use hassh.Storage.Statistics.{
  CountQuery, all_connections, blocked_connections, all_addresses, all_fingerprints, all_banners,
  is_counted, number,
}
use hassh.Storage.Statistics.Counts.{number-append}

-- At most so many rows more, or none less.
abbrev pub Between : CountQuery → ℕ → List Entry → List Entry → Type 0
Between q n es fs = (number q es ≤ number q fs) × (number q fs ≤ number q es + n)

-- The rows of the tables: so many connections more, so many of them blocked, and at most so many
-- addresses, fingerprints and banners more.
pub record IsGrown (connections blocked ips hashes banners : ℕ) (es fs : List Entry) : Type 0 where
  pub all : number all_connections fs ≡ number all_connections es + connections
  pub refused : number blocked_connections fs ≡ number blocked_connections es + blocked
  pub ip : Between all_addresses ips es fs
  pub hash : Between all_fingerprints hashes es fs
  pub banner : Between all_banners banners es fs

pub record IsSameLog (es fs : List Entry) : Type 0 where
  pub all : number all_connections fs ≡ number all_connections es
  pub refused : number blocked_connections fs ≡ number blocked_connections es

IsGrown-refl : (i h b : ℕ) (es : List Entry) → IsGrown 0 0 i h b es es
IsGrown-refl i h b es = record {
  all = omega arith;
  refused = omega arith;
  ip = (omega arith, omega arith);
  hash = (omega arith, omega arith);
  banner = (omega arith, omega arith);
}

IsGrown-trans :
    (c r i h b c' r' i' h' b' : ℕ) {es fs gs : List Entry}
    → IsGrown c r i h b es fs
    → IsGrown c' r' i' h' b' fs gs
    → IsGrown (c + c') (r + r') (i + i') (h + h') (b + b') es gs
IsGrown-trans c r i h b c' r' i' h' b' g k = record {
  all = omega (arith, g.all, k.all);
  refused = omega (arith, g.refused, k.refused);
  ip = (omega (arith, g.ip, k.ip), omega (arith, g.ip, k.ip));
  hash = (omega (arith, g.hash, k.hash), omega (arith, g.hash, k.hash));
  banner = (omega (arith, g.banner, k.banner), omega (arith, g.banner, k.banner));
}

IsGrown-IsSameLog : {i h b : ℕ} {es fs : List Entry} → IsGrown 0 0 i h b es fs → IsSameLog es fs
IsGrown-IsSameLog g = record { all = omega (arith, g.all); refused = omega (arith, g.refused) }

abbrev pub bit : Bool → ℕ
bit b = if b then 1 else 0

add_zero_left : (n : ℕ) → 0 + n ≡ n
add_zero_left n = omega arith

-- One row more.
IsGrown-row :
    (es : List Entry) (n : ℕ) (row : Row)
    → IsGrown
        (bit (is_counted all_connections row))
        (bit (is_counted blocked_connections row))
        (bit (is_counted all_addresses row))
        (bit (is_counted all_fingerprints row))
        (bit (is_counted all_banners row))
        es
        (es ++ (n, row) ∷ [])
IsGrown-row es n row =
    let more : (q : CountQuery)
        → number q (es ++ (n, row) ∷ []) ≡ number q es + bit (is_counted q row) =
      λ q. number-append q es (n, row) in
    record {
      all = more all_connections;
      refused = more blocked_connections;
      ip = (omega (arith, more all_addresses), omega (arith, more all_addresses));
      hash = (omega (arith, more all_fingerprints), omega (arith, more all_fingerprints));
      banner = (omega (arith, more all_banners), omega (arith, more all_banners));
    }

-- A row that was found or added.
module _ (i h b : ℕ) (q : Query) (row : Row) where
  IsGot-IsGrown :
      (n : ℕ) (es fs : List Entry)
      → IsGrown 0 0 i h b es (es ++ (n, row) ∷ [])
      → IsGot q row n es fs
      → IsGrown 0 0 i h b es fs
  IsGot-IsGrown n es fs g (inl (same_rows, _)) = rw same_rows (IsGrown-refl i h b es)
  IsGot-IsGrown n es fs g (inr (added, _, _)) = rw added g

module _ (D : Database) (L : IsLawful D) where
  -- Outside the transaction, so many rows more.
  abbrev Grown : ℕ → ℕ → ℕ → List Entry → D.State → Type 0
  Grown i h b es u = IsGrown 0 0 i h b es (D.rows u) × (D.is_fresh u ≡ true)

  get_or_create-Grown :
      (i h b : ℕ) (q : Query) (row : Row) (s : D.State)
      → D.is_fresh s ≡ true
      → ((n : ℕ) → IsGrown 0 0 i h b (D.rows s) (D.rows s ++ (n, row) ∷ []))
      → After
          (λ n u. Grown i h b (D.rows s) u)
          (λ _ u. IsSameLog (D.rows s) (D.rows u))
          (get_or_create D q row s)
  get_or_create-Grown i h b q row s fresh g =
      After-mono
        (λ n u got. (IsGot-IsGrown i h b q row n (D.rows s) (D.rows u) (g n) got.0, got.1 ∙ fresh))
        (λ _ u kept. rw kept.0 (record { all = refl; refused = refl }))
        (get_or_create-After D L q row s)

  with_address-Grown :
      (o : Option (ℕ × Bytes)) (s : D.State)
      → D.is_fresh s ≡ true
      → After
          (λ n u. Grown 1 0 0 (D.rows s) u)
          (λ _ u. IsSameLog (D.rows s) (D.rows u))
          (with_address D o s)
  unfolding is_counted
  with_address-Grown none s fresh = after_failed (record { all = refl; refused = refl })
  with_address-Grown (some (v, a)) s fresh =
      get_or_create-Grown 1 0 0 (by_address v a) (logged (ip_address v a)) s fresh
        (λ n. IsGrown-row (D.rows s) n (logged (ip_address v a)))

  module _ (N : Net) (ip hassh banner : Bytes) (blocked : Bool) (es : List Entry) where
    abbrev Counted : List Entry → Type 0
    Counted = IsGrown 1 (bit blocked) 1 1 1 es

    same_log :
        {i h b : ℕ} {fs gs : List Entry}
        → IsGrown 0 0 i h b es fs
        → IsSameLog fs gs
        → IsSameLog es gs
    same_log g k = record {
      all = omega (arith, g.all, k.all);
      refused = omega (arith, g.refused, k.refused);
    }

    insert-Counted :
        (i j k : ℕ) (w : D.State)
        → Grown 1 1 1 es w
        → After
            (λ _ u. Counted (D.seen u) × IsSameLog es (D.rows u))
            (λ _ u. IsSameLog es (D.rows u))
            (forget D (D.create tx (logged (ssh_connection i j k blocked)) w))
    unfolding is_counted
    insert-Counted i j k w (g, fresh) =
        let row = logged (ssh_connection i j k blocked) in
        After-bind
          (After-mono (λ n u made. made)
            (λ _ u kept. subst (IsSameLog es) (sym kept) (IsGrown-IsSameLog g)) (L.create_tx row w))
          λ n u made.
            let rows = made.0 ∙ ap (λ fs. fs ++ (n, row) ∷ []) (L.fresh w fresh) in
            after_done (
              subst Counted (sym rows) (
                  subst (λ r. IsGrown 1 r 1 1 1 es (D.rows w ++ (n, row) ∷ []))
                    (add_zero_left (bit blocked))
                    (IsGrown-trans 0 0 1 1 1 1 (bit blocked) 0 0 0 g
                      (IsGrown-row (D.rows w) n row))),
              subst (IsSameLog es) (sym made.1) (IsGrown-IsSameLog g),
            )

    record_body-Counted :
        (t : D.State)
        → D.rows t ≡ es
        → D.is_fresh t ≡ true
        → After
            (λ _ u. Counted (D.seen u) × IsSameLog es (D.rows u))
            (λ _ u. IsSameLog es (D.rows u))
            (record_body D N ip hassh banner blocked t)
    unfolding record_body get_or_create_ip_address get_or_create_hassh get_or_create_banner
        is_counted
    record_body-Counted t e fresh =
        After-bind {R = λ _ y. Grown 1 0 0 es y}
          (After-mono (λ i u g. (subst (λ fs. IsGrown 0 0 1 0 0 fs (D.rows u)) e g.0, g.1))
            (λ _ u k. subst (λ fs. IsSameLog fs (D.rows u)) e k)
            (with_address-Grown (parse_ip N ip) t fresh))
          λ i u gi.
            After-bind {R = λ _ y. Grown 1 1 0 es y}
              (After-mono (λ j x g. (IsGrown-trans 0 0 1 0 0 0 0 0 1 0 gi.0 g.0, g.1))
                (λ _ x k. same_log gi.0 k)
                (get_or_create-Grown 0 1 0 (by_fingerprint hassh) (hassh_fingerprint hassh) u gi.1
                  (λ n. IsGrown-row (D.rows u) n (hassh_fingerprint hassh))))
              λ j x gj.
                After-bind {R = λ _ y. Grown 1 1 1 es y}
                  (After-mono (λ k w g. (IsGrown-trans 0 0 1 1 0 0 0 0 0 1 gj.0 g.0, g.1))
                    (λ _ w k. same_log gj.0 k)
                    (get_or_create-Grown 0 0 1 (by_banner banner)
                      (logged (ssh_client_banner banner)) x gj.1
                      (λ n. IsGrown-row (D.rows x) n (logged (ssh_client_banner banner)))))
                  λ k w gk. insert-Counted i j k w gk

  -- Over a database that meets its laws, a successful `RecordConnection` makes the connections that
  -- `GetStatistics` counts one more, the blocked ones one more exactly if the connection was blocked,
  -- and addresses, fingerprints and banners each at most one more and none less. One that fails
  -- leaves both numbers of connections as they are.
  pub record_connection-IsGrown :
      (N : Net) (ip hassh banner : Bytes) (blocked : Bool) (s : D.State)
      → After
          (λ _ t. IsGrown 1 (bit blocked) 1 1 1 (D.rows s) (D.rows t))
          (λ _ t. IsSameLog (D.rows s) (D.rows t))
          (record_connection D N ip hassh banner blocked s)
  unfolding record_connection
  record_connection-IsGrown N ip hassh banner blocked s =
      let clipped =
        if ltb max_banner_column_length (length banner)
        then take max_banner_column_length banner
        else banner in
      L.transaction (IsGrown 1 (bit blocked) 1 1 1 (D.rows s)) (IsSameLog (D.rows s))
        (record_body D N ip hassh clipped blocked) s (record { all = refl; refused = refl })
        (λ t e fresh. record_body-Counted N ip hassh clipped blocked (D.rows s) t e fresh)

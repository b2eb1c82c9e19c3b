-- ===== src/Storage/Statistics/Counts.antt =====
-- The numbers of `GetStatistics` against the tables, and how a recorded connection changes them.
use hassh.Common.{
  ℕ, ◌+◌, ◌≤◌, ◌≡◌, refl, ap, sym, ◌∙◌, subst, ◌⊎◌, inl, inr, arith, true, false, List, [], ◌∷◌,
  ◌++◌, if◌then◌else◌,
}
use hassh.Storage.Rows.{
  hassh_fingerprint, blocked_fingerprint, logged, ip_address, ssh_client_banner, ssh_connection,
  Entry,
}
use hassh.Storage.Database.Replies.{DbError, Reply, done, failed, After, after_done, after_failed}
use hassh.Storage.Database.{Database, Kept}
use hassh.Storage.Statistics.{
  CountQuery, all_connections, blocked_connections, all_addresses, all_fingerprints, all_banners,
  Statistics, left_in, is_counted, number, Counter, IsCounter, get_statistics,
}

pub number-append :
    (q : CountQuery) (es : List Entry) (x : Entry)
    → number q (es ++ x ∷ []) ≡ number q es + (if is_counted q x.1 then 1 else 0)
unfolding number
number-append q [] x = omega arith
number-append q (e ∷ es) x = omega (arith, number-append q es x)

number_blocked : (es : List Entry) → number blocked_connections es ≤ number all_connections es
unfolding number is_counted
number_blocked [] = omega arith
number_blocked ((i, logged (ssh_connection _ _ _ true)) ∷ es) = omega (arith, number_blocked es)
number_blocked ((i, logged (ssh_connection _ _ _ false)) ∷ es) = omega (arith, number_blocked es)
number_blocked ((i, logged (ip_address _ _)) ∷ es) = omega (arith, number_blocked es)
number_blocked ((i, logged (ssh_client_banner _)) ∷ es) = omega (arith, number_blocked es)
number_blocked ((i, hassh_fingerprint _) ∷ es) = omega (arith, number_blocked es)
number_blocked ((i, blocked_fingerprint _ _) ∷ es) = omega (arith, number_blocked es)

-- From a state with the rows `es`, counts one after the other, with what is left of each: the number
-- of the rows if the count succeeded, and zero if it failed.
pub data Counts (D : Database) (K : Counter D) (es : List Entry)
    : D.State → List (CountQuery × ℕ) → D.State → Type 0 where
  no_more : {s : D.State} → Counts D K es s [] s
  succeeds :
      {q : CountQuery} {s t u : D.State} {ns : List (CountQuery × ℕ)}
      → K.count q s ≡ (done (number q es), t)
      → Counts D K es t ns u
      → Counts D K es s ((q, number q es) ∷ ns) u
  fails :
      {q : CountQuery} {e : DbError} {s t u : D.State} {ns : List (CountQuery × ℕ)}
      → K.count q s ≡ (failed e, t)
      → Counts D K es t ns u
      → Counts D K es s ((q, 0) ∷ ns) u

-- The fields, each with its count, in the order in which they are counted.
abbrev pub fields_of : Statistics → List (CountQuery × ℕ)
fields_of st =
    (all_connections, st.total_connections)
    ∷ (blocked_connections, st.blocked_connections)
    ∷ (all_addresses, st.unique_ips)
    ∷ (all_fingerprints, st.unique_fingerprints)
    ∷ (all_banners, st.unique_banners)
    ∷ []

-- The blocked connections are not above the connections, or of these none were counted.
pub rate_of :
    {D : Database} {K : Counter D} {es : List Entry} {s u : D.State} {n m : ℕ}
    {ns : List (CountQuery × ℕ)}
    → Counts D K es s ((all_connections, n) ∷ (blocked_connections, m) ∷ ns) u
    → (m ≤ n) ⊎ (n ≡ 0)
rate_of {es} (succeeds e (succeeds f c)) = inl (number_blocked es)
rate_of {es} (succeeds e (fails f c)) = inl (omega arith)
rate_of (fails e c) = inr refl

module _ (D : Database) (K : Counter D) (H : IsCounter D K) (es : List Entry) where
  -- One count more in front.
  count_one :
      (q : CountQuery) (s : D.State) {ns : List (CountQuery × ℕ)} {u : D.State}
      → D.rows s ≡ es
      → Counts D K es (K.count q s).1 ns u
      → Counts D K es s ((q, left_in (K.count q s).0) ∷ ns) u
  count_one q s {ns} {u} same c = go (K.count q s) refl (H.count_rows q s) c
    where
      go :
          (m : Reply ℕ × D.State)
          → K.count q s ≡ m
          → After (λ n t. Kept D s t × (n ≡ number q (D.rows s))) (λ _ t. Kept D s t) m
          → Counts D K es m.1 ns u
          → Counts D K es s ((q, left_in m.0) ∷ ns) u
      go (done n, t) e (after_done (kept, size)) c =
          let exact : n ≡ number q es = size ∙ ap (number q) same in
          subst (λ k. Counts D K es s ((q, k) ∷ ns) u) (sym exact)
            (succeeds (e ∙ ap (λ k. (done k, t)) exact) c)
      go (failed x, t) e (after_failed kept) c = fails e c

  count_rows : (q : CountQuery) (s : D.State) → D.rows s ≡ es → D.rows (K.count q s).1 ≡ es
  count_rows q s same = go (H.count_rows q s)
    where
      go :
          {m : Reply ℕ × D.State}
          → After (λ n t. Kept D s t × (n ≡ number q (D.rows s))) (λ _ t. Kept D s t) m
          → D.rows m.1 ≡ es
      go (after_done (kept, e)) = kept.0 ∙ same
      go (after_failed kept) = kept.0 ∙ same

-- `GetStatistics` reports no error, changes nothing, and gives in each field what is left of its
-- count: the number of the rows, and zero only if the count failed.
pub get_statistics-Counts :
    (D : Database) (K : Counter D) (H : IsCounter D K) (s : D.State)
    → (st : Statistics) × ((t : D.State) × ((get_statistics D K s ≡ (done st, t))
          × Counts D K (D.rows s) s (fields_of st) t
          × (D.rows t ≡ D.rows s)))
unfolding get_statistics
get_statistics-Counts D K H s =
    let es = D.rows s in
    let t = (K.count all_connections s).1 in
    let u = (K.count blocked_connections t).1 in
    let v = (K.count all_addresses u).1 in
    let w = (K.count all_fingerprints v).1 in
    let et = count_rows D K H es all_connections s refl in
    let eu = count_rows D K H es blocked_connections t et in
    let ev = count_rows D K H es all_addresses u eu in
    let ew = count_rows D K H es all_fingerprints v ev in
    let banners = count_one D K H es all_banners w ew no_more in
    let hashes = count_one D K H es all_fingerprints v ev banners in
    let ips = count_one D K H es all_addresses u eu hashes in
    let blocked = count_one D K H es blocked_connections t et ips in
    let total = count_one D K H es all_connections s refl blocked in
    (_, (_, (refl, total, count_rows D K H es all_banners w ew)))

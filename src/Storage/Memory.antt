-- ===== src/Storage/Memory.antt =====
-- A database in memory, which the tests run the repository of pkg/storage/db.go on. Each statement
-- takes a Boolean off a script, and fails if it is true.
use hassh.Common.{
  ℕ, suc, ◌≤◌, ◌≡◌, refl, inl, inr, Bool, true, false, Option, Option-cases, none, some, List, [],
  ◌∷◌, ◌++◌, arith, ltb, if◌then◌else◌,
}
use hassh.Text.{Bytes}
use hassh.Filter.Laws.{listed}
use hassh.Storage.Rows.{
  Row, hassh_fingerprint, blocked_fingerprint, logged, Entry, Query, by_hassh_id, find, has,
  without, taken, joined, matches,
}
use hassh.Storage.Database.Replies.{
  DbError, record_not_found, query_failed, Reply, done, failed, After, after_done, after_failed,
}
use hassh.Storage.Database.{Handle, pool, tx, Database, IsLawful}

pub record Memory : Type 0 where
  pub rows : List Entry
  pub changed : List Entry
  pub is_fresh : Bool
  pub fails : List Bool

abbrev seen : Memory → List Entry
seen m = if m.is_fresh then m.rows else m.changed

abbrev script : Memory → List Bool → Memory
script m fails = record m { fails = fails }

abbrev tried : {A : Type 0} → (Memory → Reply A × Memory) → Memory → List Bool → Reply A × Memory
tried k m [] = k (script m [])
tried k m (false ∷ fails) = k (script m fails)
tried k m (true ∷ fails) = (failed query_failed, script m fails)

tried-After :
    {A : Type 0} (P : A → Memory → Type 0) (Q : DbError → Memory → Type 0)
    (k : Memory → Reply A × Memory) (m : Memory) (fails : List Bool)
    → ((fs : List Bool) → After P Q (k (script m fs)))
    → ((fs : List Bool) → Q query_failed (script m fs))
    → After P Q (tried k m fails)
tried-After P Q k m [] h g = h []
tried-After P Q k m (false ∷ fails) h g = h fails
tried-After P Q k m (true ∷ fails) h g = after_failed (g fails)

-- A key above all others.
abbrev next_id : List Entry → ℕ
next_id [] = 1
next_id (e ∷ es) = let n = next_id es in if ltb e.0 n then n else suc e.0

taken_above : (r : Row) (i : ℕ) (es : List Entry) → next_id es ≤ i → taken r i es ≡ false
unfolding taken
taken_above r i [] h = refl
taken_above r i (e ∷ es) h = ground (arith, taken_above r i es)

abbrev answer : Option Entry → Memory → Reply Entry × Memory
answer none m = (failed record_not_found, m)
answer (some e) m = (done e, m)

abbrev find_in : Handle → Query → Memory → Reply Entry × Memory
find_in pool q m = answer (find q m.rows) m
find_in tx q m = answer (find q (seen m)) (record m { changed = seen m; is_fresh = false })

abbrev insert_row : Handle → Row → Memory → Reply ℕ × Memory
insert_row pool row m =
    let i = next_id m.rows in (done i, record m { rows = m.rows ++ (i, row) ∷ [] })
insert_row tx row m =
    let i = next_id (seen m) in
    (done i, record m { changed = seen m ++ (i, row) ∷ []; is_fresh = false })

abbrev blocked_list : List Entry → List Entry → List Bytes
blocked_list [] bs = []
blocked_list ((i, hassh_fingerprint f) ∷ es) bs =
    let rest = blocked_list es bs in if has (by_hassh_id i) bs then f ∷ rest else rest
blocked_list ((i, _) ∷ es) bs = blocked_list es bs

listed-blocked_list :
    (k : Bytes) (es bs : List Entry) → listed k (blocked_list es bs) ≡ joined k es bs
unfolding joined matches
listed-blocked_list k [] bs = refl
listed-blocked_list k ((i, hassh_fingerprint f) ∷ es) bs =
    ground (arith, listed-blocked_list k es bs)
listed-blocked_list k ((i, blocked_fingerprint n r) ∷ es) bs = listed-blocked_list k es bs
listed-blocked_list k ((i, logged r) ∷ es) bs = listed-blocked_list k es bs

abbrev commit : Memory → Reply (Unit {0}) × Memory
commit m = (done tt, record m { rows = seen m })

abbrev settle_body : Reply (Unit {0}) × Memory → Reply (Unit {0}) × Memory
settle_body (done _, m) = tried commit m m.fails
settle_body (failed e, m) = (failed e, m)

abbrev remove : Query → Memory → Reply (Unit {0}) × Memory
remove q m = (done tt, record m { changed = without q (seen m); is_fresh = false })

abbrev pluck : Memory → Reply (List Bytes) × Memory
pluck m = (done (blocked_list m.rows m.rows), m)

abbrev transact : (Memory → Reply (Unit {0}) × Memory) → Memory → Reply (Unit {0}) × Memory
transact body m = settle_body (body (record m { is_fresh = true }))

abbrev pub memory_database : Database
memory_database = record {
  State = Memory;
  rows = λ m. m.rows;
  seen = seen;
  is_fresh = λ m. m.is_fresh;
  first = λ h q m. tried (find_in h q) m m.fails;
  create = λ h row m. tried (insert_row h row) m m.fails;
  delete = λ q m. tried (remove q) m m.fails;
  pluck_blocked = λ m. tried pluck m m.fails;
  transaction = λ body m. tried (transact body) m m.fails;
}

settle_body-After :
    (P R : List Entry → Type 0) {m : Reply (Unit {0}) × Memory}
    → After (λ _ u. P (seen u) × R u.rows) (λ _ u. R u.rows) m
    → After (λ _ t. P t.rows) (λ _ t. R t.rows) (settle_body m)
settle_body-After P R (after_done {s = u} (p, r)) =
    tried-After (λ _ t. P t.rows) (λ _ t. R t.rows) commit u u.fails (λ fs. after_done p) (λ fs. r)
settle_body-After P R (after_failed r) = after_failed r

pub memory_database-IsLawful : IsLawful memory_database
memory_database-IsLawful = record {
  fresh = λ m h. rw h refl;
  first_pool = λ q m. elim (Option-cases (find q m.rows)) [
    | inl e ↦
        tried-After _ _ (find_in pool q) m m.fails
          (λ fs. rw e (after_failed ((refl, refl), λ _. refl))) (λ fs. ((refl, refl), λ h. cc))
    | inr (x, e) ↦
        tried-After _ _ (find_in pool q) m m.fails (λ fs. rw e (after_done ((refl, refl), refl)))
          (λ fs. ((refl, refl), λ h. cc))
  ];
  first_tx = λ q m. elim (Option-cases (find q (seen m))) [
    | inl e ↦
        tried-After _ _ (find_in tx q) m m.fails (λ fs. rw e (after_failed (refl, refl, λ _. refl)))
          (λ fs. (refl, refl, λ h. cc))
    | inr (x, e) ↦
        tried-After _ _ (find_in tx q) m m.fails (λ fs. rw e (after_done (refl, refl, refl)))
          (λ fs. (refl, refl, λ h. cc))
  ];
  create_pool = λ r m.
      tried-After _ _ (insert_row pool r) m m.fails
        (λ fs. after_done (refl, refl, taken_above r (next_id m.rows) m.rows (omega arith)))
        (λ fs. (refl, refl));
  create_tx = λ r m.
      tried-After _ _ (insert_row tx r) m m.fails
        (λ fs. after_done (refl, refl, taken_above r (next_id (seen m)) (seen m) (omega arith)))
        (λ fs. refl);
  delete_tx =
      λ q m. tried-After _ _ (remove q) m m.fails (λ fs. after_done (refl, refl)) (λ fs. refl);
  pluck = λ m.
      tried-After _ _ pluck m m.fails
        (λ fs. after_done ((refl, refl), λ k. listed-blocked_list k m.rows m.rows))
        (λ fs. (refl, refl));
  transaction = λ P R body m r h.
      tried-After _ _ (transact body) m m.fails
        (λ fs. settle_body-After P R (h (record m { is_fresh = true; fails = fs }) refl refl))
        (λ fs. r);
}

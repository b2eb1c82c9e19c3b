-- ===== src/Storage/Database.antt =====
-- The database as pkg/storage/db.go calls it through gorm, and what the repository relies on. `pool`
-- is `r.db`, whose statements take effect at once; `tx` is the handle of an open transaction.
pub mod Replies
use hassh.Common.{ℕ, ◌≡◌, Bool, true, false, none, some, List, [], ◌∷◌, ◌++◌}
use hassh.Text.{Bytes}
use hassh.Filter.Laws.{listed}
use hassh.Storage.Rows.{Row, Entry, Query, find, without, taken, is_blocked}
use hassh.Storage.Database.Replies.{DbError, record_not_found, Reply, After}

pub data Handle : Type 0 where
  pool : Handle
  tx : Handle

pub record Database : Type 1 where
  pub State : Type 0
  -- what is committed, what the open transaction sees, and whether it has run no statement yet
  pub rows : State → List Entry
  pub seen : State → List Entry
  pub is_fresh : State → Bool
  pub first : Handle → Query → State → Reply Entry × State
  pub create : Handle → Row → State → Reply ℕ × State
  pub delete : Query → State → Reply (Unit {0}) × State
  -- the join and `Pluck` of `LoadBlockedHashes`
  pub pluck_blocked : State → Reply (List Bytes) × State
  pub transaction : (State → Reply (Unit {0}) × State) → State → Reply (Unit {0}) × State

module _ (D : Database) where
  -- A statement outside the transaction that writes nothing.
  abbrev pub Kept : D.State → D.State → Type 0
  Kept s t = (D.rows t ≡ D.rows s) × (D.is_fresh t ≡ D.is_fresh s)

  -- `gorm.ErrRecordNotFound` is returned only if there is no such row.
  abbrev pub IsMiss : DbError → Query → List Entry → Type 0
  IsMiss e q es = e ≡ record_not_found → find q es ≡ none

  -- `First` returns the row of the least key that meets the condition. A new key is none of the
  -- table's. A failed statement writes nothing; a transaction commits what it sees if its body
  -- returns nil, and writes nothing if the body or the commit fails. Until its first statement, a
  -- transaction sees what is committed.
  pub record IsLawful : Type 1 where
    pub fresh : (s : D.State) → D.is_fresh s ≡ true → D.seen s ≡ D.rows s
    pub first_pool :
        (q : Query) (s : D.State)
        → After
            (λ e t. Kept s t × (find q (D.rows s) ≡ some e))
            (λ e t. Kept s t × IsMiss e q (D.rows s))
            (D.first pool q s)
    pub first_tx :
        (q : Query) (s : D.State)
        → After
            (λ e t. (D.rows t ≡ D.rows s) × (D.seen t ≡ D.seen s) × (find q (D.seen s) ≡ some e))
            (λ e t. (D.rows t ≡ D.rows s) × (D.seen t ≡ D.seen s) × IsMiss e q (D.seen s))
            (D.first tx q s)
    pub create_pool :
        (r : Row) (s : D.State)
        → After
            (λ i t.
              (D.rows t ≡ D.rows s ++ (i, r) ∷ [])
              × (D.is_fresh t ≡ D.is_fresh s)
              × (taken r i (D.rows s) ≡ false))
            (λ _ t. Kept s t)
            (D.create pool r s)
    pub create_tx :
        (r : Row) (s : D.State)
        → After
            (λ i t.
              (D.seen t ≡ D.seen s ++ (i, r) ∷ [])
              × (D.rows t ≡ D.rows s)
              × (taken r i (D.seen s) ≡ false))
            (λ _ t. D.rows t ≡ D.rows s)
            (D.create tx r s)
    pub delete_tx :
        (q : Query) (s : D.State)
        → After
            (λ _ t. (D.seen t ≡ without q (D.seen s)) × (D.rows t ≡ D.rows s))
            (λ _ t. D.rows t ≡ D.rows s)
            (D.delete q s)
    pub pluck :
        (s : D.State)
        → After
            (λ hs t. Kept s t × ((k : Bytes) → listed k hs ≡ is_blocked k (D.rows s)))
            (λ _ t. Kept s t)
            (D.pluck_blocked s)
    pub transaction :
        (P R : List Entry → Type 0) (body : D.State → Reply (Unit {0}) × D.State) (s : D.State)
        → R (D.rows s)
        → ((t : D.State)
            → D.rows t ≡ D.rows s
            → D.is_fresh t ≡ true
            → After (λ _ u. P (D.seen u) × R (D.rows u)) (λ _ u. R (D.rows u)) (body t))
        → After (λ _ t. P (D.rows t)) (λ _ t. R (D.rows t)) (D.transaction body s)

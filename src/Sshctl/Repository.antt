-- ===== src/Sshctl/Repository.antt =====
-- `storage.Repository` as cmd/sshctl calls it, what the commands rely on, and the repository of
-- pkg/storage/db.go that provides it.
use hassh.Common.{◌≡◌, refl, Bool, not, ◌&&◌, ◌||◌, Option, List}
use hassh.Text.{Bytes, same}
use hassh.Storage.Rows.{is_blocked}
use hassh.Storage.Rows.Consistent.{IsConsistent}
use hassh.Storage.Database.Replies.{Reply, After, After-mono, After-bind, after_done}
use hassh.Storage.Database.{Database, IsLawful}
use hassh.Storage.Repository.{Net, block_hash, unblock_hash}
use hassh.Storage.Repository.Blocking.{block_hash-After, unblock_hash-After}
use hassh.Storage.Queries.{
  ℤ, Clock, ConnectionDetail, HasshSummary, SelectQuery, Reader, list_connections,
  search_connections, list_hassh_summaries, search_hassh_summaries,
}

pub record Repository (C : Clock) : Type 1 where
  pub State : Type 0
  pub block_hash : Bytes → Bytes → State → Reply (Unit {0}) × State
  pub unblock_hash : Bytes → State → Reply (Unit {0}) × State
  pub list_hassh_summaries :
      ℤ → Option Bool → Bytes → Bool → State → Reply (List (HasshSummary C)) × State
  pub list_connections :
      ℤ → Option Bool → Bytes → Bool → State → Reply (List (ConnectionDetail C)) × State
  pub search_hassh_summaries : Bytes → Bytes → ℤ → State → Reply (List (HasshSummary C)) × State
  pub search_connections :
      Bytes → Bytes → Bytes → ℤ → State → Reply (List (ConnectionDetail C)) × State

module _ (C : Clock) where
  -- A repository keeps a set of blocked fingerprints: a call that succeeds adds or removes one, a
  -- call that fails changes nothing, and lists only read.
  pub record IsBlocklist (R : Repository C) : Type 1 where
    pub IsValid : R.State → Type 0
    pub blocks : R.State → Bytes → Bool
    pub block :
        (f reason : Bytes) (s : R.State)
        → IsValid s
        → After
            (λ _ t. IsValid t × ((k : Bytes) → blocks t k ≡ (same f k || blocks s k)))
            (λ _ t. IsValid t × ((k : Bytes) → blocks t k ≡ blocks s k))
            (R.block_hash f reason s)
    pub unblock :
        (f : Bytes) (s : R.State)
        → IsValid s
        → After
            (λ _ t. IsValid t × ((k : Bytes) → blocks t k ≡ (not (same f k) && blocks s k)))
            (λ _ t. IsValid t × ((k : Bytes) → blocks t k ≡ blocks s k))
            (R.unblock_hash f s)
    pub summaries :
        (limit : ℤ) (blocked : Option Bool) (sort_by : Bytes) (reverse : Bool) (s : R.State)
        → IsValid s
        → After
            (λ _ t. IsValid t × ((k : Bytes) → blocks t k ≡ blocks s k))
            (λ _ t. IsValid t × ((k : Bytes) → blocks t k ≡ blocks s k))
            (R.list_hassh_summaries limit blocked sort_by reverse s)
    pub connections :
        (limit : ℤ) (blocked : Option Bool) (sort_by : Bytes) (reverse : Bool) (s : R.State)
        → IsValid s
        → After
            (λ _ t. IsValid t × ((k : Bytes) → blocks t k ≡ blocks s k))
            (λ _ t. IsValid t × ((k : Bytes) → blocks t k ≡ blocks s k))
            (R.list_connections limit blocked sort_by reverse s)

  -- A query writes nothing.
  pub record IsReadOnly (D : Database) (Q : Reader C D.State) : Type 0 where
    pub connections :
        (q : SelectQuery) (s : D.State)
        → After (λ _ t. D.rows t ≡ D.rows s) (λ _ t. D.rows t ≡ D.rows s) (Q.find_connections q s)
    pub summaries :
        (q : SelectQuery) (s : D.State)
        → After (λ _ t. D.rows t ≡ D.rows s) (λ _ t. D.rows t ≡ D.rows s) (Q.find_summaries q s)

  module _ (D : Database) (Q : Reader C D.State) (N : Net) where
    abbrev pub storage_repository : Repository C
    storage_repository = record {
      State = D.State;
      block_hash = block_hash D;
      unblock_hash = unblock_hash D;
      list_hassh_summaries = list_hassh_summaries C Q N;
      list_connections = list_connections C Q N;
      search_hassh_summaries = search_hassh_summaries C Q N;
      search_connections = search_connections C Q N;
    }

    module _ (L : IsLawful D) (K : IsReadOnly D Q) where
      pub unchanged :
          (s t : D.State)
          → IsConsistent (D.rows s)
          → D.rows t ≡ D.rows s
          → IsConsistent (D.rows t)
            × ((k : Bytes) → is_blocked k (D.rows t) ≡ is_blocked k (D.rows s))
      unchanged s t c e = rw e (c, λ k. refl)

      -- The repository of pkg/storage keeps its set of blocked fingerprints in consistent tables, over
      -- every database that meets the laws.
      unfoldable pub storage_repository-IsBlocklist : IsBlocklist storage_repository
      unfolding list_hassh_summaries list_connections
      storage_repository-IsBlocklist = record {
        IsValid = λ s. IsConsistent (D.rows s);
        blocks = λ s k. is_blocked k (D.rows s);
        block = λ f reason s c.
            After-mono (λ _ t h. (h.consistent, h.blocked)) (λ _ t h. (h.consistent, h.blocked))
              (block_hash-After D L f reason s c);
        unblock = λ f s c.
            After-mono (λ _ t h. (h.consistent, h.blocked)) (λ _ t h. (h.consistent, h.blocked))
              (unblock_hash-After D L f s c);
        summaries = λ limit blocked sort_by reverse s c.
            After-bind
              (After-mono (λ _ t e. unchanged s t c e) (λ _ t e. unchanged s t c e)
                (K.summaries _ s))
              (λ _ t h. after_done h);
        connections = λ limit blocked sort_by reverse s c.
            After-bind
              (After-mono (λ _ t e. unchanged s t c e) (λ _ t e. unchanged s t c e)
                (K.connections _ s))
              (λ _ t h. after_done h);
      }

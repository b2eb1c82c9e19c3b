-- ===== src/Sshctl/Blocks.antt =====
-- cmd/sshctl/command/block.go and unblock.go: the loops over the arguments, with the lines that they
-- print.
use hassh.Common.{◌≡◌, refl, sym, ◌∙◌, ap, Bool, false, not, ◌&&◌, ◌||◌, List, [], ◌∷◌, ◌++◌, arith}
use hassh.Text.{Bytes, same}
use hassh.Filter.Laws.{listed}
use hassh.Storage.Database.Replies.{DbError, Reply, done, failed, After, after_done, after_failed}
use hassh.Storage.Queries.{Clock}
use hassh.Sshctl.Repository.{Repository, IsBlocklist}

-- What a command ends with: nil, the error of a call for one argument, or too few arguments, which
-- `cobra.MinimumNArgs(1)` refuses.
pub data Outcome : Type 0 where
  succeeded : Outcome
  call_failed : Bytes → DbError → Outcome
  no_arguments : Outcome

module _ {S : Type 0} (call : Bytes → S → Reply (Unit {0}) × S) where
  -- The arguments for which a line was printed, how the loop ended, and the state behind it.
  unfoldable pub each : List Bytes → S → List Bytes × Outcome × S
  each [] s = ([], succeeded, s)
  each (hassh ∷ args) s = elim (call hassh s).0 [
    | done _ ↦
        let (printed, outcome, t) = each args (call hassh s).1 in (hassh ∷ printed, outcome, t)
    | failed e ↦ ([], call_failed hassh e, (call hassh s).1)
  ]

  abbrev at_least_one : List Bytes → S → List Bytes × Outcome × S
  at_least_one [] s = ([], no_arguments, s)
  at_least_one (hassh ∷ args) s = each (hassh ∷ args) s

module _ (C : Clock) (R : Repository C) where
  unfoldable pub block_cmd : Bytes → List Bytes → R.State → List Bytes × Outcome × R.State
  unfolding each
  block_cmd reason = at_least_one (λ hassh. R.block_hash hassh reason)

  unfoldable pub unblock_cmd : List Bytes → R.State → List Bytes × Outcome × R.State
  unfolding each
  unblock_cmd = at_least_one R.unblock_hash

-- A run that left no argument over succeeded; otherwise the call for the first that is left failed.
abbrev pub IsEnd : List Bytes → Outcome → Type 0
IsEnd [] outcome = outcome ≡ succeeded
IsEnd (f ∷ rest) outcome = (e : DbError) × (outcome ≡ call_failed f e)

-- The printed arguments come first.
pub record IsPrinted (args printed : List Bytes) (outcome : Outcome) : Type 0 where
  pub rest : List Bytes
  pub order : args ≡ printed ++ rest
  pub end : IsEnd rest outcome

module _ {S : Type 0} (call : Bytes → S → Reply (Unit {0}) × S) (IsValid : S → Type 0)
    (blocks : S → Bytes → Bool) (change : Bool → Bool → Bool)
    (law : (f : Bytes) (s : S)
      → IsValid s
      → After
          (λ _ t. IsValid t × ((k : Bytes) → blocks t k ≡ change (same f k) (blocks s k)))
          (λ _ t. IsValid t × ((k : Bytes) → blocks t k ≡ blocks s k))
          (call f s))
    (idle : (b : Bool) → change false b ≡ b)
    (twice : (a b c : Bool) → change a (change b c) ≡ change (b || a) c) where
  Ran : List Bytes → S → List Bytes × Outcome × S → Type 0
  Ran args s r =
      IsPrinted args r.0 r.1
      × IsValid r.2
      × ((k : Bytes) → blocks r.2 k ≡ change (listed k r.0) (blocks s k))

  each-Ran : (args : List Bytes) (s : S) → IsValid s → Ran args s (each call args s)
  unfolding each Ran
  each-Ran [] s v =
      (record { rest = []; order = refl; end = refl }, v, λ k. sym (idle (blocks s k)))
  each-Ran (f ∷ args) s v = go (call f s) (law f s v) (each-Ran args)
    where
      go :
          (r : Reply (Unit {0}) × S)
          → After
              (λ _ t. IsValid t × ((k : Bytes) → blocks t k ≡ change (same f k) (blocks s k)))
              (λ _ t. IsValid t × ((k : Bytes) → blocks t k ≡ blocks s k))
              r
          → ((t : S) → IsValid t → Ran args t (each call args t))
          → Ran (f ∷ args) s (elim r.0 [
            | done _ ↦ let (printed, outcome, t) = each call args r.1 in (f ∷ printed, outcome, t)
            | failed e ↦ ([], call_failed f e, r.1)
          ])
      go (done _, t) (after_done (vt, bt)) ih =
          let (printed, vu, bu) = ih t vt in
          let names = (each call args t).0 in
          (
            record {
              rest = printed.rest;
              order = ap (λ xs. f ∷ xs) printed.order;
              end = printed.end;
            },
            vu,
            λ k.
                bu k
                ∙ ap (change (listed k names)) (bt k)
                ∙ twice (listed k names) (same f k) (blocks s k),
          )
      go (failed e, t) (after_failed (vt, bt)) ih = (
        record { rest = f ∷ args; order = refl; end = (e, refl) },
        vt,
        λ k. bt k ∙ sym (idle (blocks s k)),
      )

module _ (C : Clock) (R : Repository C) (L : IsBlocklist C R) where
  -- `sshctl block`, given one fingerprint or more on a valid repository, blocks them in order until
  -- a call fails. Exactly those that it prints are blocked in addition; they are all, unless the
  -- call for the next one failed.
  pub block_cmd_lem :
      (reason f : Bytes) (args : List Bytes) (s : R.State) (k : Bytes)
      → L.IsValid s
      → let r = block_cmd C R reason (f ∷ args) s in
        IsPrinted (f ∷ args) r.0 r.1 × (L.blocks r.2 k ≡ (listed k r.0 || L.blocks s k))
  unfolding block_cmd Ran
  block_cmd_lem reason f args s k v =
      let ran =
        each-Ran (λ hassh. R.block_hash hassh reason) L.IsValid L.blocks (λ a b. a || b)
          (λ f s v. L.block f reason s v) (λ b. refl) (λ a b c. ground arith) (f ∷ args) s v in
      (ran.0, ran.2 k)

  -- `sshctl unblock`, given one fingerprint or more on a valid repository, unblocks them in order
  -- until a call fails. Exactly those that it prints are no longer blocked; they are all, unless the
  -- call for the next one failed.
  pub unblock_cmd_lem :
      (f : Bytes) (args : List Bytes) (s : R.State) (k : Bytes)
      → L.IsValid s
      → let r = unblock_cmd C R (f ∷ args) s in
        IsPrinted (f ∷ args) r.0 r.1 × (L.blocks r.2 k ≡ (not (listed k r.0) && L.blocks s k))
  unfolding unblock_cmd Ran
  unblock_cmd_lem f args s k v =
      let ran =
        each-Ran R.unblock_hash L.IsValid L.blocks (λ a b. not a && b) L.unblock (λ b. refl)
          (λ a b c. ground arith) (f ∷ args) s v in
      (ran.0, ran.2 k)

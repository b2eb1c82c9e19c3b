-- ===== src/Sshctl/Tui/Reports.antt =====
-- The loop over the selected fingerprints of the terminal interface, and what a status message
-- reports of the set of blocked fingerprints.
pub mod Chosen
pub mod Selected
use hassh.Common.{
  ℕ, suc, ◌+◌, ◌≡◌, ◌≢◌, refl, sym, ◌∙◌, ap, Bool, false, ◌||◌, List, [], ◌∷◌, ◌++◌, append-nil,
  append_assoc, map, arith, length, take, All, Result, ok, slice-eq-ok, Ensures, ensures_ok,
  Ensures-mono,
}
use hassh.Text.{Bytes, same}
use hassh.Filter.{BoolMap}
use hassh.Filter.Laws.{listed}
use hassh.Storage.Database.Replies.{DbError, Reply, done, failed, After, after_done, after_failed}
use hassh.Sshctl.Tui.{ViewMode, Status, none_selected, changed, partly_changed}
use hassh.Sshctl.Tui.Changes.{counted, change_each}
use hassh.Sshctl.Tui.Sound.{IsLong}

-- The fingerprints, in order, as those whose call succeeded and those whose call failed.
pub data Parted : List Bytes → List Bytes → List Bytes → Type 0 where
  parted_nil : Parted [] [] []
  parted_done : {f : Bytes} {hs ds rs : List Bytes} → Parted hs ds rs → Parted (f ∷ hs) (f ∷ ds) rs
  parted_refused :
      {f : Bytes} {hs ds rs : List Bytes} → Parted hs ds rs → Parted (f ∷ hs) ds (f ∷ rs)

module _ {S : Type 0} (IsValid : S → Type 0) (blocks : S → Bytes → Bool)
    (change : Bool → Bool → Bool) where
  -- The state behind the calls for `hs`: exactly those that succeeded have changed.
  pub record IsTally (hs : List Bytes) (s : S) (count : ℕ) (errors : List (Bytes × DbError)) (t : S)
      : Type 0 where
    pub succeeded : List Bytes
    pub refused : List Bytes
    pub parted : Parted hs succeeded refused
    pub counted : count ≡ length succeeded
    pub reported : map (λ e. e.0) errors ≡ map (take 8) refused
    pub valid : IsValid t
    pub changed : (k : Bytes) → blocks t k ≡ change (listed k succeeded) (blocks s k)

  -- The state that a status message of a view reports of its selection: `blocking` tells which of
  -- the two was asked for, and `names` which fingerprints `hs` holds.
  abbrev pub IsReport :
      ViewMode → BoolMap → Bool → List Bytes → (Bytes → Bool) → S → S → Status → Type 0
  IsReport view selected blocking hs names s t (changed b count) =
      (selected ≢ [])
      × (b ≡ blocking)
      × (count ≡ length hs)
      × IsValid t
      × ((k : Bytes) → blocks t k ≡ change (names k) (blocks s k))
  IsReport view selected blocking hs names s t (partly_changed b count errors) =
      (selected ≢ []) × (b ≡ blocking) × IsTally hs s count errors t
  IsReport view selected blocking hs names s t (none_selected mode) =
      (mode ≡ view) × (selected ≡ []) × (s ≡ t)
  IsReport view selected blocking hs names s t _ = ⊥

  module _ (call : Bytes → S → Reply (Unit {0}) × S)
      (law : (f : Bytes) (s : S)
        → IsValid s
        → After
            (λ _ t. IsValid t × ((k : Bytes) → blocks t k ≡ change (same f k) (blocks s k)))
            (λ _ t. IsValid t × ((k : Bytes) → blocks t k ≡ blocks s k))
            (call f s))
      (idle : (b : Bool) → change false b ≡ b)
      (twice : (a b c : Bool) → change a (change b c) ≡ change (b || a) c) where
    -- With what was counted and reported before.
    record Goes (hs : List Bytes) (s : S) (count : ℕ) (errors : List (Bytes × DbError))
        (r : ℕ × List (Bytes × DbError) × S) : Type 0 where
      n : ℕ
      new : List (Bytes × DbError)
      tally : IsTally hs s n new r.2
      sum : r.0 ≡ count + n
      all : r.1 ≡ errors ++ new

    counted-Goes :
        (f : Bytes) (hs : List Bytes) (s : S) (count : ℕ) (errors : List (Bytes × DbError))
        (rest : ℕ → List (Bytes × DbError) → S → Result ⊥ (ℕ × List (Bytes × DbError) × S))
        {r : Reply (Unit {0}) × S}
        → IsLong f
        → After
            (λ _ t. IsValid t × ((k : Bytes) → blocks t k ≡ change (same f k) (blocks s k)))
            (λ _ t. IsValid t × ((k : Bytes) → blocks t k ≡ blocks s k))
            r
        → ((c : ℕ) (es : List (Bytes × DbError)) (t : S)
            → IsValid t
            → Ensures (Goes hs t c es) (λ _. ⊥) (rest c es t))
        → Ensures (Goes (f ∷ hs) s count errors) (λ _. ⊥) (counted f count errors rest r)
    counted-Goes f hs s count errors rest long (after_done {s = t} (v, h)) ih =
        Ensures-mono
          (λ r g. record {
            n = suc g.n;
            new = g.new;
            tally = record {
              succeeded = f ∷ g.tally.succeeded;
              refused = g.tally.refused;
              parted = parted_done g.tally.parted;
              counted = ap suc g.tally.counted;
              reported = g.tally.reported;
              valid = g.tally.valid;
              changed = λ k.
                  g.tally.changed k
                  ∙ ap (change (listed k g.tally.succeeded)) (h k)
                  ∙ twice (listed k g.tally.succeeded) (same f k) (blocks s k);
            };
            sum = omega (arith, g.sum);
            all = g.all;
          })
          (λ e x. x) (ih (suc count) errors t v)
    counted-Goes f hs s count errors rest long (after_failed {e} {s = t} (v, h)) ih =
        rw (slice-eq-ok f 0 8 (omega arith) long) (
          Ensures-mono
            (λ r g. record {
              n = g.n;
              new = (take 8 f, e) ∷ g.new;
              tally = record {
                succeeded = g.tally.succeeded;
                refused = f ∷ g.tally.refused;
                parted = parted_refused g.tally.parted;
                counted = g.tally.counted;
                reported = ap (λ xs. take 8 f ∷ xs) g.tally.reported;
                valid = g.tally.valid;
                changed = λ k. g.tally.changed k ∙ ap (change (listed k g.tally.succeeded)) (h k);
              };
              sum = g.sum;
              all = g.all ∙ append_assoc errors ((take 8 f, e) ∷ []) g.new;
            })
            (λ e x. x) (ih count (errors ++ (take 8 f, e) ∷ []) t v))

    change_each-Goes :
        (hs : List Bytes) (count : ℕ) (errors : List (Bytes × DbError)) (s : S)
        → IsValid s
        → All IsLong hs
        → Ensures (Goes hs s count errors) (λ _. ⊥) (change_each call hs count errors s)
    unfolding change_each
    change_each-Goes [] count errors s v long = ensures_ok (record {
      n = 0;
      new = [];
      tally = record {
        succeeded = [];
        refused = [];
        parted = parted_nil;
        counted = refl;
        reported = refl;
        valid = v;
        changed = λ k. sym (idle (blocks s k));
      };
      sum = omega arith;
      all = sym (append-nil errors);
    })
    change_each-Goes (f ∷ hs) count errors s v (p, long) =
        counted-Goes f hs s count errors (change_each call hs) p (law f s v)
          (λ c es t vt. change_each-Goes hs c es t vt long)

-- ===== src/Sshctl/Tui/Reports/Selected.antt =====
-- The keys that block and unblock what is selected, over a repository that keeps a set of blocked
-- fingerprints.
use hassh.Common.{
  ℕ, ◌≡◌, ◌≢◌, refl, ◌∙◌, ap, inl, inr, Bool, true, false, not, ◌&&◌, ◌||◌, List, [], ◌∷◌, map,
  arith, length, take, All, Ensures, ensures_ok, Ensures-bind, Bool-cases, ◌==◌,
}
use hassh.Text.{Bytes, codes, same}
use hassh.Filter.{BoolMap}
use hassh.Filter.Laws.{listed}
use hassh.Storage.Database.Replies.{DbError, Reply, After, after_done, after_failed}
use hassh.Storage.Queries.{Clock, ConnectionDetail, HasshSummary}
use hassh.Sshctl.Repository.{Repository, IsBlocklist}
use hassh.Sshctl.Tui.{
  ViewMode, view_listing, view_logs, Toolkit, Model, listing_loaded, logs_loaded, refresh_in,
  refresh_data,
}
use hassh.Sshctl.Tui.Changes.{
  chosen, change_status, change_all, unless_none, block_selected, block_selected_from_logs,
  unblock_selected, unblock_selected_from_logs,
}
use hassh.Sshctl.Tui.Sound.{IsLong, IsOrder, All-Perm, chosen-IsLong, keys-IsLong, hassh_set-IsLong}
use hassh.Sshctl.Tui.Reports.Chosen.{
  of_listing, of_logs, marked, picked, listed-chosen-order, listed-hassh_set,
}
use hassh.Sshctl.Tui.Reports.{
  Parted, parted_nil, parted_done, parted_refused, IsTally, IsReport, Goes, change_each-Goes,
}

length_zero : (m : BoolMap) → length m ≡ 0 → m ≡ []
length_zero [] e = refl
length_zero (x ∷ m) e = absurd (omega arith)

nonempty : (m : BoolMap) → (length m == 0) ≡ false → m ≢ []
nonempty [] h e = cc h
nonempty (x ∷ m) h e = cc e

Parted-whole :
    {hs ds rs : List Bytes} → Parted hs ds rs → ◌≡◌ {A = List Bytes} [] (map (take 8) rs) → ds ≡ hs
Parted-whole parted_nil e = refl
Parted-whole (parted_done {f} p) e = ap (λ xs. f ∷ xs) (Parted-whole p e)
Parted-whole (parted_refused p) e = absurd cc

module _ {S : Type 0} (IsValid : S → Type 0) (blocks : S → Bytes → Bool)
    (change : Bool → Bool → Bool) where
  IsTally-later :
      {hs : List Bytes} {s t u : S} {count : ℕ} {errors : List (Bytes × DbError)}
      → IsTally IsValid blocks change hs s count errors t
      → IsValid u
      → ((k : Bytes) → blocks u k ≡ blocks t k)
      → IsTally IsValid blocks change hs s count errors u
  IsTally-later a v h = record {
    succeeded = a.succeeded;
    refused = a.refused;
    parted = a.parted;
    counted = a.counted;
    reported = a.reported;
    valid = v;
    changed = λ k. h k ∙ a.changed k;
  }

module _ (C : Clock) (K : Toolkit) (R : Repository C) (L : IsBlocklist C R) (O : IsOrder K) where
  Kept : R.State → R.State → Type 0
  Kept t u = L.IsValid u × ((k : Bytes) → L.blocks u k ≡ L.blocks t k)

  listing_loaded-Kept :
      (m : Model C K) (t : R.State) {r : Reply (List (HasshSummary C)) × R.State}
      → After (λ _ u. Kept t u) (λ _ u. Kept t u) r
      → Kept t (listing_loaded C K m r).1
  listing_loaded-Kept m t (after_done h) = h
  listing_loaded-Kept m t (after_failed h) = h

  logs_loaded-Kept :
      (m : Model C K) (t : R.State) {r : Reply (List (ConnectionDetail C)) × R.State}
      → After (λ _ u. Kept t u) (λ _ u. Kept t u) r
      → Kept t (logs_loaded C K m r).1
  logs_loaded-Kept m t (after_done h) = h
  logs_loaded-Kept m t (after_failed h) = h

  refresh_in-Kept :
      (mode : ViewMode) (m : Model C K) (t : R.State)
      → L.IsValid t
      → Kept t (refresh_in C K R mode m t).1
  unfolding Kept
  refresh_in-Kept view_listing m t v = listing_loaded-Kept m t (L.summaries _ _ _ _ t v)
  refresh_in-Kept view_logs m t v = logs_loaded-Kept m t (L.connections _ _ _ _ t v)

  module _ (change : Bool → Bool → Bool) (call : Bytes → R.State → Reply (Unit {0}) × R.State)
      (law : (f : Bytes) (s : R.State)
        → L.IsValid s
        → After
            (λ _ t. L.IsValid t × ((k : Bytes) → L.blocks t k ≡ change (same f k) (L.blocks s k)))
            (λ _ t. L.IsValid t × ((k : Bytes) → L.blocks t k ≡ L.blocks s k))
            (call f s))
      (idle : (b : Bool) → change false b ≡ b)
      (twice : (a b c : Bool) → change a (change b c) ≡ change (b || a) c) where
    report :
        (mode : ViewMode) (selected : BoolMap) (b : Bool) (hs : List Bytes) (names : Bytes → Bool)
        (s u : R.State) (r : ℕ × List (Bytes × DbError) × R.State)
        → selected ≢ []
        → ((k : Bytes) → listed k hs ≡ names k)
        → Goes L.IsValid L.blocks change call law idle twice hs s 0 [] r
        → Kept r.2 u
        → IsReport L.IsValid L.blocks change mode selected b hs names s u (change_status b r.0 r.1)
    unfolding Kept
    report mode selected b hs names s u (count, [], t) some_selected named g (v, h) =
        let whole : g.tally.succeeded ≡ hs =
          Parted-whole g.tally.parted (ap (map (λ e. e.0)) g.all ∙ g.tally.reported) in
        let size : g.n ≡ length hs = g.tally.counted ∙ ap length whole in
        (
          some_selected,
          refl,
          omega (arith, g.sum, size),
          v,
          λ k.
              h k
              ∙ g.tally.changed k
              ∙ ap (λ xs. change (listed k xs) (L.blocks s k)) whole
              ∙ ap (λ x. change x (L.blocks s k)) (named k),
        )
    report mode selected b hs names s u (count, e ∷ errors, t) some_selected named g (v, h) =
        let counted : count ≡ g.n = omega (arith, g.sum) in
        (
          some_selected,
          refl,
          rw (counted, g.all) (IsTally-later L.IsValid L.blocks change g.tally v h),
        )

    changes-IsReport :
        (b : Bool) (mode : ViewMode) (hs : List Bytes) (names : Bytes → Bool) (m : Model C K)
        (s : R.State)
        → L.IsValid s
        → All IsLong hs
        → ((k : Bytes) → listed k hs ≡ names k)
        → Ensures
            (λ r.
              IsReport L.IsValid L.blocks change mode m.selected b hs names s r.1
                r.0.status_message)
            (λ _. ⊥)
            (unless_none C K R mode m s (change_all C K R b call hs m s))
    unfolding refresh_data
    changes-IsReport b mode hs names m s v long named = elim (Bool-cases (length m.selected == 0)) [
      | inl unselected ↦
          rw unselected (ensures_ok (refl, length_zero m.selected (ground arith), refl))
      | inr selected ↦ rw selected (
          Ensures-bind
            (change_each-Goes L.IsValid L.blocks change call law idle twice hs 0 [] s v long)
            (λ r g. ensures_ok (
              report mode m.selected b hs names s _ r (λ e. nonempty m.selected selected e) named g
                (refresh_in-Kept m.mode (record m { selected = [] }) r.2 g.tally.valid))))
    ]

  of_listing-IsLong :
      (m : Model C K) → All (λ e. IsLong e.0) m.selected → All IsLong (of_listing C K m)
  of_listing-IsLong m long = chosen-IsLong _ (All-Perm _ (O m.selected) long)

  of_logs-IsLong :
      (m : Model C K)
      → All (λ d. IsLong d.hassh_fingerprint) m.connections
      → All IsLong (of_logs C K m)
  of_logs-IsLong m long =
      keys-IsLong _ (
        All-Perm _ (O _)
          (hassh_set-IsLong C (chosen (K.order m.selected)) m.connections [] long tt))

  -- With the key `b` in the first view, on fingerprints of 8 bytes or more, the interface does not
  -- panic, and its status message is true: after "Blocked n" the n selected fingerprints, and no
  -- others, are blocked in addition; after errors, n of them, and the errors name the others; and
  -- "No fingerprints selected" stands there if the selection has no key, and only then, and nothing
  -- was done.
  pub block_selected-IsReport :
      (m : Model C K) (s : R.State)
      → L.IsValid s
      → All (λ e. IsLong e.0) m.selected
      → Ensures
          (λ r.
            IsReport L.IsValid L.blocks
              (λ a b. a || b)
              view_listing
              m.selected
              true
              (of_listing C K m)
              (λ k. marked k m.selected)
              s
              r.1
              r.0.status_message)
          (λ _. ⊥)
          (block_selected C K R m s)
  unfolding block_selected
  block_selected-IsReport m s v long =
      changes-IsReport (λ a b. a || b) _ (λ f s v. L.block f (codes "tui_block") s v) (λ b. refl)
        (λ a b c. ground arith) true view_listing (of_listing C K m) _ m s v
        (of_listing-IsLong m long) (λ k. listed-chosen-order K.order k m.selected (O m.selected))

  -- The same of the key `b` in the second view, for the fingerprints of the selected connections.
  pub block_selected_from_logs-IsReport :
      (m : Model C K) (s : R.State)
      → L.IsValid s
      → All (λ d. IsLong d.hassh_fingerprint) m.connections
      → Ensures
          (λ r.
            IsReport L.IsValid L.blocks
              (λ a b. a || b)
              view_logs
              m.selected
              true
              (of_logs C K m)
              (λ k. picked C k m.connections m.selected)
              s
              r.1
              r.0.status_message)
          (λ _. ⊥)
          (block_selected_from_logs C K R m s)
  unfolding block_selected_from_logs
  block_selected_from_logs-IsReport m s v long =
      changes-IsReport (λ a b. a || b) _ (λ f s v. L.block f (codes "tui_block_from_log") s v)
        (λ b. refl) (λ a b c. ground arith) true view_logs (of_logs C K m) _ m s v
        (of_logs-IsLong m long) (λ k. listed-hassh_set C K.order k m.selected m.connections O)

  -- The same of the key `u` in the first view, after which the fingerprints are not blocked any more.
  pub unblock_selected-IsReport :
      (m : Model C K) (s : R.State)
      → L.IsValid s
      → All (λ e. IsLong e.0) m.selected
      → Ensures
          (λ r.
            IsReport L.IsValid L.blocks
              (λ a b. not a && b)
              view_listing
              m.selected
              false
              (of_listing C K m)
              (λ k. marked k m.selected)
              s
              r.1
              r.0.status_message)
          (λ _. ⊥)
          (unblock_selected C K R m s)
  unfolding unblock_selected
  unblock_selected-IsReport m s v long =
      changes-IsReport (λ a b. not a && b) _ L.unblock (λ b. refl) (λ a b c. ground arith) false
        view_listing (of_listing C K m) _ m s v (of_listing-IsLong m long)
        (λ k. listed-chosen-order K.order k m.selected (O m.selected))

  -- With the key `u` in the second view, where the fingerprints of the connections have 8 bytes or
  -- more, the interface does not panic, and its status message is true: after "Unblocked n" the
  -- fingerprints of the selected connections, n of them and no others, are not blocked any more;
  -- after errors, n of them, and the errors name the others; and "No connections selected" stands there
  -- if the selection has no key, and only then, and nothing was done.
  pub unblock_selected_from_logs-IsReport :
      (m : Model C K) (s : R.State)
      → L.IsValid s
      → All (λ d. IsLong d.hassh_fingerprint) m.connections
      → Ensures
          (λ r.
            IsReport L.IsValid L.blocks
              (λ a b. not a && b)
              view_logs
              m.selected
              false
              (of_logs C K m)
              (λ k. picked C k m.connections m.selected)
              s
              r.1
              r.0.status_message)
          (λ _. ⊥)
          (unblock_selected_from_logs C K R m s)
  unfolding unblock_selected_from_logs
  unblock_selected_from_logs-IsReport m s v long =
      changes-IsReport (λ a b. not a && b) _ L.unblock (λ b. refl) (λ a b c. ground arith) false
        view_logs (of_logs C K m) _ m s v (of_logs-IsLong m long)
        (λ k. listed-hassh_set C K.order k m.selected m.connections O)

-- ===== src/Sshctl/Tui/Sound.antt =====
-- The well-formed models of the terminal interface, and the operations that keep them so.
mod Changes
pub mod Steps
use hassh.Common.{
  Option, ℕ, suc, ◌≤◌, ◌<◌, ◌≡◌, ◌⊎◌, inl, inr, Bool, true, false, Bool-cases, List, [], ◌∷◌, arith,
  length, All, Result, ok, slice, slice-eq-ok, Ensures, ensures_ok,
}
use mathlib.Core.List.{Permᴰ}
use mathlib.Core.List.Permᴰ.{nil, cons, swap, trans}
use hassh.Text.{Bytes, codes, same, decimal}
use hassh.Filter.{BoolMap, insert}
use hassh.Storage.Database.Replies.{DbError, Reply, done, failed, After, after_done, after_failed}
use hassh.Storage.Queries.{ℤ, Clock, ConnectionDetail, HasshSummary}
use hassh.Sshctl.Repository.{Repository}
use hassh.Sshctl.Tui.{
  ViewMode, view_listing, view_logs, Toolkit, Model, update_listing_table, update_logs_table,
  listing_loaded, logs_loaded, refresh_in, refresh_data,
}
use hassh.Sshctl.Tui.Changes.{chosen, keys, counted, change_each, add_first, hassh_set}

-- Long enough for `hassh[:8]`.
abbrev pub IsLong : Bytes → Type 0
IsLong hassh = 8 ≤ length hassh

abbrev pub IsField : ViewMode → Bytes → Type 0
IsField view_listing field = (field ≡ codes "hassh") ⊎ (field ≡ codes "banner")
IsField view_logs field =
    (field ≡ codes "ip") ⊎ ((field ≡ codes "hassh") ⊎ (field ≡ codes "banner"))

-- The keys of the selection are fingerprints in the first view, and ids in the second.
abbrev pub IsSelection : ViewMode → BoolMap → Type 0
IsSelection view_listing selected = All (λ e. IsLong e.0) selected
IsSelection view_logs selected = Unit

abbrev pub IsOrder : Toolkit → Type 0
IsOrder K = (m : BoolMap) → Permᴰ (K.order m) m

-- The filter has a name, the search field belongs to the view, and all fingerprints are long enough.
abbrev pub IsSound : (C : Clock) (K : Toolkit) → Model C K → Type 0
IsSound C K m =
    (m.filter < 3)
    × IsField m.mode m.search_field
    × All (λ d. IsLong d.hassh_fingerprint) m.summaries
    × All (λ d. IsLong d.hassh_fingerprint) m.connections
    × IsSelection m.mode m.selected

-- The lists of a repository hold long fingerprints only.
pub record IsLongOnly (C : Clock) (R : Repository C) : Type 0 where
  pub summaries :
      (limit : ℤ) (blocked : Option Bool) (sort_by : Bytes) (reverse : Bool) (s : R.State)
      → After
          (λ ds _. All (λ d. IsLong d.hassh_fingerprint) ds)
          (λ _ _. Unit {0})
          (R.list_hassh_summaries limit blocked sort_by reverse s)
  pub connections :
      (limit : ℤ) (blocked : Option Bool) (sort_by : Bytes) (reverse : Bool) (s : R.State)
      → After
          (λ ds _. All (λ d. IsLong d.hassh_fingerprint) ds)
          (λ _ _. Unit {0})
          (R.list_connections limit blocked sort_by reverse s)
  pub summaries_found :
      (hassh banner : Bytes) (limit : ℤ) (s : R.State)
      → After
          (λ ds _. All (λ d. IsLong d.hassh_fingerprint) ds)
          (λ _ _. Unit {0})
          (R.search_hassh_summaries hassh banner limit s)
  pub connections_found :
      (ip hassh banner : Bytes) (limit : ℤ) (s : R.State)
      → After
          (λ ds _. All (λ d. IsLong d.hassh_fingerprint) ds)
          (λ _ _. Unit {0})
          (R.search_connections ip hassh banner limit s)

module _ {A : Type 0} (P : A → Type 0) where
  pub All-Perm : {xs ys : List A} → Permᴰ xs ys → All P ys → All P xs
  All-Perm nil h = h
  All-Perm (cons e d) (p, h) = (rw e p, All-Perm d h)
  All-Perm (swap e e') (p, (q, h)) = (rw e q, (rw e' p, h))
  All-Perm (trans d d') h = All-Perm d (All-Perm d' h)

pub insert-IsLong :
    (k : Bytes) (v : Bool) (m : BoolMap)
    → IsLong k
    → All (λ e. IsLong e.0) m
    → All (λ e. IsLong e.0) (insert k v m)
unfolding insert
insert-IsLong k v [] p h = (p, tt)
insert-IsLong k v ((j, w) ∷ m) p (q, h) = elim (Bool-cases (same j k)) [
  | inl here ↦ rw here (q, h)
  | inr there ↦ rw there (q, insert-IsLong k v m p h)
]

pub chosen-IsLong : (m : BoolMap) → All (λ e. IsLong e.0) m → All IsLong (chosen m)
chosen-IsLong [] h = tt
chosen-IsLong ((k, true) ∷ m) (p, h) = (p, chosen-IsLong m h)
chosen-IsLong ((k, false) ∷ m) (p, h) = chosen-IsLong m h

pub keys-IsLong : (m : BoolMap) → All (λ e. IsLong e.0) m → All IsLong (keys m)
keys-IsLong [] h = tt
keys-IsLong ((k, v) ∷ m) (p, h) = (p, keys-IsLong m h)

counted-ends :
    {S A : Type 0} (hassh : Bytes) (count : ℕ) (errors : List (Bytes × DbError))
    (rest : ℕ → List (Bytes × DbError) → S → Result ⊥ A) (r : Reply (Unit {0}) × S)
    → IsLong hassh
    → ((n : ℕ) (es : List (Bytes × DbError)) (t : S)
        → Ensures (λ _. Unit {0}) (λ _. ⊥) (rest n es t))
    → Ensures (λ _. Unit {0}) (λ _. ⊥) (counted hassh count errors rest r)
counted-ends hassh count errors rest (done _, t) p ends = ends (suc count) errors t
counted-ends hassh count errors rest (failed e, t) p ends =
    rw (slice-eq-ok hassh 0 8 (omega arith) p) (ends count _ t)

-- With long fingerprints the loop ends without a panic.
pub change_each-ends :
    {S : Type 0} (call : Bytes → S → Reply (Unit {0}) × S) (hs : List Bytes) (count : ℕ)
    (errors : List (Bytes × DbError)) (s : S)
    → All IsLong hs
    → Ensures (λ _. Unit {0}) (λ _. ⊥) (change_each call hs count errors s)
unfolding change_each
change_each-ends call [] count errors s h = ensures_ok tt
change_each-ends call (hassh ∷ hs) count errors s (p, h) =
    counted-ends hassh count errors (change_each call hs) (call hassh s) p
      (λ n es t. change_each-ends call hs n es t h)

module _ (C : Clock) where
  add_first-IsLong :
      (conn_id : Bytes) (cs : List (ConnectionDetail C)) (set : BoolMap)
      → All (λ d. IsLong d.hassh_fingerprint) cs
      → All (λ e. IsLong e.0) set
      → All (λ e. IsLong e.0) (add_first C conn_id cs set)
  add_first-IsLong conn_id [] set h hs = hs
  add_first-IsLong conn_id (c ∷ cs) set (p, h) hs =
      elim (Bool-cases (same (decimal c.id) conn_id)) [
        | inl here ↦ rw here (insert-IsLong c.hassh_fingerprint true set p hs)
        | inr there ↦ rw there (add_first-IsLong conn_id cs set h hs)
      ]

  pub hassh_set-IsLong :
      (ids : List Bytes) (cs : List (ConnectionDetail C)) (set : BoolMap)
      → All (λ d. IsLong d.hassh_fingerprint) cs
      → All (λ e. IsLong e.0) set
      → All (λ e. IsLong e.0) (hassh_set C ids cs set)
  unfolding hassh_set
  hassh_set-IsLong [] cs set h hs = hs
  hassh_set-IsLong (conn_id ∷ ids) cs set h hs =
      hassh_set-IsLong ids cs (add_first C conn_id cs set) h (add_first-IsLong conn_id cs set h hs)

  module _ (K : Toolkit) where
    listing_loaded-IsSound :
        {S : Type 0} (m : Model C K) {r : Reply (List (HasshSummary C)) × S}
        → After (λ ds _. All (λ d. IsLong d.hassh_fingerprint) ds) (λ _ _. Unit {0}) r
        → IsSound C K m
        → IsSound C K (listing_loaded C K m r).0
    unfolding update_listing_table
    listing_loaded-IsSound m (after_done ds) (f, x, ss, cs, sel) = (f, x, ds, cs, sel)
    listing_loaded-IsSound m (after_failed _) h = h

    logs_loaded-IsSound :
        {S : Type 0} (m : Model C K) {r : Reply (List (ConnectionDetail C)) × S}
        → After (λ ds _. All (λ d. IsLong d.hassh_fingerprint) ds) (λ _ _. Unit {0}) r
        → IsSound C K m
        → IsSound C K (logs_loaded C K m r).0
    unfolding update_logs_table
    logs_loaded-IsSound m (after_done ds) (f, x, ss, cs, sel) = (f, x, ss, ds, sel)
    logs_loaded-IsSound m (after_failed _) h = h

    module _ (R : Repository C) (L : IsLongOnly C R) where
      refresh_in-IsSound :
          (mode : ViewMode) (m : Model C K) (s : R.State)
          → IsSound C K m
          → IsSound C K (refresh_in C K R mode m s).0
      refresh_in-IsSound view_listing m s h = listing_loaded-IsSound m (L.summaries _ _ _ _ s) h
      refresh_in-IsSound view_logs m s h = logs_loaded-IsSound m (L.connections _ _ _ _ s) h

      pub refresh_data-IsSound :
          (m : Model C K) (s : R.State) → IsSound C K m → IsSound C K (refresh_data C K R m s).0
      unfolding refresh_data
      refresh_data-IsSound m s h = refresh_in-IsSound m.mode m s h

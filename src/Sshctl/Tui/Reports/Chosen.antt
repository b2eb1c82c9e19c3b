-- ===== src/Sshctl/Tui/Reports/Chosen.antt =====
-- The fingerprints that a selection stands for, in either view, whatever the order in which `range`
-- visits it.
use hassh.Common.{
  ◌≡◌, refl, ◌∙◌, inl, inr, Bool, true, false, ◌&&◌, ◌||◌, Bool-cases, List, [], ◌∷◌, arith,
  if◌then◌else◌,
}
use mathlib.Core.List.{Permᴰ}
use mathlib.Core.List.Permᴰ.{nil, cons, swap, trans}
use hassh.Text.{Bytes, same, same_iff, decimal}
use hassh.Filter.{BoolMap, insert}
use hassh.Filter.Laws.{listed}
use hassh.Storage.Queries.{Clock, ConnectionDetail}
use hassh.Sshctl.Tui.{Toolkit, Model}
use hassh.Sshctl.Tui.Changes.{chosen, keys, add_first, hassh_set}

abbrev pub any : (Bytes × Bool → Bool) → BoolMap → Bool
any f [] = false
any f (e ∷ m) = f e || any f m

any-Perm : (f : Bytes × Bool → Bool) {xs ys : BoolMap} → Permᴰ xs ys → any f xs ≡ any f ys
any-Perm f nil = refl
any-Perm f (cons e d) = rw (e, any-Perm f d) refl
any-Perm f (swap {a} {b} {l} e e') = rw (← e, ← e') (ground arith)
any-Perm f (trans d d') = any-Perm f d ∙ any-Perm f d'

-- Selected in the first view, where the keys are fingerprints.
abbrev pub marked : Bytes → BoolMap → Bool
marked k = any (λ e. same e.0 k && e.1)

listed-chosen : (k : Bytes) (m : BoolMap) → listed k (chosen m) ≡ marked k m
listed-chosen k [] = refl
listed-chosen k ((j, true) ∷ m) = ground (arith, listed-chosen k m)
listed-chosen k ((j, false) ∷ m) = ground (arith, listed-chosen k m)

pub listed-chosen-order :
    (order : BoolMap → BoolMap) (k : Bytes) (m : BoolMap)
    → Permᴰ (order m) m
    → listed k (chosen (order m)) ≡ marked k m
listed-chosen-order order k m o = listed-chosen k (order m) ∙ any-Perm (λ e. same e.0 k && e.1) o

listed-keys : (k : Bytes) (m : BoolMap) → listed k (keys m) ≡ any (λ e. same e.0 k) m
listed-keys k [] = refl
listed-keys k ((j, v) ∷ m) = ground (arith, listed-keys k m)

keys-insert :
    (k j : Bytes) (m : BoolMap)
    → any (λ e. same e.0 k) (insert j true m) ≡ (same j k || any (λ e. same e.0 k) m)
unfolding insert
keys-insert k j [] = refl
keys-insert k j ((i, w) ∷ m) = ground (arith, same_iff i j, keys-insert k j m)

module _ (C : Clock) where
  -- The fingerprints of a selection in the order of the loop, in the first and in the second view.
  abbrev pub of_listing : (K : Toolkit) → Model C K → List Bytes
  of_listing K m = chosen (K.order m.selected)

  abbrev pub of_logs : (K : Toolkit) → Model C K → List Bytes
  of_logs K m = keys (K.order (hassh_set C (chosen (K.order m.selected)) m.connections []))

  -- The first connection of an id has this fingerprint.
  abbrev pub shown_as : Bytes → Bytes → List (ConnectionDetail C) → Bool
  shown_as k conn_id [] = false
  shown_as k conn_id (c ∷ cs) =
      if same (decimal c.id) conn_id then same c.hassh_fingerprint k else shown_as k conn_id cs

  -- Selected in the second view, where the keys are ids of connections.
  abbrev pub picked : Bytes → List (ConnectionDetail C) → BoolMap → Bool
  picked k cs = any (λ e. e.1 && shown_as k e.0 cs)

  keys-add_first :
      (k conn_id : Bytes) (cs : List (ConnectionDetail C)) (set : BoolMap)
      → any (λ e. same e.0 k) (add_first C conn_id cs set)
        ≡ (shown_as k conn_id cs || any (λ e. same e.0 k) set)
  keys-add_first k conn_id [] set = refl
  keys-add_first k conn_id (c ∷ cs) set = elim (Bool-cases (same (decimal c.id) conn_id)) [
    | inl here ↦ rw here (keys-insert k c.hassh_fingerprint set)
    | inr there ↦ rw there (keys-add_first k conn_id cs set)
  ]

  keys-hassh_set :
      (k : Bytes) (m : BoolMap) (cs : List (ConnectionDetail C)) (set : BoolMap)
      → any (λ e. same e.0 k) (hassh_set C (chosen m) cs set)
        ≡ (picked k cs m || any (λ e. same e.0 k) set)
  unfolding hassh_set
  keys-hassh_set k [] cs set = refl
  keys-hassh_set k ((i, true) ∷ m) cs set =
      ground (arith, keys-hassh_set k m cs (add_first C i cs set), keys-add_first k i cs set)
  keys-hassh_set k ((i, false) ∷ m) cs set = ground (arith, keys-hassh_set k m cs set)

  pub listed-hassh_set :
      (order : BoolMap → BoolMap) (k : Bytes) (m : BoolMap) (cs : List (ConnectionDetail C))
      → ((m : BoolMap) → Permᴰ (order m) m)
      → listed k (keys (order (hassh_set C (chosen (order m)) cs []))) ≡ picked k cs m
  listed-hassh_set order k m cs o =
      let set = hassh_set C (chosen (order m)) cs [] in
      let once = listed-keys k (order set) in
      let anywhere = any-Perm (λ e. same e.0 k) (o set) in
      let exact = keys-hassh_set k (order m) cs [] in
      let same_picks = any-Perm (λ e. e.1 && shown_as k e.0 cs) (o m) in
      once ∙ anywhere ∙ exact ∙ ground (arith, same_picks)

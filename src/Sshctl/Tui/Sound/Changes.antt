-- ===== src/Sshctl/Tui/Sound/Changes.antt =====
-- The operations behind the keys, in a well-formed model: blocking, views, filters, selections.
use hassh.Common.{
  ℕ, suc, zero, ◌+◌, ◌%◌, ◌<◌, ◌≡◌, refl, sym, subst, inl, inr, Bool, true, false, not, Bool-cases,
  List, [], ◌∷◌, arith, ltb, length, get_elem?, All, Result, or_panic, index, Ensures, ensures_ok,
  Ensures-bind, Ensures-if,
}
use hassh.Text.{Bytes, same, decimal}
use hassh.Filter.{BoolMap, lookup, insert}
use hassh.Storage.Database.Replies.{Reply}
use hassh.Storage.Queries.{pos, Clock}
use hassh.Sshctl.Repository.{Repository}
use hassh.Sshctl.Tui.{
  ViewMode, view_listing, view_logs, Toolkit, Model, update_listing_table, update_logs_table,
  opened, is_in, switch_view,
}
use hassh.Sshctl.Tui.Changes.{
  chosen, keys, change_all, unless_none, hassh_set, block_selected, block_selected_from_logs,
  unblock_selected, unblock_selected_from_logs,
}
use hassh.Sshctl.Tui.Keys.{filter_names, filter_moved, toggle_in, block_in, unblock_in}
use hassh.Sshctl.Tui.Sound.{
  IsLong, IsSelection, IsOrder, IsSound, IsLongOnly, All-Perm, insert-IsLong, chosen-IsLong,
  keys-IsLong, change_each-ends, hassh_set-IsLong, refresh_data-IsSound,
}

pub []-IsSelection : (mode : ViewMode) → IsSelection mode []
[]-IsSelection view_listing = tt
[]-IsSelection view_logs = tt

filter_named :
    (i : ℕ) → i < 3 → Ensures {E = ⊥} (λ _. Unit {0}) (λ _. ⊥) (or_panic (get_elem? filter_names i))
filter_named zero h = ensures_ok tt
filter_named (suc zero) h = ensures_ok tt
filter_named (suc (suc zero)) h = ensures_ok tt
filter_named (suc (suc (suc i))) h = absurd (omega arith)

module _ {A : Type 0} (P : A → Type 0) where
  -- An index within bounds.
  index-All :
      (xs : List A) (i : ℕ)
      → ltb i (length xs) ≡ true
      → All P xs
      → Ensures {E = ⊥} P (λ _. ⊥) (index xs i)
  unfolding index
  index-All [] i h ps = absurd (ground arith)
  index-All (x ∷ xs) zero h (p, ps) = ensures_ok p
  index-All (x ∷ xs) (suc i) h (p, ps) = index-All xs i (ground arith) ps

module _ (C : Clock) (K : Toolkit) (R : Repository C) (L : IsLongOnly C R) (O : IsOrder K) where
  change_all-IsSound :
      (blocks : Bool) (call : Bytes → R.State → Reply (Unit {0}) × R.State) (hs : List Bytes)
      (m : Model C K) (s : R.State)
      → All IsLong hs
      → IsSound C K m
      → Ensures (λ r. IsSound C K r.0) (λ _. ⊥) (change_all C K R blocks call hs m s)
  change_all-IsSound blocks call hs m s long (f, x, ss, cs, sel) =
      Ensures-bind (change_each-ends call hs 0 [] s long) (λ a _. ensures_ok (
        refresh_data-IsSound C K R L (record m { selected = [] }) a.2
          (f, x, ss, cs, []-IsSelection m.mode)))

  unless_none-IsSound :
      (mode : ViewMode) (m : Model C K) (s : R.State) {r : Result ⊥ (Model C K × R.State)}
      → IsSound C K m
      → Ensures (λ r. IsSound C K r.0) (λ _. ⊥) r
      → Ensures (λ r. IsSound C K r.0) (λ _. ⊥) (unless_none C K R mode m s r)
  unless_none-IsSound mode m s h k = Ensures-if _ (λ _. ensures_ok h) (λ _. k)

  ids_long :
      (m : Model C K)
      → IsSound C K m
      → All IsLong (keys (K.order (hassh_set C (chosen (K.order m.selected)) m.connections [])))
  ids_long m h =
      keys-IsLong _ (
        All-Perm _ (O _) (hassh_set-IsLong C (chosen (K.order m.selected)) m.connections [] h.3 tt))

  names_long :
      (m : Model C K)
      → m.mode ≡ view_listing
      → IsSound C K m
      → All IsLong (chosen (K.order m.selected))
  names_long m e h =
      chosen-IsLong _ (All-Perm _ (O _) (subst (λ x. IsSelection x m.selected) e h.4))

  pub block_in-IsSound :
      (mode : ViewMode) (m : Model C K) (s : R.State)
      → m.mode ≡ mode
      → IsSound C K m
      → Ensures (λ r. IsSound C K r.0) (λ _. ⊥) (block_in C K R mode m s)
  unfolding block_selected block_selected_from_logs
  block_in-IsSound view_listing m s e h =
      unless_none-IsSound view_listing m s h (change_all-IsSound true _ _ m s (names_long m e h) h)
  block_in-IsSound view_logs m s e h =
      unless_none-IsSound view_logs m s h (change_all-IsSound true _ _ m s (ids_long m h) h)

  pub unblock_in-IsSound :
      (mode : ViewMode) (m : Model C K) (s : R.State)
      → m.mode ≡ mode
      → IsSound C K m
      → Ensures (λ r. IsSound C K r.0) (λ _. ⊥) (unblock_in C K R mode m s)
  unfolding unblock_selected unblock_selected_from_logs
  unblock_in-IsSound view_listing m s e h =
      unless_none-IsSound view_listing m s h (change_all-IsSound false _ _ m s (names_long m e h) h)
  unblock_in-IsSound view_logs m s e h =
      unless_none-IsSound view_logs m s h (change_all-IsSound false _ _ m s (ids_long m h) h)

  opened-IsSound :
      (mode : ViewMode) (m : Model C K) → IsSound C K m → IsSound C K (opened C K R mode m)
  opened-IsSound view_listing m (f, x, ss, cs, sel) = (omega arith, inl refl, ss, cs, tt)
  opened-IsSound view_logs m (f, x, ss, cs, sel) = (omega arith, inl refl, ss, cs, tt)

  pub switch_view-IsSound :
      (mode : ViewMode) (m : Model C K) (s : R.State)
      → IsSound C K m
      → IsSound C K (switch_view C K R mode m s).0
  unfolding switch_view
  switch_view-IsSound mode m s h = elim (Bool-cases (is_in C K R m.mode mode)) [
    | inl same ↦ rw same h
    | inr other ↦ rw other (refresh_data-IsSound C K R L _ s (opened-IsSound mode m h))
  ]

  pub filter_moved-IsSound :
      (by : ℕ) (m : Model C K) (s : R.State)
      → IsSound C K m
      → Ensures (λ r. IsSound C K r.0) (λ _. ⊥) (filter_moved C K R by m s)
  filter_moved-IsSound by m s (f, x, ss, cs, sel) =
      let h =
        refresh_data-IsSound C K R L (record m { filter = (m.filter + by) % 3 }) s
          (omega arith, x, ss, cs, sel) in
      Ensures-bind (filter_named _ h.0) (λ _ _. ensures_ok h)

  toggled_listing :
      (k : Bytes) (v : Bool) (m : Model C K)
      → m.mode ≡ view_listing
      → IsLong k
      → IsSelection m.mode m.selected
      → IsSelection m.mode (insert k v m.selected)
  toggled_listing k v m e p sel =
      subst (λ x. IsSelection x (insert k v m.selected)) (sym e)
        (insert-IsLong k v m.selected p (subst (λ x. IsSelection x m.selected) e sel))

  any_logs : (selected : BoolMap) (m : Model C K) → m.mode ≡ view_logs → IsSelection m.mode selected
  any_logs selected m e = subst (λ x. IsSelection x selected) (sym e) tt

  pub toggle_in-IsSound :
      (mode : ViewMode) (m : Model C K) (i : ℕ)
      → K.cursor m.table ≡ pos i
      → m.mode ≡ mode
      → IsSound C K m
      → Ensures (λ n. IsSound C K n) (λ _. ⊥) (toggle_in C K R mode m)
  unfolding update_listing_table update_logs_table
  toggle_in-IsSound view_listing m i c e (f, x, ss, cs, sel) = rw c (
      Ensures-if _
        (λ b. Ensures-bind (index-All _ m.summaries i b ss) (λ d p. ensures_ok (
          f,
          x,
          ss,
          cs,
          toggled_listing d.hassh_fingerprint (not (lookup d.hassh_fingerprint m.selected)) m e p
              sel,
        )))
        (λ _. ensures_ok (f, x, ss, cs, sel)))
  toggle_in-IsSound view_logs m i c e (f, x, ss, cs, sel) = rw c (
      Ensures-if _
        (λ b. Ensures-bind (index-All _ m.connections i b cs) (λ d p. ensures_ok (
          f,
          x,
          ss,
          cs,
          any_logs (insert (decimal d.id) (not (lookup (decimal d.id) m.selected)) m.selected) m e,
        )))
        (λ _. ensures_ok (f, x, ss, cs, sel)))

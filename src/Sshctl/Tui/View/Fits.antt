-- ===== src/Sshctl/Tui/View/Fits.antt =====
-- The screen behind a tick and behind the key that moves the filter: its tab, its table, its errors.
use hassh.Common.{
  ℕ, suc, zero, ◌+◌, ◌%◌, ◌<◌, ◌≡◌, refl, ap, ◌∙◌, sym, subst, arith, Bool, true, false, Option,
  none, some, [], ◌∷◌, Ensures, ensures_ok, ensures_err, Ensures-mono, or_panic, get_elem?,
  if◌then◌else◌, Result, ok, ◌>>=◌,
}
use hassh.Text.{Bytes, codes, same}
use hassh.Storage.Database.Replies.{DbError}
use hassh.Storage.Queries.{Clock}
use hassh.Sshctl.Repository.{Repository}
use hassh.Sshctl.Lists.Shown.{IsFiltering}
use hassh.Sshctl.Tui.{
  key_msg, KeyMsg, filter_named, Toolkit, Model, blocked_of, refresh_in, refresh_data,
}
use hassh.Sshctl.Tui.Keys.{
  next_key, key_of, filter_names, table_updated, normal_key_pressed, handle_normal_keys,
  handle_search_keys, update,
}
use hassh.Sshctl.Tui.View.{view}
use hassh.Sshctl.Tui.View.Parts.{
  collect, tabs_of, tables_of, errors_of, tab_of, listed_error, tabs-view, tables-view, errors-view,
}
use hassh.Sshctl.Tui.View.Drawn.{
  IsLoaded, listing_drawn, logs_drawn, listing_failed, logs_failed, refresh_in-IsRefreshed,
}

module _ (C : Clock) (K : Toolkit) (R : Repository C) where
  -- The screen of `n`, after the model `m` asked for a state: it highlights the tab of this state and
  -- no other, and shows the table that was loaded, behind what the widget made of it, and the error.
  pub record IsScreen (want : Option Bool) (through : K.Table → K.Table) (m : Model C K)
      (s : R.State) (n : Model C K) (t : R.State) : Type 0 where
    pub tab : collect tabs_of (view C K n) ≡ tab_of want ∷ []
    pub table : K.Table
    pub error : Option DbError
    pub loaded : IsLoaded C K R want m s table error t
    pub drawn : collect tables_of (view C K n) ≡ through table ∷ []
    pub errors : collect errors_of (view C K n) ≡ listed_error error

  -- The order of the tabs, the last in front of the first.
  abbrev pub next_state : Option Bool → Option Bool
  next_state none = some false
  next_state (some false) = some true
  next_state (some true) = none

  -- The screen of the tab that comes after the old one.
  abbrev pub IsMoved : KeyMsg → Model C K → R.State → Model C K × Option K.Cmd × R.State → Type 0
  IsMoved key m s r =
      (old : Option Bool) × ((collect tabs_of (view C K m) ≡ tab_of old ∷ [])
        × IsScreen (next_state old) (λ table. (K.update_table (key_msg key) table).0) m s r.0 r.2)

  blocked_of_next :
      (filter : ℕ) → filter < 3 → blocked_of ((filter + 1) % 3) ≡ next_state (blocked_of filter)
  blocked_of_next zero h = refl
  blocked_of_next (suc zero) h = refl
  blocked_of_next (suc (suc zero)) h = refl
  blocked_of_next (suc (suc (suc n))) h = absurd (omega arith)

  name_given :
      (i : ℕ)
      → i < 3
      → Ensures {E = ⊥} (λ _. Unit {0}) (λ _. ⊥) (or_panic (get_elem? filter_names i))
  name_given zero h = ensures_ok tt
  name_given (suc zero) h = ensures_ok tt
  name_given (suc (suc zero)) h = ensures_ok tt
  name_given (suc (suc (suc i))) h = absurd (omega arith)

  module _ (L : IsFiltering C R) where
    -- The filter is all that the move changes before the query.
    IsLoaded-filter :
        {want : Option Bool} {m : Model C K} {s t : R.State} {table : K.Table} {e : Option DbError}
        (f : ℕ)
        → IsLoaded C K R want (record m { filter = f }) s table e t
        → IsLoaded C K R want m s table e t
    IsLoaded-filter f (listing_drawn mode call all rows) = listing_drawn mode call all rows
    IsLoaded-filter f (logs_drawn mode call all rows) = logs_drawn mode call all rows
    IsLoaded-filter f (listing_failed mode call) = listing_failed mode call
    IsLoaded-filter f (logs_failed mode call) = logs_failed mode call

    module _ (key : KeyMsg) where
      abbrev table_seen : K.Table → K.Table
      table_seen table = (K.update_table (key_msg key) table).0

      -- From the refresh on, with the name of the filter for the message.
      named-IsScreen :
          (want : Option Bool) (m n : Model C K) (s t : R.State) (name : Result ⊥ Bytes)
          → n.filter < 3
          → blocked_of n.filter ≡ want
          → IsLoaded C K R want m s n.table n.error t
          → Ensures (λ _. Unit {0}) (λ _. ⊥) name
          → Ensures
              (λ r. IsScreen want table_seen m s r.0 r.2)
              (λ _. ⊥)
              ((name >>= λ x. ok (record n { status_message = filter_named x }, t)) >>= λ (n, t).
                table_updated C K R (key_msg key) n t)
      named-IsScreen want m n s t name small asked loaded (ensures_ok {a} _) = ensures_ok (record {
        tab =
            tabs-view C K (record n { status_message = filter_named a; table = table_seen n.table })
              small
            ∙ ap (λ b. tab_of b ∷ []) asked;
        table = n.table;
        error = n.error;
        loaded = loaded;
        drawn = tables-view C K _;
        errors = errors-view C K _;
      })
      named-IsScreen want m n s t _ small asked loaded (ensures_err {e} _) = elim e [ ]

      filter_moved-IsScreen :
          (m : Model C K) (s : R.State)
          → m.filter < 3
          → Ensures
              (λ r. IsScreen (next_state (blocked_of m.filter)) table_seen m s r.0 r.2)
              (λ _. ⊥)
              (normal_key_pressed C K R next_key key m s)
      unfolding refresh_data
      filter_moved-IsScreen m s h =
          let moved = record m { filter = (m.filter + 1) % 3 } in
          let r = refresh_in C K R m.mode moved s in
          let (kept, loaded) = refresh_in-IsRefreshed C K R L m.mode moved s refl in
          let small : (m.filter + 1) % 3 < 3 = omega arith in
          let still = subst (λ f. f < 3) (sym kept) small in
          let want = blocked_of_next m.filter h in
          named-IsScreen (next_state (blocked_of m.filter)) m r.0 s r.1 _ still
            (ap blocked_of kept ∙ want)
            (IsLoaded-filter ((m.filter + 1) % 3)
              (subst (λ b. IsLoaded C K R b moved s r.0.table r.0.error r.1) want loaded))
            (name_given r.0.filter still)

    key_of_tab : (text : Bytes) → text ≡ codes "tab" → key_of text ≡ next_key
    unfolding key_of same
    key_of_tab text e = rw e refl

    -- Outside of a search, the key "tab" does not panic. From All, Allowed and Blocked it leads to
    -- Allowed, Blocked and All: the screen then highlights this tab and no other, and its table is
    -- drawn from what the repository answers when it is asked for the state of the new tab, one row
    -- for each answer as behind a tick, before the widget sees the key; or the query fails, its error
    -- is on the screen, and the table is that of before.
    pub update_tab-IsScreen :
        (m : Model C K) (s : R.State) (key : KeyMsg)
        → m.filter < 3
        → m.search_mode ≡ false
        → key.text ≡ codes "tab"
        → Ensures (IsMoved key m s) (λ _. ⊥) (update C K R (key_msg key) m s)
    unfolding update handle_normal_keys
    update_tab-IsScreen m s key h normal text =
        let moved = filter_moved-IsScreen key m s h in
        let after : Ensures (IsMoved key m s) (λ _. ⊥) (normal_key_pressed C K R next_key key m s) =
          Ensures-mono (λ r screen. (blocked_of m.filter, (tabs-view C K m h, screen))) (λ e p. p)
            moved in
        subst
          (λ b.
            Ensures (IsMoved key m s) (λ _. ⊥)
              (if b then handle_search_keys C K R key m s else handle_normal_keys C K R key m s))
          (sym normal)
          (subst (λ k. Ensures (IsMoved key m s) (λ _. ⊥) (normal_key_pressed C K R k key m s))
            (sym (key_of_tab key.text text)) after)

-- ===== src/Sshctl/Tui/View/Parts.antt =====
-- What can be read off the screen: the tabs that are drawn as active, the tables, and the errors.
use hassh.Common.{
  ℕ, ◌<◌, ◌≡◌, refl, zero, suc, arith, Bool, true, false, Option, none, some, List, [], ◌∷◌, ◌++◌,
  append-nil, if◌then◌else◌, ap, ◌∙◌, sym, append_assoc,
}
use hassh.Text.{Bytes, codes}
use hassh.Storage.Database.Replies.{DbError}
use hassh.Storage.Queries.{Clock}
use hassh.Sshctl.Tui.{
  Toolkit, Status, no_status, switched_to, filter_named, selection_cleared, search_opened,
  refreshed, search_by, search_failed, found, none_selected, changed, partly_changed, Model,
  blocked_of,
}
use hassh.Sshctl.Tui.View.{
  Tab, Part, tabs, table_view, search_view, status_view, error_view, help_view, status_parts,
  error_parts, help_text, filter_tabs, tab_names, view,
}

-- The names of the tabs that are drawn as active.
abbrev pub active : List Tab → List Bytes
active [] = []
active ((name, true) ∷ rest) = name ∷ active rest
active ((name, false) ∷ rest) = active rest

abbrev pub collect : {K : Toolkit} {A : Type 0} → (Part K → List A) → List (Part K) → List A
collect f [] = []
collect f (part ∷ parts) = f part ++ collect f parts

module _ {K : Toolkit} where
  abbrev pub tabs_of : Part K → List Bytes
  tabs_of (tabs ts) = active ts
  tabs_of _ = []

  abbrev pub tables_of : Part K → List K.Table
  tables_of (table_view table) = table ∷ []
  tables_of _ = []

  abbrev pub errors_of : Part K → List DbError
  errors_of (error_view e) = e ∷ []
  errors_of _ = []

-- The name of a state.
abbrev pub tab_of : Option Bool → Bytes
tab_of none = codes "All"
tab_of (some false) = codes "Allowed"
tab_of (some true) = codes "Blocked"

abbrev pub listed_error : Option DbError → List DbError
listed_error none = []
listed_error (some e) = e ∷ []

active_tab :
    (filter : ℕ)
    → filter < 3
    → active (filter_tabs filter 0 tab_names) ≡ tab_of (blocked_of filter) ∷ []
unfolding filter_tabs
active_tab zero h = refl
active_tab (suc zero) h = refl
active_tab (suc (suc zero)) h = refl
active_tab (suc (suc (suc n))) h = absurd (omega arith)

-- The parts behind the table, of which a reader sees the error only.
module _ (K : Toolkit) {A : Type 0} (f : Part K → List A)
    (no_search : (field : Bytes) (input : K.Input) → f (search_view field input) ≡ [])
    (no_status_read : (s : Status) → f (status_view s) ≡ [])
    (no_help : f (help_view help_text) ≡ []) where
  collect-append : (ps qs : List (Part K)) → collect f (ps ++ qs) ≡ collect f ps ++ collect f qs
  collect-append [] qs = refl
  collect-append (p ∷ ps) qs =
      rw (collect-append ps qs) (sym (append_assoc (f p) (collect f ps) (collect f qs)))

  one_status : (s : Status) → collect f (status_view s ∷ []) ≡ []
  one_status s = rw (no_status_read s) refl

  collect_status : (s : Status) → collect f (status_parts {K = K} s) ≡ []
  collect_status no_status = refl
  collect_status (switched_to mode) = one_status (switched_to mode)
  collect_status (filter_named name) = one_status (filter_named name)
  collect_status selection_cleared = one_status selection_cleared
  collect_status (search_opened mode) = one_status (search_opened mode)
  collect_status refreshed = one_status refreshed
  collect_status (search_by field) = one_status (search_by field)
  collect_status (search_failed e) = one_status (search_failed e)
  collect_status (found n query) = one_status (found n query)
  collect_status (none_selected mode) = one_status (none_selected mode)
  collect_status (changed b n) = one_status (changed b n)
  collect_status (partly_changed b n es) = one_status (partly_changed b n es)

  collect_rest :
      (b : Bool) (field : Bytes) (input : K.Input) (s : Status) (e : Option DbError)
      → collect f (
          (if b then search_view field input ∷ [] else [])
          ++ (status_parts s ++ (error_parts e ++ (help_view help_text ∷ []))))
        ≡ collect f (error_parts e)
  collect_rest true field input s e =
      simp (collect-append, collect_status s, no_search field input, no_help, append-nil)
  collect_rest false field input s e = simp (collect-append, collect_status s, no_help, append-nil)

module _ (C : Clock) (K : Toolkit) (m : Model C K) where
  pub tabs-view : m.filter < 3 → collect tabs_of (view C K m) ≡ tab_of (blocked_of m.filter) ∷ []
  unfolding view
  tabs-view h =
      ap (λ ns. active (filter_tabs m.filter 0 tab_names) ++ ns)
        (collect_rest K tabs_of (λ _ _. refl) (λ _. refl) refl m.search_mode m.search_field
            m.search_input m.status_message m.error
          ∙ no_tabs m.error)
      ∙ (append-nil _ ∙ active_tab m.filter h)
    where
      no_tabs : (e : Option DbError) → collect tabs_of (error_parts {K = K} e) ≡ []
      no_tabs none = refl
      no_tabs (some e) = refl

  pub tables-view : collect tables_of (view C K m) ≡ m.table ∷ []
  unfolding view
  tables-view =
      ap (λ ts. m.table ∷ ts)
        (collect_rest K tables_of (λ _ _. refl) (λ _. refl) refl m.search_mode m.search_field
            m.search_input m.status_message m.error
          ∙ no_tables m.error)
    where
      no_tables : (e : Option DbError) → collect tables_of (error_parts {K = K} e) ≡ []
      no_tables none = refl
      no_tables (some e) = refl

  pub errors-view : collect errors_of (view C K m) ≡ listed_error m.error
  unfolding view
  errors-view =
      collect_rest K errors_of (λ _ _. refl) (λ _. refl) refl m.search_mode m.search_field
        m.search_input m.status_message m.error
      ∙ all_errors m.error
    where
      all_errors : (e : Option DbError) → collect errors_of (error_parts {K = K} e) ≡ listed_error e
      all_errors none = refl
      all_errors (some e) = refl

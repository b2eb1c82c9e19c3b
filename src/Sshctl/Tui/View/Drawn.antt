-- ===== src/Sshctl/Tui/View/Drawn.antt =====
-- The rows that a refresh draws, in words, and the refresh of either view against them.
use hassh.Common.{
  ℕ, ◌≤◌, ◌-◌, ◌⊎◌, inl, inr, Bool-cases, ltb, take, ◌≡◌, refl, arith, Bool, true, false, Option,
  some, List, [], ◌∷◌, ◌++◌, map, All, length,
}
use hassh.Text.{Bytes, codes, decimal}
use hassh.Filter.{BoolMap, lookup}
use hassh.Storage.Database.Replies.{DbError, Reply, done, failed, After, after_done}
use hassh.Storage.Queries.{Clock, ConnectionDetail, HasshSummary}
use hassh.Storage.Queries.Selected.{IsState, IsLimited}
use hassh.Sshctl.Repository.{Repository}
use hassh.Sshctl.Lists.{clip, yes_no}
use hassh.Sshctl.Lists.Shown.{IsFiltering, length-clip}
use hassh.Sshctl.Tui.{
  ViewMode, view_listing, view_logs, Toolkit, Model, mark_of, blocked_of, listing_row, logs_row,
  update_listing_table, update_logs_table, listing_loaded, logs_loaded, refresh_in,
}

-- A tick, or two spaces, in front of the text of a row.
abbrev pub checked : Bool → Bytes → Bytes
checked true text = 226 ∷ 156 ∷ 147 ∷ 32 ∷ text
checked false text = 32 ∷ 32 ∷ text

abbrev pub state_word : Bool → Bytes
state_word true = codes "YES"
state_word false = codes "no"

mark_of-checked : (b : Bool) (text : Bytes) → mark_of b ++ text ≡ checked b text
mark_of-checked true text = refl
mark_of-checked false text = refl

yes_no_word : (b : Bool) → yes_no b ≡ state_word b
yes_no_word true = refl
yes_no_word false = refl

-- A text that is cut to a length, and then ends in three dots.
abbrev pub IsCut : ℕ → Bytes → Bytes → Type 0
IsCut n text cell = (length cell ≤ n) × ((cell ≡ text) ⊎ (cell ≡ take (n - 3) text ++ codes "..."))

clip-IsCut : (n : ℕ) (text : Bytes) → 3 ≤ n → IsCut n text (clip n text)
unfolding clip
clip-IsCut n text h = (
  length-clip n text h,
  elim (Bool-cases (ltb n (length text))) [ inl e ↦ rw e (inr refl) | inr e ↦ rw e (inl refl) ],
)

-- One row for each, in their order.
pub data IsDrawn {A : Type 0} (P : A → List Bytes → Type 0)
    : List A → List (List Bytes) → Type 0 where
  none_drawn : IsDrawn P [] []
  row_drawn :
      {a : A} {row : List Bytes} {ds : List A} {rows : List (List Bytes)}
      → P a row
      → IsDrawn P ds rows
      → IsDrawn P (a ∷ ds) (row ∷ rows)

map-IsDrawn :
    {A : Type 0} (P : A → List Bytes → Type 0) (f : A → List Bytes)
    → ((a : A) → P a (f a))
    → (ds : List A) → IsDrawn P ds (map f ds)
map-IsDrawn P f h [] = none_drawn
map-IsDrawn P f h (a ∷ ds) = row_drawn (h a) (map-IsDrawn P f h ds)

module _ (C : Clock) (selected : BoolMap) where
  -- The row of a fingerprint: ticked if it is selected, with a banner that is cut, and its state.
  abbrev pub IsListingRow : HasshSummary C → List Bytes → Type 0
  IsListingRow d row =
      (banner : Bytes) × (IsCut 42 d.ssh_client_banner banner
        × (row
            ≡ checked (lookup d.hassh_fingerprint selected) d.hassh_fingerprint
              ∷ banner
              ∷ decimal d.ip_count
              ∷ decimal d.total_connections
              ∷ C.format d.last_seen (codes "2006-01-02 15:04:05")
              ∷ state_word d.blocked
              ∷ []))

  -- The row of a connection.
  abbrev pub IsLogsRow : ConnectionDetail C → List Bytes → Type 0
  IsLogsRow d row =
      (banner : Bytes) × (IsCut 37 d.ssh_client_banner banner
        × (row
            ≡ checked (lookup (decimal d.id) selected) (decimal d.id)
              ∷ C.format d.timestamp (codes "2006-01-02 15:04:05")
              ∷ d.ip_address
              ∷ d.hassh_fingerprint
              ∷ banner
              ∷ state_word d.blocked
              ∷ []))

  listing_row-IsListingRow : (d : HasshSummary C) → IsListingRow d (listing_row C selected d)
  unfolding listing_row
  listing_row-IsListingRow d = (
    clip 42 d.ssh_client_banner,
    (
      clip-IsCut 42 d.ssh_client_banner (omega arith),
      rw
          (
            mark_of-checked (lookup d.hassh_fingerprint selected) d.hassh_fingerprint,
            yes_no_word d.blocked,
          )
          refl,
    ),
  )

  logs_row-IsLogsRow : (d : ConnectionDetail C) → IsLogsRow d (logs_row C selected d)
  unfolding logs_row
  logs_row-IsLogsRow d = (
    clip 37 d.ssh_client_banner,
    (
      clip-IsCut 37 d.ssh_client_banner (omega arith),
      rw (mark_of-checked (lookup (decimal d.id) selected) (decimal d.id), yes_no_word d.blocked)
          refl,
    ),
  )

module _ (C : Clock) (K : Toolkit) (R : Repository C) where
  -- The table and the error behind a query for a state: the rows that the repository answers with,
  -- all of the state, when asked for the latest first; or the old table, and the query's error.
  pub data IsLoaded (want : Option Bool) (m : Model C K) (s : R.State)
      : K.Table → Option DbError → R.State → Type 0 where
    listing_drawn :
        {ds : List (HasshSummary C)} {rows : List (List Bytes)} {t : R.State}
        → m.mode ≡ view_listing
        → R.list_hassh_summaries m.limit want (codes "last_seen") true s ≡ (done ds, t)
        → All (λ d. IsState want d.blocked) ds
        → IsDrawn (IsListingRow C m.selected) ds rows
        → IsLoaded want m s (K.set_rows rows m.table) m.error t
    logs_drawn :
        {ds : List (ConnectionDetail C)} {rows : List (List Bytes)} {t : R.State}
        → m.mode ≡ view_logs
        → R.list_connections m.limit want (codes "timestamp") true s ≡ (done ds, t)
        → All (λ d. IsState want d.blocked) ds
        → IsDrawn (IsLogsRow C m.selected) ds rows
        → IsLoaded want m s (K.set_rows rows m.table) m.error t
    listing_failed :
        {e : DbError} {t : R.State}
        → m.mode ≡ view_listing
        → R.list_hassh_summaries m.limit want (codes "last_seen") true s ≡ (failed e, t)
        → IsLoaded want m s m.table (some e) t
    logs_failed :
        {e : DbError} {t : R.State}
        → m.mode ≡ view_logs
        → R.list_connections m.limit want (codes "timestamp") true s ≡ (failed e, t)
        → IsLoaded want m s m.table (some e) t

  -- The same of the model behind a refresh, which leaves the filter as it is.
  abbrev pub IsRefreshed : Model C K → R.State → Model C K × R.State → Type 0
  IsRefreshed m s r =
      (r.0.filter ≡ m.filter) × IsLoaded (blocked_of m.filter) m s r.0.table r.0.error r.1

  module _ (L : IsFiltering C R) where
    listing-IsRefreshed :
        (m : Model C K) (s : R.State) (r : Reply (List (HasshSummary C)) × R.State)
        → m.mode ≡ view_listing
        → R.list_hassh_summaries m.limit (blocked_of m.filter) (codes "last_seen") true s ≡ r
        → After
            (λ ds _.
              All (λ d. IsState (blocked_of m.filter) d.blocked) ds × IsLimited m.limit (length ds))
            (λ _ _. Unit {0})
            r
        → IsRefreshed m s (listing_loaded C K m r)
    unfolding update_listing_table
    listing-IsRefreshed m s (done ds, t) mode call (after_done h) = (
      refl,
      listing_drawn mode call h.0 (
          map-IsDrawn (IsListingRow C m.selected) (listing_row C m.selected)
            (listing_row-IsListingRow C m.selected) ds),
    )
    listing-IsRefreshed m s (failed e, t) mode call h = (refl, listing_failed mode call)

    logs-IsRefreshed :
        (m : Model C K) (s : R.State) (r : Reply (List (ConnectionDetail C)) × R.State)
        → m.mode ≡ view_logs
        → R.list_connections m.limit (blocked_of m.filter) (codes "timestamp") true s ≡ r
        → After
            (λ ds _.
              All (λ d. IsState (blocked_of m.filter) d.blocked) ds × IsLimited m.limit (length ds))
            (λ _ _. Unit {0})
            r
        → IsRefreshed m s (logs_loaded C K m r)
    unfolding update_logs_table
    logs-IsRefreshed m s (done ds, t) mode call (after_done h) = (
      refl,
      logs_drawn mode call h.0 (
          map-IsDrawn (IsLogsRow C m.selected) (logs_row C m.selected)
            (logs_row-IsLogsRow C m.selected) ds),
    )
    logs-IsRefreshed m s (failed e, t) mode call h = (refl, logs_failed mode call)

    pub refresh_in-IsRefreshed :
        (mode : ViewMode) (m : Model C K) (s : R.State)
        → m.mode ≡ mode
        → IsRefreshed m s (refresh_in C K R mode m s)
    refresh_in-IsRefreshed view_listing m s e =
        listing-IsRefreshed m s _ e refl (L.summaries _ _ _ _ s)
    refresh_in-IsRefreshed view_logs m s e = logs-IsRefreshed m s _ e refl (L.connections _ _ _ _ s)

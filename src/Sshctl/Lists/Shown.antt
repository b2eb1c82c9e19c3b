-- ===== src/Sshctl/Lists/Shown.antt =====
-- What `sshctl list` and `sshctl log` show.
use hassh.Common.{
  ℕ, ◌-◌, ◌≤◌, ◌≡◌, refl, sym, subst, inl, inr, Bool, true, false, Bool-cases, Option, none, some,
  List, [], ◌∷◌, map, arith, ltb, length, length-append, length-take-le, take, All,
}
use hassh.Text.{Bytes, codes, same}
use hassh.Storage.Database.Replies.{Reply, After, after_done, after_failed}
use hassh.Storage.Queries.{ℤ, Clock}
use hassh.Storage.Queries.Selected.{
  IsState, IsLimited, IsSelecting, list_connections-After, list_hassh_summaries-After,
}
use hassh.Storage.Repository.{Net}
use hassh.Storage.Database.{Database}
use hassh.Storage.Queries.{Reader}
use hassh.Sshctl.Repository.{Repository, storage_repository}
use hassh.Sshctl.Lists.{
  state_of, clip, yes_no, Listing, invalid_state, list_failed, nothing_found, table, flush_failed,
  listing, chosen, summary_line, connection_line, list_cmd, log_cmd,
}

-- Lists hold what is asked for only, and no more than a positive limit.
pub record IsFiltering (C : Clock) (R : Repository C) : Type 0 where
  pub summaries :
      (limit : ℤ) (blocked : Option Bool) (sort_by : Bytes) (reverse : Bool) (s : R.State)
      → After
          (λ ds _. All (λ d. IsState blocked d.blocked) ds × IsLimited limit (length ds))
          (λ _ _. Unit {0})
          (R.list_hassh_summaries limit blocked sort_by reverse s)
  pub connections :
      (limit : ℤ) (blocked : Option Bool) (sort_by : Bytes) (reverse : Bool) (s : R.State)
      → After
          (λ ds _. All (λ d. IsState blocked d.blocked) ds × IsLimited limit (length ds))
          (λ _ _. Unit {0})
          (R.list_connections limit blocked sort_by reverse s)

pub storage_repository-IsFiltering :
    (C : Clock) (D : Database) (Q : Reader C D.State) (N : Net) (like : Bytes → Bytes → Bool)
    → IsSelecting C like Q
    → IsFiltering C (storage_repository C D Q N)
storage_repository-IsFiltering C D Q N like L = record {
  summaries = list_hassh_summaries-After C N like Q L;
  connections = list_connections-After C N like Q L;
}

pub length-clip : (n : ℕ) (banner : Bytes) → 3 ≤ n → length (clip n banner) ≤ n
unfolding clip
length-clip n banner h = elim (Bool-cases (ltb n (length banner))) [
  | inl e ↦ rw e (
      omega
        (arith, length-append (take (n - 3) banner) (codes "..."), length-take-le (n - 3) banner))
  | inr e ↦ rw e (ground arith)
]

-- The column `BLOCKED` is that of the state.
abbrev pub IsMarked : Option Bool → Bytes → Type 0
IsMarked none text = Unit
IsMarked (some true) text = text ≡ codes "YES"
IsMarked (some false) text = text ≡ codes "no"

-- What a listing shows: nothing but lines with `P`, within a limit.
abbrev pub Shows : {Line : Type 0} → (Line → Type 0) → ℤ → Listing Line → Type 0
Shows P limit (invalid_state state) = Unit
Shows P limit (list_failed e) = Unit
Shows P limit nothing_found = Unit
Shows P limit (table lines) = All P lines × IsLimited limit (length lines)
Shows P limit (flush_failed lines) = All P lines × IsLimited limit (length lines)

length-map_lines : {A B : Type 0} (f : A → B) (xs : List A) → length (map f xs) ≡ length xs
length-map_lines f [] = refl
length-map_lines f (x ∷ xs) = omega (arith, length-map_lines f xs)

All-map :
    {A B : Type 0} {P : A → Type 0} (P' : B → Type 0) (f : A → B)
    → ((a : A) → P a → P' (f a))
    → (xs : List A) → All P xs
    → All P' (map f xs)
All-map P' f h [] ps = tt
All-map P' f h (x ∷ xs) (p, ps) = (h x p, All-map P' f h xs ps)

listing-Shows :
    {A Line S : Type 0} {P : A → Type 0} (P' : Line → Type 0) (line : A → Line) (flushes : Bool)
    (limit : ℤ)
    → ((a : A) → P a → P' (line a))
    → {r : Reply (List A) × S}
    → After (λ xs _. All P xs × IsLimited limit (length xs)) (λ _ _. Unit {0}) r
    → Shows P' limit (listing line flushes r).0
listing-Shows P' line flushes limit h (after_failed _) = tt
listing-Shows P' line flushes limit h (after_done {a = []} _) = tt
listing-Shows P' line true limit h (after_done {a = x ∷ xs} (ps, within)) = (
  All-map P' line h (x ∷ xs) ps,
  subst (IsLimited limit) (sym (length-map_lines line (x ∷ xs))) within,
)
listing-Shows P' line false limit h (after_done {a = x ∷ xs} (ps, within)) = (
  All-map P' line h (x ∷ xs) ps,
  subst (IsLimited limit) (sym (length-map_lines line (x ∷ xs))) within,
)

-- The names of the states on the command line.
abbrev pub name_of : Option Bool → Bytes
name_of none = codes "all"
name_of (some false) = codes "allowed"
name_of (some true) = codes "blocked"

state_of-name_of : (want : Option Bool) → state_of (name_of want) ≡ some want
unfolding state_of same
state_of-name_of none = refl
state_of-name_of (some false) = refl
state_of-name_of (some true) = refl

mark : (want : Option Bool) (b : Bool) → IsState want b → IsMarked want (yes_no b)
mark none b h = tt
mark (some true) b h = rw h
mark (some false) b h = rw h

module _ (C : Clock) (R : Repository C) (L : IsFiltering C R) where
  -- If the state is `allowed`, `blocked` or `all`, `sshctl list` shows fingerprints of this state
  -- only, no more of them than a positive limit, and banners of at most 45 bytes.
  pub list_cmd-Shows :
      (limit : ℤ) (want : Option Bool) (sort_by : Bytes) (reverse flushes : Bool) (s : R.State)
      → Shows
          (λ l. IsMarked want l.blocked × (length l.banner ≤ 45))
          limit
          (list_cmd C R limit (name_of want) sort_by reverse flushes s).0
  unfolding list_cmd summary_line
  list_cmd-Shows limit want sort_by reverse flushes s =
      subst
        (λ x.
          Shows (λ l. IsMarked want l.blocked × (length l.banner ≤ 45)) limit
            (chosen (name_of want)
              (λ b.
                listing (summary_line C) flushes (R.list_hassh_summaries limit b sort_by reverse s))
              s x).0)
        (sym (state_of-name_of want))
        (listing-Shows (λ l. IsMarked want l.blocked × (length l.banner ≤ 45)) (summary_line C)
          flushes limit
          (λ d h. (mark want d.blocked h, length-clip 45 d.ssh_client_banner (omega arith)))
          (L.summaries limit want sort_by reverse s))

  -- If the state is `allowed`, `blocked` or `all`, `sshctl log` shows connections of this state only,
  -- no more of them than a positive limit, and banners of at most 40 bytes.
  pub log_cmd-Shows :
      (limit : ℤ) (want : Option Bool) (sort_by : Bytes) (reverse flushes : Bool) (s : R.State)
      → Shows
          (λ l. IsMarked want l.blocked × (length l.banner ≤ 40))
          limit
          (log_cmd C R limit (name_of want) sort_by reverse flushes s).0
  unfolding log_cmd connection_line
  log_cmd-Shows limit want sort_by reverse flushes s =
      subst
        (λ x.
          Shows (λ l. IsMarked want l.blocked × (length l.banner ≤ 40)) limit
            (chosen (name_of want)
              (λ b.
                listing (connection_line C) flushes (R.list_connections limit b sort_by reverse s))
              s x).0)
        (sym (state_of-name_of want))
        (listing-Shows (λ l. IsMarked want l.blocked × (length l.banner ≤ 40)) (connection_line C)
          flushes limit
          (λ d h. (mark want d.blocked h, length-clip 40 d.ssh_client_banner (omega arith)))
          (L.connections limit want sort_by reverse s))

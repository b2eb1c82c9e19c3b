-- ===== src/Storage/Queries/Selected.antt =====
-- What the lists hold, if the database answers a query with rows that meet it.
use hassh.Common.{
  Bool-cases, inl, inr, ltb, zero, suc, ℕ, ◌≡◌, ◌≤◌, refl, Bool, true, false, Option, none, some,
  List, [], ◌∷◌, map, arith, length, All,
}
use hassh.Text.{Bytes}
use hassh.Storage.Database.Replies.{After, After-bind, after_done}
use hassh.Storage.Repository.{Net}
use hassh.Storage.Queries.{
  ℤ, pos, negsuc, limit_of, Clock, Condition, blocked_is, address_is, address_like,
  fingerprint_like, banner_like, SelectQuery, blocked_condition, ConnectionRow, SummaryRow,
  detail_of, summary_of, Reader, list_connections, list_hassh_summaries,
}

-- At most so many rows, where the limit is not negative.
abbrev pub IsWithin : Option ℤ → ℕ → Type 0
IsWithin none n = Unit
IsWithin (some (pos limit)) n = n ≤ limit
IsWithin (some (negsuc _)) n = Unit

-- What a limit asks for: 0 and below stand for no limit.
abbrev pub IsLimited : ℤ → ℕ → Type 0
IsLimited (pos zero) n = Unit
IsLimited (pos (suc limit)) n = n ≤ suc limit
IsLimited (negsuc _) n = Unit

IsWithin-IsLimited : (limit : ℤ) (n : ℕ) → IsWithin (limit_of limit) n → IsLimited limit n
IsWithin-IsLimited (pos zero) n h = tt
IsWithin-IsLimited (pos (suc limit)) n h = elim (Bool-cases (ltb 0 (suc limit))) [
  | inl e ↦ rw e at h
  | inr e ↦ absurd (ground arith)
]
IsWithin-IsLimited (negsuc _) n h = tt

-- `LIKE '%…%'`, as the database decides it.
module _ (C : Clock) (like : Bytes → Bytes → Bool) where
  abbrev pub Meets : ConnectionRow C → Condition → Type 0
  Meets r (blocked_is b) = r.blocked ≡ b
  Meets r (address_is v a) = (r.ip_version ≡ v) × (r.ip_address_bytes ≡ a)
  Meets r (address_like t) = like t r.ip_address_bytes ≡ true
  Meets r (fingerprint_like t) = like t r.hassh_fingerprint ≡ true
  Meets r (banner_like t) = like t r.ssh_client_banner ≡ true

  -- A summary has no address, and its last column is 0 or 1.
  abbrev pub SummaryMeets : SummaryRow C → Condition → Type 0
  SummaryMeets r (blocked_is true) = r.is_blocked ≡ 1
  SummaryMeets r (blocked_is false) = r.is_blocked ≡ 0
  SummaryMeets r (address_is v a) = ⊥
  SummaryMeets r (address_like t) = ⊥
  SummaryMeets r (fingerprint_like t) = like t r.hassh_fingerprint ≡ true
  SummaryMeets r (banner_like t) = like t r.ssh_client_banner ≡ true

  -- Every row of an answer meets every condition, and there are no more than the limit.
  pub record IsSelecting {S : Type 0} (Q : Reader C S) : Type 0 where
    pub connections :
        (q : SelectQuery) (s : S)
        → After
            (λ rows _. All (λ r. All (Meets r) q.conditions) rows × IsWithin q.limit (length rows))
            (λ _ _. Unit {0})
            (Q.find_connections q s)
    pub summaries :
        (q : SelectQuery) (s : S)
        → After
            (λ rows _.
              All (λ r. All (SummaryMeets r) q.conditions) rows × IsWithin q.limit (length rows))
            (λ _ _. Unit {0})
            (Q.find_summaries q s)

-- A list shows only the connections or the summaries of a state; all of them if none is asked for.
abbrev pub IsState : Option Bool → Bool → Type 0
IsState none b = Unit
IsState (some want) b = b ≡ want

length-map : {A B : Type 0} (f : A → B) (xs : List A) → length (map f xs) ≡ length xs
length-map f [] = refl
length-map f (x ∷ xs) = omega (arith, length-map f xs)

module _ (C : Clock) (N : Net) (like : Bytes → Bytes → Bool) where
  details_in_state :
      (blocked : Option Bool) (rows : List (ConnectionRow C))
      → All (λ r. All (Meets C like r) (blocked_condition blocked)) rows
      → All (λ d. IsState blocked d.blocked) (map (detail_of C N) rows)
  unfolding detail_of
  details_in_state blocked [] h = tt
  details_in_state none (r ∷ rows) (h, hs) = (tt, details_in_state none rows hs)
  details_in_state (some b) (r ∷ rows) (h, hs) = (h.0, details_in_state (some b) rows hs)

  summaries_in_state :
      (blocked : Option Bool) (rows : List (SummaryRow C))
      → All (λ r. All (SummaryMeets C like r) (blocked_condition blocked)) rows
      → All (λ d. IsState blocked d.blocked) (map (summary_of C) rows)
  unfolding summary_of
  summaries_in_state blocked [] h = tt
  summaries_in_state none (r ∷ rows) (h, hs) = (tt, summaries_in_state none rows hs)
  summaries_in_state (some true) (r ∷ rows) (h, hs) =
      (rw h.0 refl, summaries_in_state (some true) rows hs)
  summaries_in_state (some false) (r ∷ rows) (h, hs) =
      (rw h.0 refl, summaries_in_state (some false) rows hs)

  module _ {S : Type 0} (Q : Reader C S) (L : IsSelecting C like Q) where
    -- Whatever it is asked, `ListConnections` returns connections of the state asked for only, and no
    -- more of them than a positive limit.
    pub list_connections-After :
        (limit : ℤ) (blocked : Option Bool) (sort_by : Bytes) (reverse : Bool) (s : S)
        → After
            (λ ds _. All (λ d. IsState blocked d.blocked) ds × IsLimited limit (length ds))
            (λ _ _. Unit {0})
            (list_connections C Q N limit blocked sort_by reverse s)
    unfolding list_connections
    list_connections-After limit blocked sort_by reverse s =
        After-bind (L.connections _ s) (λ rows t h. after_done (
          details_in_state blocked rows h.0,
          rw (length-map (detail_of C N) rows) (IsWithin-IsLimited limit (length rows) h.1),
        ))

    -- Whatever it is asked, `ListHASSHSummaries` returns fingerprints of the state asked for only, and
    -- no more of them than a positive limit.
    pub list_hassh_summaries-After :
        (limit : ℤ) (blocked : Option Bool) (sort_by : Bytes) (reverse : Bool) (s : S)
        → After
            (λ ds _. All (λ d. IsState blocked d.blocked) ds × IsLimited limit (length ds))
            (λ _ _. Unit {0})
            (list_hassh_summaries C Q N limit blocked sort_by reverse s)
    unfolding list_hassh_summaries
    list_hassh_summaries-After limit blocked sort_by reverse s =
        After-bind (L.summaries _ s) (λ rows t h. after_done (
          summaries_in_state blocked rows h.0,
          rw (length-map (summary_of C) rows) (IsWithin-IsLimited limit (length rows) h.1),
        ))

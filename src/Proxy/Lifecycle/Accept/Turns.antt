-- ===== src/Proxy/Lifecycle/Accept/Turns.antt =====
-- The turns of the accept loop against the steps of the server, and what becomes of a connection.
use hassh.Common.{
  ℕ, ◌≤◌, ◌<◌, ◌≡◌, refl, sym, arith, Bool, true, false, inl, inr, List, [], ◌∷◌, ◌++◌,
  append_assoc, append-nil, Bool-cases, Result, ok, err, panics, ltb, if◌then◌else◌,
}
use hassh.Proxy.Lifecycle.{
  accepting, Server, max_concurrent_connections, Label, admit, reject, nothing_accepted,
  start_handler, cancelled, start_returns, Run, start, next,
}
use hassh.Proxy.Lifecycle.Accept.{
  Attempt, arrives, fails, Turn, AcceptError, context_done, accept_failed, AcceptAction, handle,
  reject_connection, log_limit, log_accept_error, log_shutdown, close_syslog, close_listener,
  accept_with_context, complain, enter, give_up, received, attend, take_turn, deferred, Serves,
  begins, turns, meanwhile, ends,
}

-- A run of the server, whatever its labels.
abbrev pub Reaches : Server → Server → Type 0
Reaches s t = (labels : List Label) × Run s labels t

ltb→lt : (a b : ℕ) → ltb a b ≡ true → a < b
ltb→lt a b h = ground arith

ltb→ge : (a b : ℕ) → ltb a b ≡ false → b ≤ a
ltb→ge a b h = ground arith

give_up-Reaches :
    (C : Type 0) {s t : Server} (e : AcceptError) (b : Bool)
    → Reaches s t
    → t.phase ≡ accepting
    → Reaches s (give_up {C = C} t e b).0
give_up-Reaches C e true (labels, run) phase = (_, next run (cancelled phase))
give_up-Reaches C e false (labels, run) phase = (_, next run (nothing_accepted phase))

module _ {C : Type 0} where
  enter-Reaches :
      {s t : Server} (conn : C) (b : Bool)
      → ltb t.conn_semaphore max_concurrent_connections ≡ b
      → Reaches s t
      → t.phase ≡ accepting
      → Reaches s (enter t conn b).0
  enter-Reaches {t = t} conn true room (labels, run) phase = (
    _,
    next (next run (admit phase (ltb→lt t.conn_semaphore max_concurrent_connections room)))
        (start_handler refl),
  )
  enter-Reaches {t = t} conn false full (labels, run) phase =
      (_, next run (reject phase (ltb→ge t.conn_semaphore max_concurrent_connections full)))

  received-Reaches :
      {s t : Server} (turn : Turn C) (r : Result AcceptError C)
      → Reaches s t
      → t.phase ≡ accepting
      → Reaches s (received t turn r).0
  received-Reaches turn (ok conn) reached phase = enter-Reaches conn _ refl reached phase
  received-Reaches turn (err e) reached phase = give_up-Reaches C e turn.done_after reached phase
  received-Reaches turn panics reached phase = reached

  attend-Reaches :
      {s t : Server} (turn : Turn C) (b : Bool)
      → Reaches s t
      → t.phase ≡ accepting
      → Reaches s (attend t turn b).0
  attend-Reaches turn true (labels, run) phase = (_, next run (cancelled phase))
  attend-Reaches turn false reached phase =
      received-Reaches turn (accept_with_context turn) reached phase

  Serves-Reaches :
      {s t : Server} {ts : List (Turn C)} {actions : List (AcceptAction C)}
      → Serves s ts actions t
      → Reaches s t
  unfolding take_turn
  Serves-Reaches begins = ([], start)
  Serves-Reaches (turns served turn phase) =
      attend-Reaches turn turn.done_before (Serves-Reaches served) phase
  Serves-Reaches (meanwhile served step same) =
      let (labels, run) = Serves-Reaches served in (_, next run step)
  Serves-Reaches (ends served phase none_left) =
      let (labels, run) = Serves-Reaches served in (_, next run (start_returns phase none_left))

  -- The connections that a turn is given: there is one unless the context was done, or the select
  -- took its case, or nothing arrived.
  abbrev pub arrived : Attempt C → List C
  arrived (arrives conn) = conn ∷ []
  arrived (fails timeout) = []

  abbrev pub given : Turn C → List C
  given t = if t.done_before then [] else (if t.takes_done then [] else arrived t.attempt)

  abbrev pub all_given : List (Turn C) → List C
  all_given [] = []
  all_given (t ∷ ts) = given t ++ all_given ts

  -- The connections that are handled or closed, one for each time.
  abbrev pub settled_by : AcceptAction C → List C
  settled_by (handle conn) = conn ∷ []
  settled_by (reject_connection conn) = conn ∷ []
  settled_by log_limit = []
  settled_by log_accept_error = []
  settled_by log_shutdown = []
  settled_by close_syslog = []
  settled_by close_listener = []

  abbrev pub all_settled : List (AcceptAction C) → List C
  all_settled [] = []
  all_settled (a ∷ actions) = settled_by a ++ all_settled actions

  all_given-append : (ts us : List (Turn C)) → all_given (ts ++ us) ≡ all_given ts ++ all_given us
  all_given-append [] us = refl
  all_given-append (t ∷ ts) us =
      rw (all_given-append ts us) (sym (append_assoc (given t) (all_given ts) (all_given us)))

  all_settled-append :
      (xs bs : List (AcceptAction C)) → all_settled (xs ++ bs) ≡ all_settled xs ++ all_settled bs
  all_settled-append [] bs = refl
  all_settled-append (a ∷ xs) bs =
      rw (all_settled-append xs bs)
        (sym (append_assoc (settled_by a) (all_settled xs) (all_settled bs)))

  complain_settled : (e : AcceptError) → all_settled (complain {C = C} e) ≡ []
  complain_settled context_done = refl
  complain_settled (accept_failed true) = refl
  complain_settled (accept_failed false) = refl

  deferred_settled : (s : Server) → all_settled (deferred {C = C} s) ≡ []
  unfolding deferred
  deferred_settled s = elim (Bool-cases s.has_syslog) [ inl e ↦ rw e refl | inr e ↦ rw e refl ]

  enter_settled : (s : Server) (conn : C) (b : Bool) → all_settled (enter s conn b).1 ≡ conn ∷ []
  enter_settled s conn true = refl
  enter_settled s conn false = refl

  give_up_settled :
      (s : Server) (e : AcceptError) (b : Bool) → all_settled (give_up {C = C} s e b).1 ≡ []
  give_up_settled s e true = refl
  give_up_settled s e false = complain_settled e

  take_turn_settled : (s : Server) (t : Turn C) → all_settled (take_turn s t).1 ≡ given t
  unfolding take_turn accept_with_context
  take_turn_settled s t = go t.done_before t.takes_done t.attempt
    where
      go :
          (b d : Bool) (a : Attempt C)
          → all_settled (attend s (record t { takes_done = d; attempt = a }) b).1
            ≡ given (record t { done_before = b; takes_done = d; attempt = a })
      go true d a = refl
      go false true a = give_up_settled s context_done t.done_after
      go false false (arrives conn) =
          enter_settled s conn (ltb s.conn_semaphore max_concurrent_connections)
      go false false (fails true) = elim (Bool-cases t.done_inside) [
        | inl e ↦ rw e (give_up_settled s context_done t.done_after)
        | inr e ↦ rw e (give_up_settled s (accept_failed true) t.done_after)
      ]
      go false false (fails false) = give_up_settled s (accept_failed false) t.done_after

  Serves_settled :
      {s t : Server} {ts : List (Turn C)} {actions : List (AcceptAction C)}
      → Serves s ts actions t
      → all_settled actions ≡ all_given ts
  Serves_settled begins = refl
  Serves_settled (turns {s} {t} {ts} {actions} served turn phase) =
      rw
        (
          all_settled-append actions (take_turn t turn).1,
          all_given-append ts (turn ∷ []),
          Serves_settled served,
          take_turn_settled t turn,
          append-nil (given turn),
        )
        refl
  Serves_settled (meanwhile served step same) = Serves_settled served
  Serves_settled (ends {s} {t} {ts} {actions} served phase none_left) =
      rw
        (
          all_settled-append actions (deferred t),
          deferred_settled t,
          append-nil (all_settled actions),
        )
        (Serves_settled served)

  -- Whatever the turns of the accept loop meet, and whatever handlers and reloads do between them,
  -- the server stays on a run of its steps; and the loop handles or closes every connection that it
  -- is given, each once and in the order in which they come, and no other. It is given the one that
  -- arrives in a turn, unless the context was done at its head or the select of the accept took the
  -- case of the context.
  pub Serves_lem :
      {s t : Server} {ts : List (Turn C)} {actions : List (AcceptAction C)}
      → Serves s ts actions t
      → Reaches s t × (all_settled actions ≡ all_given ts)
  Serves_lem served = (Serves-Reaches served, Serves_settled served)

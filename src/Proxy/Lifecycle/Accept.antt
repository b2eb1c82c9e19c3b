-- ===== src/Proxy/Lifecycle/Accept.antt =====
-- pkg/proxy/server.go: `acceptWithContext` and the turns of the loop of `Start`, between which the
-- other goroutines take their steps. `C` is net.Conn.
pub mod Turns
use hassh.Common.{
  ℕ, ◌≡◌, Bool, true, false, List, [], ◌∷◌, ◌++◌, Result, ok, err, panics, ltb, if◌then◌else◌,
}
use hassh.Proxy.Lifecycle.{
  accepting, draining, returned, Server, acquire, spawn, max_concurrent_connections, Label, quiet,
  Step,
}

-- What `listener.Accept` answers to the goroutine that calls it.
pub data Attempt (C : Type 0) : Type 0 where
  arrives : C → Attempt C
  -- is it a net.Error whose `Timeout` is true?
  fails : Bool → Attempt C

-- One turn of the loop, as it meets the context and the listener.
pub record Turn (C : Type 0) : Type 0 where
  -- is the context done at the head of the loop?
  pub done_before : Bool
  -- does the select of `acceptWithContext` take the case of the context?
  pub takes_done : Bool
  -- and the select behind a timeout?
  pub done_inside : Bool
  -- is `ctx.Err()` not nil behind an error?
  pub done_after : Bool
  pub attempt : Attempt C

pub data AcceptError : Type 0 where
  context_done : AcceptError
  accept_failed : Bool → AcceptError

-- What the loop does with a connection or says to the log; at the end, what it closes.
pub data AcceptAction (C : Type 0) : Type 0 where
  handle : C → AcceptAction C
  reject_connection : C → AcceptAction C
  log_limit : AcceptAction C
  log_accept_error : AcceptAction C
  log_shutdown : AcceptAction C
  close_syslog : AcceptAction C
  close_listener : AcceptAction C

-- The way out of the loop, to `s.activeConns.Wait()`.
abbrev pub drain : Server → Server
drain s = record s { phase = draining }

module _ {C : Type 0} where
  abbrev pub answered : Turn C → Attempt C → Result AcceptError C
  answered t (arrives conn) = ok conn
  answered t (fails timeout) =
      if timeout
      then (if t.done_inside then err context_done else err (accept_failed timeout))
      else err (accept_failed timeout)

  unfoldable pub accept_with_context : Turn C → Result AcceptError C
  accept_with_context t = if t.takes_done then err context_done else answered t t.attempt

  -- `if netErr, ok := err.(net.Error); ok && netErr.Timeout() { continue }`, else a line in the log.
  abbrev pub complain : AcceptError → List (AcceptAction C)
  complain context_done = log_accept_error ∷ []
  complain (accept_failed true) = []
  complain (accept_failed false) = log_accept_error ∷ []

  -- Is there room in the semaphore?
  abbrev pub enter : Server → C → Bool → Server × List (AcceptAction C)
  enter s conn true = (spawn (acquire s), handle conn ∷ [])
  enter s conn false = (s, log_limit ∷ reject_connection conn ∷ [])

  -- Is `ctx.Err()` not nil?
  abbrev pub give_up : Server → AcceptError → Bool → Server × List (AcceptAction C)
  give_up s e true = (drain s, [])
  give_up s e false = (s, complain e)

  -- The loop's part behind `acceptWithContext`.
  abbrev pub received : Server → Turn C → Result AcceptError C → Server × List (AcceptAction C)
  received s t (ok conn) = enter s conn (ltb s.conn_semaphore max_concurrent_connections)
  received s t (err e) = give_up s e t.done_after
  received s t panics = (s, [])

  -- Is the context done at the head of the loop?
  abbrev pub attend : Server → Turn C → Bool → Server × List (AcceptAction C)
  attend s t true = (drain s, log_shutdown ∷ [])
  attend s t false = received s t (accept_with_context t)

  unfoldable pub take_turn : Server → Turn C → Server × List (AcceptAction C)
  unfolding accept_with_context
  take_turn s t = attend s t t.done_before

  -- The deferred calls, the last one first.
  unfoldable pub deferred : Server → List (AcceptAction C)
  deferred s = (if s.has_syslog then close_syslog ∷ [] else []) ++ (close_listener ∷ [])

  -- The states that the turns lead to while handlers end and reloads run, with the turns and the
  -- actions so far, the latest last.
  pub data Serves : Server → List (Turn C) → List (AcceptAction C) → Server → Type 0 where
    begins : {s : Server} → Serves s [] [] s
    turns :
        {s t : Server} {ts : List (Turn C)} {actions : List (AcceptAction C)}
        → Serves s ts actions t
        → (turn : Turn C) → t.phase ≡ accepting
        → Serves s (ts ++ (turn ∷ [])) (actions ++ (take_turn t turn).1) (take_turn t turn).0
    -- the steps that leave the phase are those of the handlers and of the reloads
    meanwhile :
        {s t u : Server} {ts : List (Turn C)} {actions : List (AcceptAction C)} {l : Label}
        → Serves s ts actions t
        → Step t l u
        → u.phase ≡ t.phase
        → Serves s ts actions u
    ends :
        {s t : Server} {ts : List (Turn C)} {actions : List (AcceptAction C)}
        → Serves s ts actions t
        → t.phase ≡ draining
        → t.active_conns ≡ 0
        → Serves s ts (actions ++ deferred t) (record t { phase = returned })

-- ===== src/Tunnel/Reverse/Running.antt =====
-- tunnel/reverse_tunnel.go (`acceptLoop`, the goroutine that `Start` makes for the end of the
-- context, `Close` up to its wait) and tunnel/reverse_health.go (`keepaliveLoop`) on the shared
-- fields, as steps. Clients and listeners are numbers; a listener number stands in `closed` with
-- whether it is closed. `handleConnection` and the attempts of `reconnect` are single moves here.
-- `Accept` may fail on an open listener too, when the connection to the gateway is lost.
pub mod Counted
pub mod Kept
pub mod Waited
pub mod Runs
pub mod Open
pub mod OneOpen
pub mod Own
pub mod Moves
pub mod Progress
pub mod Raced
use gonc.Prelude.{
  ℕ, zero, suc, ◌-◌, List, [], ◌∷◌, ◌++◌, Option, none, some, Bool, true, false, if◌then◌else◌,
  length, get_elem?, set, ltb,
}

-- The accept loop: before it reads the listener, in `Accept`, before `reconnect` tears down, in the
-- attempts of `reconnect`, before the deferred `cancel`, before the deferred `Done`, at its end.
pub data Acceptor : Type 0 where
  looking tearing_down reconnecting cancelling leaving gone : Acceptor
  accepting : ℕ → Acceptor

-- A keepalive loop: in its `select`, in `SendRequest`, before it closes the listener, before the
-- deferred `Done`, at its end.
pub data Keepalive : Type 0 where
  ticking closing leaving gone : Keepalive
  asking : ℕ → Keepalive

-- `closed_at_end` says that the goroutine for the end of the context has run; `clients` counts the
-- clients made so far.
pub record Running : Type 0 where
  pub client : Option ℕ
  pub listener : Option ℕ
  pub clients : ℕ
  pub closed : List Bool
  pub ctx_done : Bool
  pub closed_at_end : Bool
  pub acceptor : Acceptor
  pub keepalives : List Keepalive
  pub handlers : ℕ
  pub wait_group : ℕ

-- the goroutines behind `Start`, with the keepalive loop or without
abbrev pub started : Bool → Running
started keepalive = record {
  client = some 0;
  listener = some 0;
  clients = 1;
  closed = false ∷ [];
  ctx_done = false;
  closed_at_end = false;
  acceptor = looking;
  keepalives = if keepalive then ticking ∷ [] else [];
  handlers = 0;
  wait_group = if keepalive then 2 else 1;
}

-- `ctx_ends` is the end of the outer context or the `cancel` in `Close`; `accepts` and `accept_fails`
-- are what `Accept` returns, `reconnects` whether an attempt has succeeded, `answers` whether a
-- keepalive request was answered; `handler_ends` is the `Done` of a handler and `closes_listener` the
-- first section of `Close` behind its `cancel`.
pub data Move : Type 0 where
  ctx_ends at_end accepts accept_fails acceptor_moves handler_ends closes_listener : Move
  reconnects : Bool → Move
  ticks sees_end keepalive_moves : ℕ → Move
  answers : ℕ → Bool → Move

-- `if rt.listener != nil { rt.listener.Close() }`
pub close_of : Option ℕ → List Bool → List Bool
close_of none closed = closed
close_of (some l) closed = set closed l true

-- the test and the body of that goroutine
pub at_end_step : Bool → Bool → Running → Option Running
unfolding close_of
at_end_step true false s =
    some (record s { closed_at_end = true; closed = close_of s.listener s.closed })
at_end_step _ _ s = none

module _ (keepalive auto_reconnect : Bool) where
  pub after_accept : Acceptor → Running → Option Running
  after_accept (accepting l) s =
      some
        (record s { acceptor = looking; handlers = suc s.handlers; wait_group = suc s.wait_group })
  after_accept _ s = none

  pub after_failure : Acceptor → Running → Option Running
  after_failure (accepting l) s = some (record s {
    acceptor =
        if s.ctx_done then cancelling else if auto_reconnect then tearing_down else cancelling;
  })
  after_failure _ s = none

  looks : Option ℕ → Running → Running
  looks none s = record s { acceptor = cancelling }
  looks (some l) s = record s { acceptor = accepting l }

  pub acceptor_step : Acceptor → Running → Option Running
  unfolding looks close_of
  acceptor_step looking s = some (looks s.listener s)
  acceptor_step tearing_down s = some (record s {
    acceptor = reconnecting;
    closed = close_of s.listener s.closed;
    listener = none;
    client = none;
  })
  acceptor_step cancelling s = some (record s { acceptor = leaving; ctx_done = true })
  acceptor_step leaving s = some (record s { acceptor = gone; wait_group = s.wait_group - 1 })
  acceptor_step _ s = none

  -- the end of `reconnect`, with its sections behind the loop when an attempt has succeeded
  reconnected : Bool → Acceptor → Running → Option Running
  reconnected false reconnecting s = some (record s { acceptor = cancelling })
  reconnected true reconnecting s = some (record s {
    client = some s.clients;
    clients = suc s.clients;
    listener = some (length s.closed);
    closed = s.closed ++ false ∷ [];
    acceptor = looking;
    keepalives = if keepalive then s.keepalives ++ ticking ∷ [] else s.keepalives;
    wait_group = if keepalive then suc s.wait_group else s.wait_group;
  })
  reconnected _ _ s = none

  -- a tick, for the client that the loop reads then
  after_tick : ℕ → Option ℕ → Running → Running
  after_tick i none s = record s { keepalives = set s.keepalives i leaving }
  after_tick i (some c) s = record s { keepalives = set s.keepalives i (asking c) }

  on_tick : ℕ → Option Keepalive → Running → Option Running
  unfolding after_tick
  on_tick i (some ticking) s = some (after_tick i s.client s)
  on_tick i _ s = none

  on_end : ℕ → Option Keepalive → Running → Option Running
  on_end i (some ticking) s =
      if s.ctx_done then some (record s { keepalives = set s.keepalives i leaving }) else none
  on_end i _ s = none

  on_answer : ℕ → Bool → Option Keepalive → Running → Option Running
  on_answer i ok (some (asking c)) s =
      some (record s { keepalives = set s.keepalives i (if ok then ticking else closing) })
  on_answer i ok _ s = none

  keepalive_step : ℕ → Option Keepalive → Running → Option Running
  unfolding close_of
  keepalive_step i (some closing) s = some (record s {
    keepalives = set s.keepalives i leaving;
    closed = close_of s.listener s.closed;
    listener = none;
  })
  keepalive_step i (some leaving) s =
      some (record s { keepalives = set s.keepalives i gone; wait_group = s.wait_group - 1 })
  keepalive_step i _ s = none

  handler_step : ℕ → Running → Option Running
  handler_step zero s = none
  handler_step (suc n) s = some (record s { handlers = n; wait_group = s.wait_group - 1 })

  pub step : Running → Move → Option Running
  unfolding at_end_step after_accept after_failure acceptor_step reconnected on_tick on_end
      on_answer keepalive_step handler_step close_of
  step s ctx_ends = some (record s { ctx_done = true })
  step s at_end = at_end_step s.ctx_done s.closed_at_end s
  step s accepts = after_accept s.acceptor s
  step s accept_fails = after_failure s.acceptor s
  step s acceptor_moves = acceptor_step s.acceptor s
  step s (reconnects ok) = reconnected ok s.acceptor s
  step s (ticks i) = on_tick i (get_elem? s.keepalives i) s
  step s (sees_end i) = on_end i (get_elem? s.keepalives i) s
  step s (answers i ok) = on_answer i ok (get_elem? s.keepalives i) s
  step s (keepalive_moves i) = keepalive_step i (get_elem? s.keepalives i) s
  step s handler_ends = handler_step s.handlers s
  step s closes_listener =
      if s.ctx_done
      then some (record s { closed = close_of s.listener s.closed; listener = none })
      else none

  unfoldable pub run : Option Running → List Move → Option Running
  unfolding step
  run o [] = o
  run none (m ∷ ms) = none
  run (some s) (m ∷ ms) = run (step s m) ms

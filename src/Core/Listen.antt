-- ===== src/Core/Listen.antt =====
-- internal/core/listen.go: `ListenMode.Run`. The network is a parameter: the result of listening, and
-- what the calls of `ln.Accept` return, each failure with the state of the context at that moment. A
-- connection is a number; `handle` is what the capability returns on it. The goroutine that closes
-- the listener when the context is done makes `Accept` fail.
pub mod Served
use gonc.Prelude.{ℕ, List, [], ◌∷◌, ◌++◌, Option, none, some, Bool, true, false, if◌then◌else◌}
use gonc.Prelude.Int.{ℤ, pos, ltb_ℤ}
use gonc.Prelude.Result.{Result, ok, err}
use gonc.Text.{Str, codes}
use gonc.Errors.{Error, cause, wrapped}
use gonc.Core.{Network, tcp, udp, ListenMode}

-- What `ln.Accept` returns; `fails` says whether the context is done.
pub data Accept : Type 0 where
  accepts : ℕ → Accept
  fails : Error → Bool → Accept

pub data Event : Type 0 where
  sets_deadline : ℕ → ℤ → Event
  handles closes_conn : ℕ → Event
  spawns : ℕ → Event
  closes_listener : Event

pub record Ended : Type 0 where
  pub returned : Option Error
  pub events : List Event

module _ (handle : ℕ → Option Error) (m : ListenMode) where
  -- `if m.Timeout > 0 { conn.SetDeadline(…) }`
  deadline : ℕ → List Event
  deadline conn = if ltb_ℤ (pos 0) m.timeout then sets_deadline conn m.timeout ∷ [] else []

  -- `serveConn`; in a goroutine of its own with KeepOpen
  pub serve_conn : ℕ → Ended
  unfolding deadline
  serve_conn conn = record {
    returned = handle conn;
    events = deadline conn ++ handles conn ∷ closes_conn conn ∷ [];
  }

  -- The loop around `ln.Accept`, with the events so far; none while it waits for the next call.
  pub accept_loop : List Event → List Accept → Option Ended
  unfolding serve_conn
  accept_loop es [] = none
  accept_loop es (fails e done ∷ rest) = some (record {
    returned = if done then none else some (wrapped (codes "accept") (cause e));
    events = es ++ closes_listener ∷ [];
  })
  accept_loop es (accepts conn ∷ rest) =
      let later = accept_loop (es ++ spawns conn ∷ []) rest in
      if m.keep_open
      then later
      else some (record {
        returned = (serve_conn conn).returned;
        events = es ++ (serve_conn conn).events ++ closes_listener ∷ [];
      })

  -- `listenTCP`
  pub listen_tcp : Option Error → List Accept → Option Ended
  unfolding accept_loop
  listen_tcp (some e) script = some (record {
    returned = some (wrapped (codes "listen on " ++ m.address) (cause e));
    events = [];
  })
  listen_tcp none script = accept_loop [] script

  -- `listenUDP`, with the results of resolving the address and of listening; the socket is the
  -- connection 0
  pub listen_udp : Option Error → Option Error → Ended
  unfolding deadline
  listen_udp (some e) bound = record {
    returned = some (wrapped (codes "resolve UDP") (cause e));
    events = [];
  }
  listen_udp none (some e) = record {
    returned = some (wrapped (codes "listen UDP on " ++ m.address) (cause e));
    events = [];
  }
  listen_udp none none = record {
    returned = handle 0;
    events = deadline 0 ++ handles 0 ∷ closes_conn 0 ∷ [];
  }

  -- `Run`
  pub run_listen : Option Error → Option Error → Option Error → List Accept → Option Ended
  unfolding listen_tcp listen_udp
  run_listen listening resolved bound script = elim m.network [
    | udp ↦ some (listen_udp resolved bound)
    | tcp ↦ listen_tcp listening script
  ]

-- ===== src/Core/Listen/Served.antt =====
-- Which connections a listener serves, and when it stops.
use gonc.Prelude.{
  ℕ, ◌≡◌, ◌∙◌, refl, List, [], ◌∷◌, ◌++◌, Option, none, some, Bool, true, if◌then◌else◌,
  append_assoc,
}
use gonc.Errors.{Error, cause, wrapped}
use gonc.Text.{codes}
use gonc.Core.{tcp, ListenMode}
use gonc.Core.Listen.{
  Accept, accepts, fails, Event, spawns, closes_listener, accept_loop, listen_tcp, run_listen,
}

-- connections that are accepted one after the other, until `Accept` fails
abbrev pub script : List ℕ → Error → Bool → List Accept
script [] e done = fails e done ∷ []
script (conn ∷ conns) e done = accepts conn ∷ script conns e done

abbrev pub spawned : List ℕ → List Event
spawned [] = []
spawned (conn ∷ conns) = spawns conn ∷ spawned conns

module _ (handle : ℕ → Option Error) (m : ListenMode) where
  loop_spawns :
      (es : List Event) (conns : List ℕ) (e : Error) (done : Bool)
      → m.keep_open ≡ true
      → accept_loop handle m es (script conns e done)
        ≡ some (record {
          returned = if done then none else some (wrapped (codes "accept") (cause e));
          events = es ++ (spawned conns ++ closes_listener ∷ []);
        })
  unfolding accept_loop
  loop_spawns es [] e done k = refl
  loop_spawns es (conn ∷ conns) e done k = rw k (
      loop_spawns (es ++ spawns conn ∷ []) conns e done k
      ∙ rw (append_assoc es (spawns conn ∷ []) (spawned conns ++ closes_listener ∷ [])) refl)

  -- A TCP listener that is kept open hands every connection that it accepts to a goroutine of its own,
  -- in order, until `Accept` fails; it then closes the listener, and returns nil exactly if the
  -- context is done.
  pub run_listen_spawns :
      (conns : List ℕ) (e : Error) (done : Bool) (resolved bound : Option Error)
      → m.network ≡ tcp
      → m.keep_open ≡ true
      → run_listen handle m none resolved bound (script conns e done)
        ≡ some (record {
          returned = if done then none else some (wrapped (codes "accept") (cause e));
          events = spawned conns ++ closes_listener ∷ [];
        })
  unfolding run_listen listen_tcp
  run_listen_spawns conns e done resolved bound n k = rw n (loop_spawns [] conns e done k)

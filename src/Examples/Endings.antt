-- ===== src/Examples/Endings.antt =====
-- A reverse tunnel that runs, reconnects and ends.
use gonc.Prelude.{ℕ, ◌≡◌, inl, refl, List, [], ◌∷◌, none, some, true, false, All, get_elem?}
use gonc.Tunnel.Reverse.Running.{Acceptor, Keepalive}
use gonc.Tunnel.Reverse.Running
use gonc.Tunnel.Reverse.Running.Waited.{run_waited}
use gonc.Tunnel.Reverse.Running.OneOpen.{run_one_open}
use gonc.Tunnel.Reverse.Running.Progress
use gonc.Tunnel.Reverse.Running.Raced.{keepalive_ends_tunnel, late_listener}

-- It loses its gateway and reconnects.
abbrev dawn : List Running.Move
dawn =
    Running.acceptor_moves
    ∷ Running.accept_fails
    ∷ Running.acceptor_moves
    ∷ Running.reconnects true
    ∷ []

abbrev morning : Running.Running
morning = record {
  client = some 1;
  listener = some 1;
  clients = 2;
  closed = true ∷ false ∷ [];
  ctx_done = false;
  closed_at_end = false;
  acceptor = Running.looking;
  keepalives = Running.ticking ∷ Running.ticking ∷ [];
  handlers = 0;
  wait_group = 3;
}

dawns : Running.run true true (some (Running.started true)) dawn ≡ some morning
unfolding Running.run
dawns = refl

-- It forwards a connection, loses its gateway and reconnects, and is closed.
abbrev day : List Running.Move
day =
    Running.acceptor_moves
    ∷ Running.accepts
    ∷ Running.acceptor_moves
    ∷ Running.ticks 0
    ∷ Running.answers 0 false
    ∷ Running.keepalive_moves 0
    ∷ Running.keepalive_moves 0
    ∷ Running.accept_fails
    ∷ Running.acceptor_moves
    ∷ Running.reconnects true
    ∷ Running.acceptor_moves
    ∷ Running.ctx_ends
    ∷ Running.at_end
    ∷ Running.accept_fails
    ∷ Running.acceptor_moves
    ∷ Running.acceptor_moves
    ∷ Running.sees_end 1
    ∷ Running.keepalive_moves 1
    ∷ Running.handler_ends
    ∷ []

abbrev evening : Running.Running
evening = record {
  client = some 1;
  listener = some 1;
  clients = 2;
  closed = true ∷ true ∷ [];
  ctx_done = true;
  closed_at_end = true;
  acceptor = Acceptor.gone;
  keepalives = Keepalive.gone ∷ Keepalive.gone ∷ [];
  handlers = 0;
  wait_group = 0;
}

passes : Running.run true true (some (Running.started true)) day ≡ some evening
unfolding Running.run
passes = refl

run_waited_example :
    (evening.acceptor ≡ Acceptor.gone)
    × All (λ k. k ≡ Keepalive.gone) evening.keepalives
    × (evening.handlers ≡ 0)
    × (evening.ctx_done ≡ true)
run_waited_example = run_waited true true day passes refl

run_one_open_example : morning.listener ≡ some 1
run_one_open_example = run_one_open true true dawn 1 dawns refl

run_wait_returns_example :
    (more : List Running.Move) × (t : Running.Running) × (Progress.own_run true true
        (Running.step true true morning Running.ctx_ends)
        more
      ≡ some t)
    × (t.wait_group ≡ 0)
run_wait_returns_example = Progress.run_wait_returns true true dawn dawns (inl refl)

-- A keepalive has failed while the accept loop is busy with a connection.
abbrev early : Running.Running
early = record {
  client = some 0;
  listener = some 0;
  clients = 1;
  closed = false ∷ [];
  ctx_done = false;
  closed_at_end = false;
  acceptor = Running.looking;
  keepalives = Running.closing ∷ [];
  handlers = 1;
  wait_group = 3;
}

keepalive_ends_tunnel_example :
    (t : Running.Running) × (Running.run true true
        (some early)
        (Running.keepalive_moves 0 ∷ Running.acceptor_moves ∷ [])
      ≡ some t)
    × (t.acceptor ≡ Running.cancelling)
    × (t.ctx_done ≡ early.ctx_done)
    × (t.clients ≡ early.clients)
keepalive_ends_tunnel_example = keepalive_ends_tunnel true true early 0 refl refl

-- The context ends while the accept loop reconnects.
abbrev ending : Running.Running
ending = record {
  client = none;
  listener = none;
  clients = 1;
  closed = true ∷ [];
  ctx_done = true;
  closed_at_end = true;
  acceptor = Running.reconnecting;
  keepalives = Keepalive.gone ∷ [];
  handlers = 0;
  wait_group = 1;
}

late_listener_example :
    (t : Running.Running) × (l : ℕ) × (Running.run true true
        (some ending)
        (Running.reconnects true ∷ Running.acceptor_moves ∷ [])
      ≡ some t)
    × (t.acceptor ≡ Running.accepting l)
    × (get_elem? t.closed l ≡ some false)
    × (Running.step true true t Running.at_end ≡ none)
late_listener_example = late_listener true true ending refl refl refl

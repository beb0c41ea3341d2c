-- ===== src/Tunnel/Reverse/Running/Raced.antt =====
-- Two orders of steps that a reverse tunnel does not recover from.
use gonc.Prelude.{
  ℕ, suc, ◌≡◌, refl, ap, ◌∙◌, List, [], ◌∷◌, ◌++◌, none, some, Bool, true, false, length, get_elem?,
  set, if◌then◌else◌,
}
use gonc.Tunnel.Reverse.Running.{
  looking, reconnecting, cancelling, accepting, Keepalive, closing, ticking, Running, Move,
  acceptor_moves, keepalive_moves, reconnects, at_end, step, run, keepalive_step, acceptor_step,
  looks, reconnected, close_of, at_end_step,
}

get_elem?-last : (xs : List Bool) (b : Bool) → get_elem? (xs ++ b ∷ []) (length xs) ≡ some b
get_elem?-last [] b = refl
get_elem?-last (x ∷ xs) b = get_elem?-last xs b

module _ (keepalive auto_reconnect : Bool) where
  two_steps :
      (s u t : Running) (m n : Move)
      → step keepalive auto_reconnect s m ≡ some u
      → step keepalive auto_reconnect u n ≡ some t
      → run keepalive auto_reconnect (some s) (m ∷ n ∷ []) ≡ some t
  unfolding run
  two_steps s u t m n e f =
      ap (λ o. run keepalive auto_reconnect o (n ∷ [])) e
      ∙ ap (λ o. run keepalive auto_reconnect o []) f

  -- A failed keepalive that closes the listener while the accept loop is about to read it ends the
  -- tunnel without a try to reconnect, whether reconnecting is asked for or not: the accept loop goes
  -- on to cancel the context, which nobody has ended.
  pub keepalive_ends_tunnel :
      (s : Running) (i : ℕ)
      → s.acceptor ≡ looking
      → get_elem? s.keepalives i ≡ some closing
      → (t : Running) × (run keepalive auto_reconnect
            (some s)
            (keepalive_moves i ∷ acceptor_moves ∷ [])
          ≡ some t)
        × (t.acceptor ≡ cancelling)
        × (t.ctx_done ≡ s.ctx_done)
        × (t.clients ≡ s.clients)
  unfolding run step keepalive_step acceptor_step looks
  keepalive_ends_tunnel s i a k =
      let u : Running = record s {
        keepalives = set s.keepalives i Keepalive.leaving;
        closed = close_of s.listener s.closed;
        listener = none;
      } in
      let t : Running = record u { acceptor = cancelling } in
      let e : step keepalive auto_reconnect s (keepalive_moves i) ≡ some u = rw k refl in
      let f : step keepalive auto_reconnect u acceptor_moves ≡ some t = rw a refl in
      (t, two_steps s u t (keepalive_moves i) acceptor_moves e f, refl, refl, refl)

  -- A reconnection that succeeds when the context is done and its goroutine has run leaves the accept
  -- loop in `Accept` on a listener that is open, and that goroutine does not run again.
  pub late_listener :
      (s : Running)
      → s.acceptor ≡ reconnecting
      → s.ctx_done ≡ true
      → s.closed_at_end ≡ true
      → (t : Running) × (l : ℕ) × (run keepalive auto_reconnect
            (some s)
            (reconnects true ∷ acceptor_moves ∷ [])
          ≡ some t)
        × (t.acceptor ≡ accepting l)
        × (get_elem? t.closed l ≡ some false)
        × (step keepalive auto_reconnect t at_end ≡ none)
  unfolding run step reconnected acceptor_step looks at_end_step
  late_listener s a d c =
      let u : Running = record s {
        client = some s.clients;
        clients = suc s.clients;
        listener = some (length s.closed);
        closed = s.closed ++ false ∷ [];
        acceptor = looking;
        keepalives = if keepalive then s.keepalives ++ ticking ∷ [] else s.keepalives;
        wait_group = if keepalive then suc s.wait_group else s.wait_group;
      } in
      let t : Running = record u { acceptor = accepting (length s.closed) } in
      let e : step keepalive auto_reconnect s (reconnects true) ≡ some u = rw a refl in
      (
        t,
        length s.closed,
        two_steps s u t (reconnects true) acceptor_moves e refl,
        refl,
        get_elem?-last s.closed false,
        rw d (rw c refl),
      )

-- ===== src/Tunnel/Reverse/Running/Kept.antt =====
-- The wait group counts the goroutines that have not called `Done`: the other moves.
use gonc.Prelude.{
  ℕ, zero, suc, ◌≡◌, refl, ap, subst, [], ◌∷◌, ◌++◌, Option, none, some, Bool, true, false, arith,
  some-eq, if◌then◌else◌, length, get_elem?,
}
use gonc.Tunnel.Reverse.Running.{
  Acceptor, looking, tearing_down, reconnecting, cancelling, accepting, Keepalive, ticking, closing,
  asking, Running, Move, ctx_ends, at_end, accepts, accept_fails, acceptor_moves, handler_ends,
  closes_listener, reconnects, ticks, sees_end, keepalive_moves, answers, reconnected, after_tick,
  on_tick, on_end, on_answer, keepalive_step, handler_step, step,
}
use gonc.Tunnel.Reverse.Running.Counted.{
  accept_pending, pending_all-set, pending_all-append, Left-true, Inv, moved, at_end_step-Inv,
  after_accept-Inv, after_failure-Inv, acceptor_step-Inv,
}

module _ (keepalive auto_reconnect : Bool) where
  restarted :
      (b : Bool) (s : Running)
      → Inv s
      → s.acceptor ≡ reconnecting
      → Inv (record s {
        client = some s.clients;
        clients = suc s.clients;
        listener = some (length s.closed);
        closed = s.closed ++ false ∷ [];
        acceptor = looking;
        keepalives = if b then s.keepalives ++ ticking ∷ [] else s.keepalives;
        wait_group = if b then suc s.wait_group else s.wait_group;
      })
  restarted true s v e = record {
    counted =
        omega (arith, v.counted, ap accept_pending e, pending_all-append s.keepalives ticking);
    left = tt;
  }
  restarted false s v e = record {
    counted = omega (arith, v.counted, ap accept_pending e);
    left = tt;
  }

  reconnected-Inv :
      (ok : Bool) (a : Acceptor) (s : Running) {t : Running}
      → s.acceptor ≡ a
      → Inv s
      → reconnected keepalive auto_reconnect ok a s ≡ some t
      → Inv t
  unfolding reconnected
  reconnected-Inv false reconnecting s e v h =
      subst Inv (some-eq h)
        (record { counted = omega (arith, v.counted, ap accept_pending e); left = tt })
  reconnected-Inv true reconnecting s e v h = subst Inv (some-eq h) (restarted keepalive s v e)
  reconnected-Inv ok looking s e v h = absurd (ground arith)
  reconnected-Inv ok tearing_down s e v h = absurd (ground arith)
  reconnected-Inv ok cancelling s e v h = absurd (ground arith)
  reconnected-Inv ok Acceptor.leaving s e v h = absurd (ground arith)
  reconnected-Inv ok Acceptor.gone s e v h = absurd (ground arith)
  reconnected-Inv ok (accepting l) s e v h = absurd (ground arith)

  after_tick-Inv :
      (i : ℕ) (c : Option ℕ) (s : Running)
      → get_elem? s.keepalives i ≡ some ticking
      → Inv s
      → Inv (after_tick keepalive auto_reconnect i c s)
  unfolding after_tick
  after_tick-Inv i none s at v =
      moved s i ticking Keepalive.leaving at refl v refl refl refl refl refl
  after_tick-Inv i (some c) s at v = moved s i ticking (asking c) at refl v refl refl refl refl refl

  on_tick-Inv :
      (i : ℕ) (k : Option Keepalive) (s : Running) {t : Running}
      → get_elem? s.keepalives i ≡ k
      → Inv s
      → on_tick keepalive auto_reconnect i k s ≡ some t
      → Inv t
  unfolding on_tick
  on_tick-Inv i (some ticking) s at v h = subst Inv (some-eq h) (after_tick-Inv i s.client s at v)
  on_tick-Inv i (some closing) s at v h = absurd (cc)
  on_tick-Inv i (some Keepalive.leaving) s at v h = absurd (cc)
  on_tick-Inv i (some Keepalive.gone) s at v h = absurd (cc)
  on_tick-Inv i (some (asking c)) s at v h = absurd (cc)
  on_tick-Inv i none s at v h = absurd (cc)

  if_done : (d : Bool) {u t : Running} → (if d then some u else none) ≡ some t → u ≡ t
  if_done true h = some-eq h
  if_done false h = absurd (cc)

  on_end-Inv :
      (i : ℕ) (k : Option Keepalive) (s : Running) {t : Running}
      → get_elem? s.keepalives i ≡ k
      → Inv s
      → on_end keepalive auto_reconnect i k s ≡ some t
      → Inv t
  unfolding on_end
  on_end-Inv i (some ticking) s at v h =
      subst Inv (if_done s.ctx_done h)
        (moved s i ticking Keepalive.leaving at refl v refl refl refl refl refl)
  on_end-Inv i (some closing) s at v h = absurd (cc)
  on_end-Inv i (some Keepalive.leaving) s at v h = absurd (cc)
  on_end-Inv i (some Keepalive.gone) s at v h = absurd (cc)
  on_end-Inv i (some (asking c)) s at v h = absurd (cc)
  on_end-Inv i none s at v h = absurd (cc)

  on_answer-Inv :
      (i : ℕ) (ok : Bool) (k : Option Keepalive) (s : Running) {t : Running}
      → get_elem? s.keepalives i ≡ k
      → Inv s
      → on_answer keepalive auto_reconnect i ok k s ≡ some t
      → Inv t
  unfolding on_answer
  on_answer-Inv i true (some (asking c)) s at v h =
      subst Inv (some-eq h) (moved s i (asking c) ticking at refl v refl refl refl refl refl)
  on_answer-Inv i false (some (asking c)) s at v h =
      subst Inv (some-eq h) (moved s i (asking c) closing at refl v refl refl refl refl refl)
  on_answer-Inv i ok (some ticking) s at v h = absurd (cc)
  on_answer-Inv i ok (some closing) s at v h = absurd (cc)
  on_answer-Inv i ok (some Keepalive.leaving) s at v h = absurd (cc)
  on_answer-Inv i ok (some Keepalive.gone) s at v h = absurd (cc)
  on_answer-Inv i ok none s at v h = absurd (cc)

  keepalive_step-Inv :
      (i : ℕ) (k : Option Keepalive) (s : Running) {t : Running}
      → get_elem? s.keepalives i ≡ k
      → Inv s
      → keepalive_step keepalive auto_reconnect i k s ≡ some t
      → Inv t
  unfolding keepalive_step
  keepalive_step-Inv i (some closing) s at v h =
      subst Inv (some-eq h) (moved s i closing Keepalive.leaving at refl v refl refl refl refl refl)
  keepalive_step-Inv i (some Keepalive.leaving) s at v h = subst Inv (some-eq h) (record {
    counted =
        omega
          (arith, v.counted, pending_all-set s.keepalives i Keepalive.leaving Keepalive.gone at);
    left = v.left;
  })
  keepalive_step-Inv i (some ticking) s at v h = absurd (cc)
  keepalive_step-Inv i (some Keepalive.gone) s at v h = absurd (cc)
  keepalive_step-Inv i (some (asking c)) s at v h = absurd (cc)
  keepalive_step-Inv i none s at v h = absurd (cc)

  handler_step-Inv :
      (n : ℕ) (s : Running) {t : Running}
      → s.handlers ≡ n
      → Inv s
      → handler_step keepalive auto_reconnect n s ≡ some t
      → Inv t
  unfolding handler_step
  handler_step-Inv zero s e v h = absurd (cc)
  handler_step-Inv (suc n) s e v h =
      subst Inv (some-eq h) (record { counted = omega (arith, v.counted, e); left = v.left })

  pub step-Inv :
      (s : Running) (m : Move) {t : Running}
      → Inv s
      → step keepalive auto_reconnect s m ≡ some t
      → Inv t
  unfolding step
  step-Inv s ctx_ends v h =
      subst Inv (some-eq h) (record { counted = v.counted; left = Left-true s.acceptor })
  step-Inv s at_end v h = at_end_step-Inv keepalive auto_reconnect s.ctx_done s.closed_at_end s v h
  step-Inv s accepts v h = after_accept-Inv keepalive auto_reconnect s.acceptor s refl v h
  step-Inv s accept_fails v h = after_failure-Inv keepalive auto_reconnect s.acceptor s refl v h
  step-Inv s acceptor_moves v h = acceptor_step-Inv keepalive auto_reconnect s.acceptor s refl v h
  step-Inv s (reconnects ok) v h = reconnected-Inv ok s.acceptor s refl v h
  step-Inv s (ticks i) v h = on_tick-Inv i (get_elem? s.keepalives i) s refl v h
  step-Inv s (sees_end i) v h = on_end-Inv i (get_elem? s.keepalives i) s refl v h
  step-Inv s (answers i ok) v h = on_answer-Inv i ok (get_elem? s.keepalives i) s refl v h
  step-Inv s (keepalive_moves i) v h = keepalive_step-Inv i (get_elem? s.keepalives i) s refl v h
  step-Inv s handler_ends v h = handler_step-Inv s.handlers s refl v h
  step-Inv s closes_listener v h =
      subst Inv (if_done s.ctx_done h) (record { counted = v.counted; left = v.left })

-- ===== src/Tunnel/Reverse/Running/OneOpen.antt =====
-- Which listeners of a reverse tunnel are open.
use gonc.Prelude.{
  ℕ, zero, suc, ◌≡◌, refl, subst, List, [], ◌∷◌, Option, none, some, Bool, true, false, some-eq,
  if◌then◌else◌, get_elem?, arith,
}
use gonc.Tunnel.Reverse.Running.{
  Acceptor, looking, tearing_down, reconnecting, cancelling, accepting, Keepalive, ticking, closing,
  asking, Running, started, Move, ctx_ends, at_end, accepts, accept_fails, acceptor_moves,
  handler_ends, closes_listener, reconnects, ticks, sees_end, keepalive_moves, answers, at_end_step,
  after_accept, after_failure, looks, acceptor_step, reconnected, after_tick, on_tick, on_end,
  on_answer, keepalive_step, handler_step, step, run,
}
use gonc.Tunnel.Reverse.Running.Open.{
  Idle, OpenOnly, Inv, close_of-OpenOnly, renewed-OpenOnly, Idle-none,
}
use gonc.Tunnel.Reverse.Running.Runs.{run-keeps}

if_done : (d : Bool) {u t : Running} → (if d then some u else none) ≡ some t → u ≡ t
if_done true h = some-eq h
if_done false h = absurd (cc)

at_end_step-Inv :
    (d c : Bool) (s : Running) {t : Running} → Inv s → at_end_step d c s ≡ some t → Inv t
unfolding at_end_step
at_end_step-Inv true false s v h = subst Inv (some-eq h) (record {
  open_only = close_of-OpenOnly s.listener s.closed s.listener v.open_only;
  idle = v.idle;
})
at_end_step-Inv true true s v h = absurd (cc)
at_end_step-Inv false c s v h = absurd (cc)

module _ (keepalive auto_reconnect : Bool) where
  after_accept-Inv :
      (a : Acceptor) (s : Running) {t : Running}
      → Inv s
      → after_accept keepalive auto_reconnect a s ≡ some t
      → Inv t
  unfolding after_accept
  after_accept-Inv (accepting l) s v h =
      subst Inv (some-eq h) (record { open_only = v.open_only; idle = tt })
  after_accept-Inv looking s v h = absurd (cc)
  after_accept-Inv tearing_down s v h = absurd (cc)
  after_accept-Inv reconnecting s v h = absurd (cc)
  after_accept-Inv cancelling s v h = absurd (cc)
  after_accept-Inv Acceptor.leaving s v h = absurd (cc)
  after_accept-Inv Acceptor.gone s v h = absurd (cc)

  failed-Idle :
      (d r : Bool) (l : Option ℕ)
      → Idle (if d then cancelling else if r then tearing_down else cancelling) l
  failed-Idle true r l = tt
  failed-Idle false true l = tt
  failed-Idle false false l = tt

  after_failure-Inv :
      (a : Acceptor) (s : Running) {t : Running}
      → Inv s
      → after_failure keepalive auto_reconnect a s ≡ some t
      → Inv t
  unfolding after_failure
  after_failure-Inv (accepting l) s v h =
      subst Inv (some-eq h) (record {
        open_only = v.open_only;
        idle = failed-Idle s.ctx_done auto_reconnect s.listener;
      })
  after_failure-Inv looking s v h = absurd (cc)
  after_failure-Inv tearing_down s v h = absurd (cc)
  after_failure-Inv reconnecting s v h = absurd (cc)
  after_failure-Inv cancelling s v h = absurd (cc)
  after_failure-Inv Acceptor.leaving s v h = absurd (cc)
  after_failure-Inv Acceptor.gone s v h = absurd (cc)

  looks-Inv : (l : Option ℕ) (s : Running) → Inv s → Inv (looks keepalive auto_reconnect l s)
  unfolding looks
  looks-Inv none s v = record { open_only = v.open_only; idle = tt }
  looks-Inv (some l) s v = record { open_only = v.open_only; idle = tt }

  acceptor_step-Inv :
      (a : Acceptor) (s : Running) {t : Running}
      → Inv s
      → acceptor_step keepalive auto_reconnect a s ≡ some t
      → Inv t
  unfolding acceptor_step
  acceptor_step-Inv looking s v h = subst Inv (some-eq h) (looks-Inv s.listener s v)
  acceptor_step-Inv tearing_down s v h =
      subst Inv (some-eq h)
        (record { open_only = close_of-OpenOnly s.listener s.closed none v.open_only; idle = refl })
  acceptor_step-Inv cancelling s v h =
      subst Inv (some-eq h) (record { open_only = v.open_only; idle = tt })
  acceptor_step-Inv Acceptor.leaving s v h =
      subst Inv (some-eq h) (record { open_only = v.open_only; idle = tt })
  acceptor_step-Inv reconnecting s v h = absurd (cc)
  acceptor_step-Inv Acceptor.gone s v h = absurd (cc)
  acceptor_step-Inv (accepting l) s v h = absurd (cc)

  reconnected-Inv :
      (ok : Bool) (a : Acceptor) (s : Running) {t : Running}
      → s.acceptor ≡ a
      → Inv s
      → reconnected keepalive auto_reconnect ok a s ≡ some t
      → Inv t
  unfolding reconnected
  reconnected-Inv false reconnecting s e v h =
      subst Inv (some-eq h) (record { open_only = v.open_only; idle = tt })
  reconnected-Inv true reconnecting s e v h = subst Inv (some-eq h) (record {
    open_only =
        renewed-OpenOnly s.closed
          (subst (OpenOnly s.closed) (subst (λ a. Idle a s.listener) e v.idle) v.open_only);
    idle = tt;
  })
  reconnected-Inv ok looking s e v h = absurd (ground arith)
  reconnected-Inv ok tearing_down s e v h = absurd (ground arith)
  reconnected-Inv ok cancelling s e v h = absurd (ground arith)
  reconnected-Inv ok Acceptor.leaving s e v h = absurd (ground arith)
  reconnected-Inv ok Acceptor.gone s e v h = absurd (ground arith)
  reconnected-Inv ok (accepting l) s e v h = absurd (ground arith)

  after_tick-Inv :
      (i : ℕ) (c : Option ℕ) (s : Running) → Inv s → Inv (after_tick keepalive auto_reconnect i c s)
  unfolding after_tick
  after_tick-Inv i none s v = record { open_only = v.open_only; idle = v.idle }
  after_tick-Inv i (some c) s v = record { open_only = v.open_only; idle = v.idle }

  on_tick-Inv :
      (i : ℕ) (k : Option Keepalive) (s : Running) {t : Running}
      → Inv s
      → on_tick keepalive auto_reconnect i k s ≡ some t
      → Inv t
  unfolding on_tick
  on_tick-Inv i (some ticking) s v h = subst Inv (some-eq h) (after_tick-Inv i s.client s v)
  on_tick-Inv i (some closing) s v h = absurd (cc)
  on_tick-Inv i (some Keepalive.leaving) s v h = absurd (cc)
  on_tick-Inv i (some Keepalive.gone) s v h = absurd (cc)
  on_tick-Inv i (some (asking c)) s v h = absurd (cc)
  on_tick-Inv i none s v h = absurd (cc)

  on_end-Inv :
      (i : ℕ) (k : Option Keepalive) (s : Running) {t : Running}
      → Inv s
      → on_end keepalive auto_reconnect i k s ≡ some t
      → Inv t
  unfolding on_end
  on_end-Inv i (some ticking) s v h =
      subst Inv (if_done s.ctx_done h) (record { open_only = v.open_only; idle = v.idle })
  on_end-Inv i (some closing) s v h = absurd (cc)
  on_end-Inv i (some Keepalive.leaving) s v h = absurd (cc)
  on_end-Inv i (some Keepalive.gone) s v h = absurd (cc)
  on_end-Inv i (some (asking c)) s v h = absurd (cc)
  on_end-Inv i none s v h = absurd (cc)

  on_answer-Inv :
      (i : ℕ) (ok : Bool) (k : Option Keepalive) (s : Running) {t : Running}
      → Inv s
      → on_answer keepalive auto_reconnect i ok k s ≡ some t
      → Inv t
  unfolding on_answer
  on_answer-Inv i ok (some (asking c)) s v h =
      subst Inv (some-eq h) (record { open_only = v.open_only; idle = v.idle })
  on_answer-Inv i ok (some ticking) s v h = absurd (cc)
  on_answer-Inv i ok (some closing) s v h = absurd (cc)
  on_answer-Inv i ok (some Keepalive.leaving) s v h = absurd (cc)
  on_answer-Inv i ok (some Keepalive.gone) s v h = absurd (cc)
  on_answer-Inv i ok none s v h = absurd (cc)

  keepalive_step-Inv :
      (i : ℕ) (k : Option Keepalive) (s : Running) {t : Running}
      → Inv s
      → keepalive_step keepalive auto_reconnect i k s ≡ some t
      → Inv t
  unfolding keepalive_step
  keepalive_step-Inv i (some closing) s v h = subst Inv (some-eq h) (record {
    open_only = close_of-OpenOnly s.listener s.closed none v.open_only;
    idle = Idle-none s.acceptor;
  })
  keepalive_step-Inv i (some Keepalive.leaving) s v h =
      subst Inv (some-eq h) (record { open_only = v.open_only; idle = v.idle })
  keepalive_step-Inv i (some ticking) s v h = absurd (cc)
  keepalive_step-Inv i (some Keepalive.gone) s v h = absurd (cc)
  keepalive_step-Inv i (some (asking c)) s v h = absurd (cc)
  keepalive_step-Inv i none s v h = absurd (cc)

  handler_step-Inv :
      (n : ℕ) (s : Running) {t : Running}
      → Inv s
      → handler_step keepalive auto_reconnect n s ≡ some t
      → Inv t
  unfolding handler_step
  handler_step-Inv zero s v h = absurd (cc)
  handler_step-Inv (suc n) s v h =
      subst Inv (some-eq h) (record { open_only = v.open_only; idle = v.idle })

  pub step-Inv :
      (s : Running) (m : Move) {t : Running}
      → Inv s
      → step keepalive auto_reconnect s m ≡ some t
      → Inv t
  unfolding step
  step-Inv s ctx_ends v h =
      subst Inv (some-eq h) (record { open_only = v.open_only; idle = v.idle })
  step-Inv s at_end v h = at_end_step-Inv s.ctx_done s.closed_at_end s v h
  step-Inv s accepts v h = after_accept-Inv s.acceptor s v h
  step-Inv s accept_fails v h = after_failure-Inv s.acceptor s v h
  step-Inv s acceptor_moves v h = acceptor_step-Inv s.acceptor s v h
  step-Inv s (reconnects ok) v h = reconnected-Inv ok s.acceptor s refl v h
  step-Inv s (ticks i) v h = on_tick-Inv i (get_elem? s.keepalives i) s v h
  step-Inv s (sees_end i) v h = on_end-Inv i (get_elem? s.keepalives i) s v h
  step-Inv s (answers i ok) v h = on_answer-Inv i ok (get_elem? s.keepalives i) s v h
  step-Inv s (keepalive_moves i) v h = keepalive_step-Inv i (get_elem? s.keepalives i) s v h
  step-Inv s handler_ends v h = handler_step-Inv s.handlers s v h
  step-Inv s closes_listener v h = subst Inv (if_done s.ctx_done h) (record {
    open_only = close_of-OpenOnly s.listener s.closed none v.open_only;
    idle = Idle-none s.acceptor;
  })

pub started-Inv : (b : Bool) → Inv (started b)
started-Inv b = record { open_only = first; idle = tt }
  where
    first : (l : ℕ) → get_elem? (false ∷ []) l ≡ some false → some 0 ≡ some l
    first zero h = refl
    first (suc l) h = absurd (cc)

-- Whatever the schedule, a listener that is open is the one that the tunnel has: no more than one is
-- open at any moment, and reconnecting leaves none behind.
pub run_one_open :
    (keepalive auto_reconnect : Bool) (ms : List Move) (l : ℕ) {s : Running}
    → run keepalive auto_reconnect (some (started keepalive)) ms ≡ some s
    → get_elem? s.closed l ≡ some false
    → s.listener ≡ some l
run_one_open keepalive auto_reconnect ms l h o =
    let v =
      run-keeps keepalive auto_reconnect Inv
        (λ s m t v e. step-Inv keepalive auto_reconnect s m v e) (started keepalive) ms
        (started-Inv keepalive) h in
    v.open_only l o

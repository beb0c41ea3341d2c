-- ===== src/Tunnel/Reverse/Running/Waited.antt =====
-- What has happened when `Wait` returns.
use gonc.Prelude.{◌≡◌, refl, subst, List, [], ◌∷◌, some, Bool, true, false, arith, All}
use gonc.Tunnel.Reverse.Running.{
  Acceptor, looking, tearing_down, reconnecting, cancelling, accepting, Keepalive, ticking, closing,
  asking, Running, started, Move, run,
}
use gonc.Tunnel.Reverse.Running.Counted.{accept_pending, pending, pending_all, Left, Inv}
use gonc.Tunnel.Reverse.Running.Kept.{step-Inv}
use gonc.Tunnel.Reverse.Running.Runs.{run-keeps}

pub started-Inv : (b : Bool) → Inv (started b)
started-Inv true = record { counted = refl; left = tt }
started-Inv false = record { counted = refl; left = tt }

accept_done : (a : Acceptor) → accept_pending a ≡ 0 → a ≡ Acceptor.gone
accept_done Acceptor.gone h = refl
accept_done looking h = absurd (omega arith)
accept_done tearing_down h = absurd (omega arith)
accept_done reconnecting h = absurd (omega arith)
accept_done cancelling h = absurd (omega arith)
accept_done Acceptor.leaving h = absurd (omega arith)
accept_done (accepting l) h = absurd (omega arith)

keepalive_done : (k : Keepalive) → pending k ≡ 0 → k ≡ Keepalive.gone
keepalive_done Keepalive.gone h = refl
keepalive_done ticking h = absurd (omega arith)
keepalive_done closing h = absurd (omega arith)
keepalive_done Keepalive.leaving h = absurd (omega arith)
keepalive_done (asking c) h = absurd (omega arith)

All-done : (ks : List Keepalive) → pending_all ks ≡ 0 → All (λ k. k ≡ Keepalive.gone) ks
All-done [] h = tt
All-done (k ∷ ks) h = (keepalive_done k (omega arith), All-done ks (omega arith))

-- Whatever the schedule: when the wait group of a reverse tunnel is at zero, so that `Wait` returns,
-- the accept loop, every keepalive loop and every handler have ended, those of reconnections too, and
-- the context is done.
pub run_waited :
    (keepalive auto_reconnect : Bool) (ms : List Move) {s : Running}
    → run keepalive auto_reconnect (some (started keepalive)) ms ≡ some s
    → s.wait_group ≡ 0
    → (s.acceptor ≡ Acceptor.gone)
      × All (λ k. k ≡ Keepalive.gone) s.keepalives
      × (s.handlers ≡ 0)
      × (s.ctx_done ≡ true)
run_waited keepalive auto_reconnect ms {s} h z =
    let v =
      run-keeps keepalive auto_reconnect Inv
        (λ s m t v e. step-Inv keepalive auto_reconnect s m v e) (started keepalive) ms
        (started-Inv keepalive) h in
    let a = accept_done s.acceptor (omega (arith, v.counted, z)) in
    (
      a,
      All-done s.keepalives (omega (arith, v.counted, z)),
      omega (arith, v.counted, z),
      subst (λ x. Left x s.ctx_done) a v.left,
    )

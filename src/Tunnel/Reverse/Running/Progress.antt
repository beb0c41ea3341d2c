-- ===== src/Tunnel/Reverse/Running/Progress.antt =====
-- A reverse tunnel comes to its end by its own doing once its context is done, unless the goroutine
-- for the end of the context has run before the listener was stored that is open now.
use gonc.Prelude.{
  ℕ, zero, suc, ◌≤◌, ◌≡◌, refl, ◌∙◌, List, [], ◌∷◌, Option, none, some, Bool, true, if◌then◌else◌,
  arith, ℕ_discrete,
}
use gonc.Tunnel.Reverse.Running.{Running, started, Move, ctx_ends, step, run}
use gonc.Tunnel.Reverse.Running.Counted.{Inv}
use gonc.Tunnel.Reverse.Running.Kept.{step-Inv}
use gonc.Tunnel.Reverse.Running.Waited.{started-Inv}
use gonc.Tunnel.Reverse.Running.Open.{OpenOnly, close_of-OpenOnly}
use gonc.Tunnel.Reverse.Running.Open
use gonc.Tunnel.Reverse.Running.OneOpen
use gonc.Tunnel.Reverse.Running.Runs.{run-keeps}
use gonc.Tunnel.Reverse.Running.Own.{waited_for, left_over, is_own, Closable, accept-idle, all-idle}
use gonc.Tunnel.Reverse.Running.Moves.{next}

module _ (keepalive auto_reconnect : Bool) where
  -- a schedule of such moves
  abbrev pub own_run : Option Running → List Move → Option Running
  own_run o [] = o
  own_run none (m ∷ ms) = none
  own_run (some s) (m ∷ ms) =
      own_run (if is_own s m then step keepalive auto_reconnect s m else none) ms

  Finishes : Running → Type 0
  Finishes s =
      (ms : List Move) × (t : Running) × (own_run (some s) ms ≡ some t) × (t.wait_group ≡ 0)

  goes_on :
      (s : Running) (m : Move) (t : Running)
      → step keepalive auto_reconnect s m ≡ some t
      → is_own s m ≡ true
      → Finishes t
      → Finishes s
  unfolding Finishes
  goes_on s m t e o (ms, u, f, z) =
      let k : own_run (some s) (m ∷ ms) ≡ own_run (some t) ms = rw o (rw e refl) in
      (m ∷ ms, u, k ∙ f, z)

  all_ended : (s : Running) → waited_for s ≡ 0 → Inv s → Finishes s
  unfolding Finishes
  all_ended s z v = (
    [],
    s,
    refl,
    omega (
      arith,
      v.counted,
      accept-idle s.acceptor (omega arith),
      all-idle s.keepalives (omega arith),
    ),
  )

  finishes :
      (n : ℕ) (s : Running)
      → left_over s ≤ n
      → Inv s
      → Open.Inv s
      → s.ctx_done ≡ true
      → Closable s
      → Finishes s
  finishes zero s l v o d q = all_ended s (omega arith) v
  finishes (suc n) s l v o d q = elim (ℕ_discrete (waited_for s) 0) [
    | yes z ↦ all_ended s z v
    | no k ↦
        let (m, t, e, own, less, done, r) = next keepalive auto_reconnect s d o q k in
        goes_on s m t e own (
          finishes n t (omega (arith, less)) (step-Inv keepalive auto_reconnect s m v e)
            (OneOpen.step-Inv keepalive auto_reconnect s m o e) done r)
  ]

-- When the context ends, `Wait` of a reverse tunnel can return by the tunnel's own doing, if by then
-- the goroutine for the end of the context has not run, or no listener is open: from whatever state
-- of this kind a schedule has led to, some schedule brings the wait group to zero in which `Accept`
-- fails only on a listener that is not open, no connection comes in, no attempt to reconnect
-- succeeds, and nobody calls `Close`. The keepalive requests and the handlers under way do end.
pub run_wait_returns :
    (keepalive auto_reconnect : Bool) (ms : List Move) {s : Running}
    → run keepalive auto_reconnect (some (started keepalive)) ms ≡ some s
    → Closable s
    → (more : List Move) × (t : Running) × (own_run keepalive auto_reconnect
          (step keepalive auto_reconnect s ctx_ends)
          more
        ≡ some t)
      × (t.wait_group ≡ 0)
unfolding step Finishes
run_wait_returns keepalive auto_reconnect ms {s} h q =
    let v =
      run-keeps keepalive auto_reconnect Inv
        (λ s m t v e. step-Inv keepalive auto_reconnect s m v e) (started keepalive) ms
        (started-Inv keepalive) h in
    let o =
      run-keeps keepalive auto_reconnect Open.Inv
        (λ s m t v e. OneOpen.step-Inv keepalive auto_reconnect s m v e) (started keepalive) ms
        (OneOpen.started-Inv keepalive) h in
    let u : Running = record s { ctx_done = true } in
    finishes keepalive auto_reconnect (left_over u) u (omega arith)
      (step-Inv keepalive auto_reconnect s ctx_ends v refl)
      (OneOpen.step-Inv keepalive auto_reconnect s ctx_ends o refl) refl q

-- ===== src/Tunnel/Reverse/Running/Runs.antt =====
-- What every step keeps holds after a run.
use gonc.Prelude.{
  ◌≡◌, ◌≢◌, inl, inr, sym, ap, subst, ◌∙◌, List, [], ◌∷◌, none, some, Bool, some-eq, Option-cases,
}
use gonc.Tunnel.Reverse.Running.{Running, Move, step, run}

module _ (keepalive auto_reconnect : Bool) where
  run-none : (ms : List Move) {t : Running} → run keepalive auto_reconnect none ms ≢ some t
  unfolding run
  run-none [] h = absurd (cc)
  run-none (m ∷ ms) h = absurd (cc)

  pub run-keeps :
      (P : Running → Type 0)
      → ((s : Running) (m : Move) (t : Running)
          → P s
          → step keepalive auto_reconnect s m ≡ some t
          → P t)
      → (s : Running) (ms : List Move) {t : Running} → P s
      → run keepalive auto_reconnect (some s) ms ≡ some t
      → P t
  unfolding run
  run-keeps P keeps s [] v h = subst P (some-eq h) v
  run-keeps P keeps s (m ∷ ms) v h = elim (Option-cases (step keepalive auto_reconnect s m)) [
    | inl e ↦ absurd (run-none ms (sym (ap (λ o. run keepalive auto_reconnect o ms) e) ∙ h))
    | inr (u, e) ↦
        run-keeps P keeps u ms (keeps s m u v e)
          (sym (ap (λ o. run keepalive auto_reconnect o ms) e) ∙ h)
  ]

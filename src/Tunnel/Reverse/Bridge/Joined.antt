-- ===== src/Tunnel/Reverse/Bridge/Joined.antt =====
-- What `bridgeConns` has done when it returns.
use gonc.Prelude.{
  ◌≡◌, ◌≢◌, inl, inr, refl, sym, ap, subst, ◌∙◌, List, [], ◌∷◌, none, some, true, arith, some-eq,
  Option-cases,
}
use gonc.Prelude.Int.{ℤ}
use gonc.Tunnel.Reverse.Bridge.{
  Phase, copying, storing, cancelling, leaving, gone, returned, Bridging, started, Move, step, run,
}
use gonc.Tunnel.Reverse.Bridge.Kept.{unfinished, Stored, Closed, Returned, Inv, step-Inv}

pub started-Inv : Inv started
started-Inv = record {
  counted = refl;
  forth_stored = tt;
  cancelled = tt;
  back_stored = tt;
  closed = tt;
  at_return = tt;
}

run-none : (ms : List Move) {t : Bridging} → run none ms ≢ some t
unfolding run
run-none [] h = absurd (cc)
run-none (m ∷ ms) h = absurd (cc)

pub run-Inv :
    (s : Bridging) (ms : List Move) {t : Bridging} → Inv s → run (some s) ms ≡ some t → Inv t
unfolding run
run-Inv s [] v h = subst Inv (some-eq h) v
run-Inv s (m ∷ ms) v h = elim (Option-cases (step s m)) [
  | inl e ↦ absurd (run-none ms (sym (ap (λ o. run o ms) e) ∙ h))
  | inr (u, e) ↦ run-Inv u ms (step-Inv s m v e) (sym (ap (λ o. run o ms) e) ∙ h)
]

at_end : (ph : Phase) (x : ℤ) → unfinished ph ≡ 0 → Stored ph x → ph ≡ gone x
at_end (gone n) x z e = ap gone (sym e)
at_end copying x z e = absurd (omega arith)
at_end (storing n) x z e = absurd (omega arith)
at_end (cancelling n) x z e = absurd (omega arith)
at_end (leaving n) x z e = absurd (omega arith)

-- Whatever the schedule: when `bridgeConns` returns, both goroutines have ended, both connections are
-- closed, and it returns the counts of the two copies.
pub run_bridged :
    (ms : List Move) {s : Bridging} {x y : ℤ}
    → run (some started) ms ≡ some s
    → s.caller ≡ returned x y
    → (s.forth ≡ gone x) × (s.back ≡ gone y) × (s.a_closed ≡ true) × (s.b_closed ≡ true)
run_bridged ms {s} {x} {y} h r =
    let v = run-Inv started ms started-Inv h in
    let (z, ex, ey) = subst (λ c. Returned c s.wait_group s.a_to_b s.b_to_a) r v.at_return in
    let (a, b) = subst (λ c. Closed c s.a_closed s.b_closed) r v.closed in
    (
      at_end s.forth s.a_to_b (omega (arith, v.counted, z)) v.forth_stored ∙ ap gone (sym ex),
      at_end s.back s.b_to_a (omega (arith, v.counted, z)) v.back_stored ∙ ap gone (sym ey),
      a,
      b,
    )

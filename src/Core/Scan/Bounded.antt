-- ===== src/Core/Scan/Bounded.antt =====
-- The goroutines that hold a place in `sem`, and how many moves are left.
use gonc.Prelude.{
  ℕ, zero, suc, ◌+◌, ◌*◌, ◌≤◌, ◌≡◌, refl, List, [], ◌∷◌, ◌++◌, Option, none, some, arith,
  Bool-cases, Option-cases, some-eq, ap, sym, subst, ◌∙◌, ◌≢◌, inl, inr, length, get_elem?, set,
  ltb,
}
use gonc.Prelude.Int.{ℤ}
use gonc.Text.{Str}
use gonc.Errors.{Error}
use gonc.Core.Scan.{
  Phase, acquiring, dialing, releasing, leaving, gone, Worker, Scanning, Move, loop, worker,
  max_concurrent_scans, start, advance, advance_worker, spawn, step, run,
}

-- The sum of a measure over the goroutines.
abbrev pub total : (Phase → ℕ) → List Worker → ℕ
total f [] = 0
total f (w ∷ ws) = f w.phase + total f ws

pub total-append :
    (f : Phase → ℕ) (ws : List Worker) (w : Worker)
    → total f (ws ++ w ∷ []) ≡ total f ws + f w.phase
total-append f [] w = omega arith
total-append f (v ∷ ws) w = omega (arith, total-append f ws w)

pub total-set :
    (f : Phase → ℕ) (ws : List Worker) (i : ℕ) (v : Worker) {w : Worker}
    → get_elem? ws i ≡ some w
    → total f (set ws i v) + f w.phase ≡ total f ws + f v.phase
total-set f [] i v h = absurd (cc)
total-set f (x ∷ ws) zero v h = ground arith
total-set f (x ∷ ws) (suc i) v h = omega (arith, total-set f ws i v h)

-- 1 for a goroutine that holds a place in `sem`, which it does while it dials
abbrev pub holds : Phase → ℕ
holds acquiring = 0
holds dialing = 1
holds releasing = 1
holds leaving = 0
holds gone = 0

-- 1 for a goroutine that `wg.Done()` has not been called by
abbrev pub unfinished : Phase → ℕ
unfinished acquiring = 1
unfinished dialing = 1
unfinished releasing = 1
unfinished leaving = 1
unfinished gone = 0

-- the moves that a goroutine has left
abbrev pub moves_left : Phase → ℕ
moves_left acquiring = 4
moves_left dialing = 3
moves_left releasing = 2
moves_left leaving = 1
moves_left gone = 0

-- The channel and the wait group count what they are there to count.
pub record Counted (s : Scanning) : Type 0 where
  pub held : s.in_channel ≡ total holds s.workers
  pub waiting : s.wait_group ≡ total unfinished s.workers
  pub bounded : s.in_channel ≤ max_concurrent_scans

abbrev pub left_over : Scanning → ℕ
left_over s = 5 * length s.to_spawn + total moves_left s.workers

pub start-Counted : (ports : List ℤ) → Counted (start ports)
unfolding start
start-Counted ports = record { held = refl; waiting = refl; bounded = omega arith }

-- A move of the goroutine `i` into the phase `q`, seen by the three measures.
moved :
    (ws : List Worker) (i : ℕ) (p : ℤ) (ph q : Phase)
    → get_elem? ws i ≡ some (record { port = p; phase = ph })
    → ((f : Phase → ℕ)
        → total f (set ws i (record { port = p; phase = q })) + f ph ≡ total f ws + f q)
moved ws i p ph q h f = total-set f ws i (record { port = p; phase = q }) h

module _ (dial : ℕ → Str → Option Error) (host : Str) where
  pub run-none : (ms : List Move) {t : Scanning} → run dial host none ms ≢ some t
  unfolding run
  run-none [] h = absurd (cc)
  run-none (m ∷ ms) h = absurd (cc)

  advance-Counted :
      (s : Scanning) (i : ℕ) (p : ℤ) (ph : Phase) {t : Scanning}
      → Counted s
      → get_elem? s.workers i ≡ some (record { port = p; phase = ph })
      → advance dial host s i p ph ≡ some t
      → Counted t × (left_over s ≡ suc (left_over t))
  unfolding advance
  advance-Counted s i p acquiring {t} c at h =
      let m = moved s.workers i p acquiring dialing at in
      let a = m holds in
      let b = m unfinished in
      let d = m moves_left in
      elim (Bool-cases (ltb s.in_channel max_concurrent_scans)) [
        | inl e ↦
            let u : Scanning = record s {
              workers = set s.workers i (record { port = p; phase = dialing });
              in_channel = suc s.in_channel;
            } in
            let same : u ≡ t = ground arith in
            subst (λ t. Counted t × (left_over s ≡ suc (left_over t))) same
              (
                record {
                  held = omega (arith, c.held);
                  waiting = omega (arith, c.waiting);
                  bounded = ground arith;
                },
                omega arith,
              )
        | inr e ↦ absurd (ground arith)
      ]
  advance-Counted s i p dialing c at h =
      let m = moved s.workers i p dialing releasing at in
      let a = m holds in
      let b = m unfinished in
      let d = m moves_left in
      subst (λ t. Counted t × (left_over s ≡ suc (left_over t))) (some-eq h)
        (
          record {
            held = omega (arith, c.held);
            waiting = omega (arith, c.waiting);
            bounded = c.bounded;
          },
          omega arith,
        )
  advance-Counted s i p releasing c at h =
      let m = moved s.workers i p releasing leaving at in
      let a = m holds in
      let b = m unfinished in
      let d = m moves_left in
      subst (λ t. Counted t × (left_over s ≡ suc (left_over t))) (some-eq h)
        (
          record {
            held = omega (arith, c.held);
            waiting = omega (arith, c.waiting);
            bounded = omega (arith, c.bounded);
          },
          omega arith,
        )
  advance-Counted s i p leaving c at h =
      let m = moved s.workers i p leaving gone at in
      let a = m holds in
      let b = m unfinished in
      let d = m moves_left in
      subst (λ t. Counted t × (left_over s ≡ suc (left_over t))) (some-eq h)
        (
          record {
            held = omega (arith, c.held);
            waiting = omega (arith, c.waiting);
            bounded = c.bounded;
          },
          omega arith,
        )
  advance-Counted s i p gone c at h = absurd (cc)

  spawn-Counted :
      (s : Scanning) (ports : List ℤ) {t : Scanning}
      → Counted s
      → s.to_spawn ≡ ports
      → spawn s ports ≡ some t
      → Counted t × (left_over s ≡ suc (left_over t))
  unfolding spawn
  spawn-Counted s [] c e h = absurd (cc)
  spawn-Counted s (p ∷ ps) c e h =
      let w : Worker = record { port = p; phase = acquiring } in
      let m = λ (f : Phase → ℕ). total-append f s.workers w in
      let a = m holds in
      let b = m unfinished in
      let d = m moves_left in
      let l : length s.to_spawn ≡ suc (length ps) = ap length e in
      subst (λ t. Counted t × (left_over s ≡ suc (left_over t))) (some-eq h)
        (
          record {
            held = omega (arith, c.held);
            waiting = omega (arith, c.waiting);
            bounded = c.bounded;
          },
          omega arith,
        )

  advance_worker-Counted :
      (s : Scanning) (i : ℕ) (o : Option Worker) {t : Scanning}
      → Counted s
      → get_elem? s.workers i ≡ o
      → advance_worker dial host s i o ≡ some t
      → Counted t × (left_over s ≡ suc (left_over t))
  unfolding advance_worker
  advance_worker-Counted s i none c e h = absurd (cc)
  advance_worker-Counted s i (some w) c e h = advance-Counted s i w.port w.phase c e h

  pub step-Counted :
      (s : Scanning) (m : Move) {t : Scanning}
      → Counted s
      → step dial host s m ≡ some t
      → Counted t × (left_over s ≡ suc (left_over t))
  unfolding step
  step-Counted s loop c h = spawn-Counted s s.to_spawn c refl h
  step-Counted s (worker i) c h = advance_worker-Counted s i (get_elem? s.workers i) c refl h

  pub run-Counted :
      (s : Scanning) (ms : List Move) {t : Scanning}
      → Counted s
      → run dial host (some s) ms ≡ some t
      → Counted t × (left_over s ≡ length ms + left_over t)
  unfolding run
  run-Counted s [] c h =
      subst (λ t. Counted t × (left_over s ≡ 0 + left_over t)) (some-eq h) (c, omega arith)
  run-Counted s (m ∷ ms) c h = elim (Option-cases (step dial host s m)) [
    | inl e ↦ absurd (run-none ms (sym (ap (λ o. run dial host o ms) e) ∙ h))
    | inr (u, e) ↦
        let (cu, l) = step-Counted s m c e in
        let (ct, r) = run-Counted u ms cu (sym (ap (λ o. run dial host o ms) e) ∙ h) in
        (ct, omega arith)
  ]

-- ===== src/Core/Scan/Progress.antt =====
-- How many dials of `ScanPorts` are under way at once, and that it comes to an end.
use gonc.Prelude.{
  ℕ, zero, suc, ◌*◌, ◌≤◌, ◌≡◌, ◌≢◌, refl, ap, ◌∙◌, List, [], ◌∷◌, Option, some, true, Bool-cases,
  set, false, arith, inl, inr, length, get_elem?, ℕ_discrete,
}
use gonc.Prelude.Int.{ℤ}
use gonc.Text.{Str}
use gonc.Errors.{Error}
use gonc.Core.Scan.{
  Phase, acquiring, dialing, releasing, leaving, gone, Worker, Scanning, Move, loop, worker,
  max_concurrent_scans, start, advance, advance_worker, spawn, step, run, returns, no_ports,
}
use gonc.Core.Scan.Bounded.{
  total, holds, unfinished, Counted, start-Counted, step-Counted, run-Counted, left_over,
}

-- 1 for a goroutine whose call of `dial` has not returned
abbrev pub under_way : Phase → ℕ
under_way acquiring = 0
under_way dialing = 1
under_way releasing = 0
under_way leaving = 0
under_way gone = 0

phase_le : (ph : Phase) → under_way ph ≤ holds ph
phase_le ph = ground arith

total_le : (ws : List Worker) → total under_way ws ≤ total holds ws
total_le [] = omega arith
total_le (w ∷ ws) = omega (arith, total_le ws, phase_le w.phase)

-- a goroutine that counts
pick :
    (f : Phase → ℕ) (ws : List Worker)
    → total f ws ≢ 0
    → (i : ℕ) × (w : Worker) × (get_elem? ws i ≡ some w) × (f w.phase ≢ 0)
pick f [] h = absurd (h refl)
pick f (w ∷ ws) h = elim (ℕ_discrete (f w.phase) 0) [
  | yes z ↦ let (i, v, at, k) = pick f ws (λ e. h (omega arith)) in (suc i, v, at, k)
  | no k ↦ (zero, w, refl, k)
]

module _ (dial : ℕ → Str → Option Error) (host : Str) where
  -- At every moment of every schedule, the dials under way are at most `DefaultMaxConcurrentScans`,
  -- and no more moves have been made than five for each port.
  pub run_bounded :
      (ports : List ℤ) (ms : List Move) {s : Scanning}
      → run dial host (some (start ports)) ms ≡ some s
      → (total under_way s.workers ≤ max_concurrent_scans) × (length ms ≤ 5 * length ports)
  unfolding start
  run_bounded ports ms {s} h =
      let (c, l) = run-Counted dial host (start ports) ms (start-Counted ports) h in
      let a = total_le s.workers in (omega (arith, c.held, c.bounded), omega arith)

  holder_moves :
      (s : Scanning) (i : ℕ) (p : ℤ) (ph : Phase)
      → holds ph ≢ 0
      → (t : Scanning) × (advance dial host s i p ph ≡ some t)
  unfolding advance
  holder_moves s i p acquiring k = absurd (k refl)
  holder_moves s i p dialing k = (_, refl)
  holder_moves s i p releasing k = (_, refl)
  holder_moves s i p leaving k = absurd (k refl)
  holder_moves s i p gone k = absurd (k refl)

  unfinished_moves :
      (s : Scanning) (i : ℕ) (p : ℤ) (ph : Phase)
      → s.in_channel ≡ 0
      → unfinished ph ≢ 0
      → (t : Scanning) × (advance dial host s i p ph ≡ some t)
  unfolding advance
  unfinished_moves s i p acquiring z k =
      let u : Scanning = record s {
        workers = set s.workers i (record { port = p; phase = dialing });
        in_channel = suc s.in_channel;
      } in
      let e : advance dial host s i p acquiring ≡ some u = ground arith in (u, e)
  unfinished_moves s i p dialing z k = (_, refl)
  unfinished_moves s i p releasing z k = (_, refl)
  unfinished_moves s i p leaving z k = (_, refl)
  unfinished_moves s i p gone z k = absurd (k refl)

  Steps : Scanning → Type 0
  Steps s = (m : Move) × (t : Scanning) × (step dial host s m ≡ some t)

  worker-Steps :
      (s : Scanning) (i : ℕ) (w : Worker)
      → get_elem? s.workers i ≡ some w
      → (t : Scanning) × (advance dial host s i w.port w.phase ≡ some t)
      → Steps s
  unfolding step advance_worker Steps
  worker-Steps s i w at (t, e) = (worker i, t, ap (advance_worker dial host s i) at ∙ e)

  waits : (s : Scanning) → s.to_spawn ≡ [] → returns s ≡ false → s.wait_group ≢ 0
  unfolding returns no_ports
  waits s e r z = ground arith

  -- The call never blocks for good.
  steps : (s : Scanning) (ps : List ℤ) → s.to_spawn ≡ ps → Counted s → returns s ≡ false → Steps s
  unfolding returns step spawn Steps no_ports
  steps s (p ∷ ps) e c r = (loop, _, ap (spawn s) e)
  steps s [] e c r = elim (ℕ_discrete (total holds s.workers) 0) [
    | yes z ↦
        let (i, w, at, k) = pick unfinished s.workers (λ d. waits s e r (c.waiting ∙ d)) in
        worker-Steps s i w at (unfinished_moves s i w.port w.phase (c.held ∙ z) k)
    | no n ↦
        let (i, w, at, k) = pick holds s.workers n in
        worker-Steps s i w at (holder_moves s i w.port w.phase k)
  ]

  -- From a state whose counters are right, some schedule lets the call return.
  finishes :
      (n : ℕ) (s : Scanning)
      → left_over s ≡ n
      → Counted s
      → (ms : List Move) × (t : Scanning) × (run dial host (some s) ms ≡ some t)
        × (returns t ≡ true)
  unfolding run Steps
  finishes zero s l c = elim (Bool-cases (returns s)) [
    | inl r ↦ ([], s, refl, r)
    | inr r ↦
        let (m, t, e) = steps s s.to_spawn refl c r in
        let (ct, d) = step-Counted dial host s m c e in absurd (omega arith)
  ]
  finishes (suc n) s l c = elim (Bool-cases (returns s)) [
    | inl r ↦ ([], s, refl, r)
    | inr r ↦
        let (m, t, e) = steps s s.to_spawn refl c r in
        let (ct, d) = step-Counted dial host s m c e in
        let (ms, u, eu, ru) = finishes n t (omega arith) ct in
        (m ∷ ms, u, ap (λ o. run dial host o ms) e ∙ eu, ru)
  ]

  -- `ScanPorts` cannot get stuck: after whatever moves, some further ones let it return.
  pub run-returns :
      (ports : List ℤ) (ms : List Move) {s : Scanning}
      → run dial host (some (start ports)) ms ≡ some s
      → (rest : List Move) × (t : Scanning) × (run dial host (some s) rest ≡ some t)
        × (returns t ≡ true)
  run-returns ports ms {s} h =
      let (c, l) = run-Counted dial host (start ports) ms (start-Counted ports) h in
      finishes (left_over s) s refl c

-- ===== src/Core/Scan/Complete.antt =====
-- The results when `ScanPorts` returns.
use gonc.Prelude.{
  ℕ, suc, ◌+◌, ◌≡◌, refl, sym, ap, subst, ◌∙◌, List, [], ◌∷◌, ◌++◌, Option, none, some, true, arith,
  Bool-cases, Option-cases, some-eq, inl, inr, length, get_elem?, set, length-set, length-append,
  ltb, append-nil,
}
use gonc.Prelude.Int.{ℤ}
use gonc.Text.{Str}
use gonc.Errors.{Error}
use gonc.Core.Builder.{format_addr}
use gonc.Core.Scan.{
  Phase, acquiring, dialing, releasing, leaving, gone, Worker, Scanning, Move, loop, worker,
  max_concurrent_scans, start, result_of, advance, advance_worker, spawn, step, run, returns,
  no_ports,
}
use gonc.Core.Scan.Bounded.{start-Counted, run-Counted, run-none}
use gonc.Core.Scan.Filled.{
  ports_of, ports_of-set, ports_of-append, length-ports_of, length-make_results, one_by_one, Filled,
  Filled-append, Filled-move, Filled-write, Filled-one_by_one,
}

returns_empty : (s : Scanning) → returns s ≡ true → (s.to_spawn ≡ []) × (s.wait_group ≡ 0)
unfolding returns no_ports
returns_empty s h = ground arith

module _ (dial : ℕ → Str → Option Error) (host : Str) where
  -- What the goroutines of the first ports, and those to come, have to do with the call.
  record Follows (ports : List ℤ) (s : Scanning) : Type 0 where
    filled : Filled dial host 0 s.workers s.results
    spawned : ports_of s.workers ++ s.to_spawn ≡ ports
    sized : length s.results ≡ length ports

  start-Follows : (ports : List ℤ) → Follows ports (start ports)
  unfolding start
  start-Follows ports = record { filled = tt; spawned = refl; sized = length-make_results ports }

  advance-Follows :
      (ports : List ℤ) (s : Scanning) (i : ℕ) (p : ℤ) (ph : Phase) {t : Scanning}
      → Follows ports s
      → get_elem? s.workers i ≡ some (record { port = p; phase = ph })
      → advance dial host s i p ph ≡ some t
      → Follows ports t
  unfolding advance
  advance-Follows ports s i p acquiring {t} f at h =
      elim (Bool-cases (ltb s.in_channel max_concurrent_scans)) [
        | inl e ↦
            let u : Scanning = record s {
              workers = set s.workers i (record { port = p; phase = dialing });
              in_channel = suc s.in_channel;
            } in
            let same : u ≡ t = ground arith in
            subst (Follows ports) same (record {
              filled =
                  Filled-move dial host 0 s.workers s.results i p acquiring dialing at
                    (λ e. absurd (cc)) f.filled;
              spawned =
                  ap (λ ps. ps ++ s.to_spawn) (ports_of-set s.workers i p acquiring dialing at)
                  ∙ f.spawned;
              sized = f.sized;
            })
        | inr e ↦ absurd (ground arith)
      ]
  advance-Follows ports s i p dialing f at h =
      let counted : 0 + i ≡ i = omega arith in
      subst (Follows ports) (some-eq h) (record {
        filled =
            subst
              (λ k.
                Filled dial host 0 (set s.workers i (record { port = p; phase = releasing }))
                  (set s.results i (result_of p (dial k (format_addr host p)))))
              counted
              (Filled-write dial host 0 s.workers s.results i p dialing releasing at f.filled);
        spawned =
            ap (λ ps. ps ++ s.to_spawn) (ports_of-set s.workers i p dialing releasing at)
            ∙ f.spawned;
        sized = length-set s.results i _ ∙ f.sized;
      })
  advance-Follows ports s i p releasing f at h = subst (Follows ports) (some-eq h) (record {
    filled =
        Filled-move dial host 0 s.workers s.results i p releasing leaving at (λ e. refl) f.filled;
    spawned =
        ap (λ ps. ps ++ s.to_spawn) (ports_of-set s.workers i p releasing leaving at) ∙ f.spawned;
    sized = f.sized;
  })
  advance-Follows ports s i p leaving f at h = subst (Follows ports) (some-eq h) (record {
    filled = Filled-move dial host 0 s.workers s.results i p leaving gone at (λ e. refl) f.filled;
    spawned = ap (λ ps. ps ++ s.to_spawn) (ports_of-set s.workers i p leaving gone at) ∙ f.spawned;
    sized = f.sized;
  })
  advance-Follows ports s i p gone f at h = absurd (cc)

  spawn-Follows :
      (ports : List ℤ) (s : Scanning) (ps : List ℤ) {t : Scanning}
      → Follows ports s
      → s.to_spawn ≡ ps
      → spawn s ps ≡ some t
      → Follows ports t
  unfolding spawn
  spawn-Follows ports s [] f e h = absurd (cc)
  spawn-Follows ports s (p ∷ ps) f e h =
      let w : Worker = record { port = p; phase = acquiring } in
      let all : ports_of s.workers ++ p ∷ ps ≡ ports =
        ap (λ qs. ports_of s.workers ++ qs) (sym e) ∙ f.spawned in
      let a = length-ports_of s.workers in
      let b = length-append (ports_of s.workers) (p ∷ ps) in
      let d = ap length all in
      let g = f.sized in
      subst (Follows ports) (some-eq h) (record {
        filled = Filled-append dial host 0 s.workers s.results p (omega arith) f.filled;
        spawned = ports_of-append s.workers w ps ∙ all;
        sized = f.sized;
      })

  advance_worker-Follows :
      (ports : List ℤ) (s : Scanning) (i : ℕ) (o : Option Worker) {t : Scanning}
      → Follows ports s
      → get_elem? s.workers i ≡ o
      → advance_worker dial host s i o ≡ some t
      → Follows ports t
  unfolding advance_worker
  advance_worker-Follows ports s i none f e h = absurd (cc)
  advance_worker-Follows ports s i (some w) f e h = advance-Follows ports s i w.port w.phase f e h

  step-Follows :
      (ports : List ℤ) (s : Scanning) (m : Move) {t : Scanning}
      → Follows ports s
      → step dial host s m ≡ some t
      → Follows ports t
  unfolding step
  step-Follows ports s loop f h = spawn-Follows ports s s.to_spawn f refl h
  step-Follows ports s (worker i) f h =
      advance_worker-Follows ports s i (get_elem? s.workers i) f refl h

  run-Follows :
      (ports : List ℤ) (s : Scanning) (ms : List Move) {t : Scanning}
      → Follows ports s
      → run dial host (some s) ms ≡ some t
      → Follows ports t
  unfolding run
  run-Follows ports s [] f h = subst (Follows ports) (some-eq h) f
  run-Follows ports s (m ∷ ms) f h = elim (Option-cases (step dial host s m)) [
    | inl e ↦ absurd (run-none dial host ms (sym (ap (λ o. run dial host o ms) e) ∙ h))
    | inr (u, e) ↦
        run-Follows ports u ms (step-Follows ports s m f e)
          (sym (ap (λ o. run dial host o ms) e) ∙ h)
  ]

  -- Whatever the schedule: when `ScanPorts` returns, its results are those of one dial after the
  -- other, in the order of the ports.
  pub run-one_by_one :
      (ports : List ℤ) (ms : List Move) {s : Scanning}
      → run dial host (some (start ports)) ms ≡ some s
      → returns s ≡ true
      → s.results ≡ one_by_one dial host 0 ports
  unfolding returns
  run-one_by_one ports ms {s} h r =
      let f = run-Follows ports (start ports) ms (start-Follows ports) h in
      let (c, _) = run-Counted dial host (start ports) ms (start-Counted ports) h in
      let (none_left, All-done) = returns_empty s r in
      let all : ports_of s.workers ≡ ports =
        sym (append-nil (ports_of s.workers))
        ∙ ap (λ ps. ports_of s.workers ++ ps) (sym none_left)
        ∙ f.spawned in
      let same =
        Filled-one_by_one dial host 0 s.workers s.results (sym c.waiting ∙ All-done)
          (f.sized ∙ ap length (sym all) ∙ length-ports_of s.workers) f.filled in
      same ∙ ap (one_by_one dial host 0) all

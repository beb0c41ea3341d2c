-- ===== src/Core/Scan/Filled.antt =====
-- The slice `results` of `ScanPorts`, filled by the goroutines in any order.
use gonc.Prelude.{
  ℕ, zero, suc, ◌+◌, ◌<◌, ◌≡◌, refl, sym, ap, subst, ◌∙◌, List, [], ◌∷◌, ◌++◌, Option, some, Bool,
  true, false, arith, some-eq, length, get_elem?, set,
}
use gonc.Prelude.Int.{ℤ}
use gonc.Text.{Str}
use gonc.Errors.{Error}
use gonc.Core.Builder.{format_addr}
use gonc.Core.Scan.{
  Phase, acquiring, dialing, releasing, leaving, gone, Worker, ScanResult, make_results, result_of,
}
use gonc.Core.Scan.Bounded.{total, unfinished}

abbrev pub has_recorded : Phase → Bool
has_recorded acquiring = false
has_recorded dialing = false
has_recorded releasing = true
has_recorded leaving = true
has_recorded gone = true

abbrev pub ports_of : List Worker → List ℤ
ports_of [] = []
ports_of (w ∷ ws) = w.port ∷ ports_of ws

pub ports_of-set :
    (ws : List Worker) (j : ℕ) (p : ℤ) (ph q : Phase)
    → get_elem? ws j ≡ some (record { port = p; phase = ph })
    → ports_of (set ws j (record { port = p; phase = q })) ≡ ports_of ws
ports_of-set [] j p ph q h = refl
ports_of-set (w ∷ ws) zero p ph q h =
    ap (λ x. x ∷ ports_of ws) (sym (ap (λ (w : Worker). w.port) (some-eq h)))
ports_of-set (w ∷ ws) (suc j) p ph q h = ap (λ x. w.port ∷ x) (ports_of-set ws j p ph q h)

pub ports_of-append :
    (ws : List Worker) (w : Worker) (ps : List ℤ)
    → ports_of (ws ++ w ∷ []) ++ ps ≡ ports_of ws ++ w.port ∷ ps
ports_of-append [] w ps = refl
ports_of-append (v ∷ ws) w ps = ap (λ x. v.port ∷ x) (ports_of-append ws w ps)

pub length-ports_of : (ws : List Worker) → length (ports_of ws) ≡ length ws
length-ports_of [] = refl
length-ports_of (w ∷ ws) = ap suc (length-ports_of ws)

pub length-make_results : (ps : List ℤ) → length (make_results ps) ≡ length ps
unfolding make_results
length-make_results [] = refl
length-make_results (p ∷ ps) = ap suc (length-make_results ps)

module _ (dial : ℕ → Str → Option Error) (host : Str) where
  -- what one dial after the other would give, from the index `i` on
  abbrev pub one_by_one : ℕ → List ℤ → List ScanResult
  one_by_one i [] = []
  one_by_one i (p ∷ ps) = result_of p (dial i (format_addr host p)) ∷ one_by_one (suc i) ps

  abbrev pub Filled : ℕ → List Worker → List ScanResult → Type 0
  Filled i [] rs = Unit
  Filled i (w ∷ ws) [] = ⊥
  Filled i (w ∷ ws) (r ∷ rs) =
      (has_recorded w.phase ≡ true → r ≡ result_of w.port (dial i (format_addr host w.port)))
      × Filled (suc i) ws rs

  pub Filled-append :
      (i : ℕ) (ws : List Worker) (rs : List ScanResult) (p : ℤ)
      → length ws < length rs
      → Filled i ws rs
      → Filled i (ws ++ record { port = p; phase = acquiring } ∷ []) rs
  Filled-append i [] [] p l h = absurd (omega arith)
  Filled-append i [] (r ∷ rs) p l h = ((λ e. absurd (cc)), tt)
  Filled-append i (w ∷ ws) [] p l h = h
  Filled-append i (w ∷ ws) (r ∷ rs) p l (hr, h) =
      (hr, Filled-append (suc i) ws rs p (omega arith) h)

  pub Filled-move :
      (i : ℕ) (ws : List Worker) (rs : List ScanResult) (j : ℕ) (p : ℤ) (ph q : Phase)
      → get_elem? ws j ≡ some (record { port = p; phase = ph })
      → (has_recorded q ≡ true → has_recorded ph ≡ true)
      → Filled i ws rs
      → Filled i (set ws j (record { port = p; phase = q })) rs
  Filled-move i [] rs j p ph q at k h = h
  Filled-move i (w ∷ ws) [] j p ph q at k h = absurd h
  Filled-move i (w ∷ ws) (r ∷ rs) zero p ph q at k (hr, h) =
      let now : has_recorded ph ≡ true → r ≡ result_of p (dial i (format_addr host p)) =
        subst
          (λ (v : Worker).
            has_recorded v.phase ≡ true → r ≡ result_of v.port (dial i (format_addr host v.port)))
          (some-eq at) hr in
      ((λ e. now (k e)), h)
  Filled-move i (w ∷ ws) (r ∷ rs) (suc j) p ph q at k (hr, h) =
      (hr, Filled-move (suc i) ws rs j p ph q at k h)

  pub Filled-write :
      (i : ℕ) (ws : List Worker) (rs : List ScanResult) (j : ℕ) (p : ℤ) (ph q : Phase)
      → get_elem? ws j ≡ some (record { port = p; phase = ph })
      → Filled i ws rs
      → Filled i
          (set ws j (record { port = p; phase = q }))
          (set rs j (result_of p (dial (i + j) (format_addr host p))))
  Filled-write i [] rs j p ph q at h = h
  Filled-write i (w ∷ ws) [] j p ph q at h = absurd h
  Filled-write i (w ∷ ws) (r ∷ rs) zero p ph q at (hr, h) =
      ((λ e. ap (λ k. result_of p (dial k (format_addr host p))) (omega arith)), h)
  Filled-write i (w ∷ ws) (r ∷ rs) (suc j) p ph q at (hr, h) =
      let shifted : suc i + j ≡ i + suc j = omega arith in
      (
        hr,
        subst
            (λ k.
              Filled (suc i) (set ws j (record { port = p; phase = q }))
                (set rs j (result_of p (dial k (format_addr host p)))))
            shifted (Filled-write (suc i) ws rs j p ph q at h),
      )

  finished_recorded :
      (ph : Phase) (n : ℕ) → unfinished ph + n ≡ 0 → (has_recorded ph ≡ true) × (n ≡ 0)
  finished_recorded ph n h = ground arith

  pub Filled-one_by_one :
      (i : ℕ) (ws : List Worker) (rs : List ScanResult)
      → total unfinished ws ≡ 0
      → length rs ≡ length ws
      → Filled i ws rs
      → rs ≡ one_by_one i (ports_of ws)
  Filled-one_by_one i [] [] z l h = refl
  Filled-one_by_one i [] (r ∷ rs) z l h = absurd (omega arith)
  Filled-one_by_one i (w ∷ ws) [] z l h = absurd h
  Filled-one_by_one i (w ∷ ws) (r ∷ rs) z l (hr, h) =
      let (d, z') = finished_recorded w.phase (total unfinished ws) z in
      let tail = Filled-one_by_one (suc i) ws rs z' (omega arith) h in
      ap (λ x. x ∷ rs) (hr d)
      ∙ ap (λ x. result_of w.port (dial i (format_addr host w.port)) ∷ x) tail

-- ===== src/Retry/Backoff/Courses.antt =====
-- The rounds of the loop of `Do`: how an attempt may end it, and what came before.
use gonc.Prelude.{
  ℕ, zero, suc, ◌+◌, ◌≤◌, ◌<◌, ◌≡◌, ◌⊎◌, inl, inr, refl, subst, List, [], ◌∷◌, ◌++◌, Option, none,
  some, true, false, arith, Bool-cases, Option-cases, dec_lt,
}
use gonc.Prelude.Int.{ℤ, pos}
use gonc.Errors.{Error, Cause, no_cause, cause, unwrap}
use gonc.Retry.Backoff.{
  Floats, Backoff, Report, is_permanent, is_spent, loop, exhausted, cancelled, next_delay, wait_of,
}

module _ (floats : Floats) (b : Backoff floats) (fn done : ℕ → Option Error) where
  -- An attempt after which the loop goes on.
  pub record GoesOn (i : ℕ) : Type 0 where
    pub error : Error
    pub failed : fn i ≡ some error
    pub transient : is_permanent error ≡ false
    pub budget : is_spent floats b i ≡ false
    pub waited : done i ≡ none

  -- How the attempt `k` may end the loop, and what is then returned.
  pub data Ends (k : ℕ) (c : Cause) : Type 0 where
    by_success : fn k ≡ none → c ≡ no_cause → Ends k c
    by_permanent : (e : Error) → fn k ≡ some e → is_permanent e ≡ true → c ≡ unwrap e → Ends k c
    by_budget :
        (e : Error)
        → fn k ≡ some e
        → is_permanent e ≡ false
        → is_spent floats b k ≡ true
        → c ≡ cause (exhausted floats b e)
        → Ends k c
    by_context :
        (e cancel : Error)
        → fn k ≡ some e
        → is_permanent e ≡ false
        → is_spent floats b k ≡ false
        → done k ≡ some cancel
        → c ≡ cause (cancelled floats cancel)
        → Ends k c

  -- The attempts from `first` on: all but the last go on, and the last ends.
  pub record Course (first : ℕ) (r : Report) : Type 0 where
    pub started : first ≤ r.attempts
    pub before : (i : ℕ) → first ≤ i → i < r.attempts → GoesOn i
    pub last : Ends r.attempts r.returned

  earlier : (first : ℕ) (r : Report) → GoesOn first → Course (first + 1) r → Course first r
  earlier first r g c = record {
    started = omega (arith, c.started);
    before = λ i lo hi. elim (dec_lt first i) [
      | yes more ↦ c.before i (omega arith) hi
      | no same ↦ let e : first ≡ i = omega arith in rw (← e) g
    ];
    last = c.last;
  }

  Ends-here :
      (k : ℕ) (c : Cause) (ws : List ℤ) {r : Report}
      → Ends k c
      → record { returned = c; attempts = k; waits = ws } ≡ r
      → Course k r
  Ends-here k c ws e q =
      subst (Course k) q
        (record { started = omega arith; before = λ i lo hi. absurd (omega arith); last = e })

  pub loop-Course :
      (fuel first : ℕ) (delay : ℤ) (ws : List ℤ) {r : Report}
      → loop floats b fn done fuel first delay ws ≡ some r
      → Course first r
  unfolding loop
  loop-Course zero first delay ws h = absurd (cc)
  loop-Course (suc fuel) first delay ws {r} h = elim (Option-cases (fn first)) [
    | inl success ↦ Ends-here first no_cause ws (by_success success refl) (ground arith)
    | inr (e, failed) ↦ elim (Bool-cases (is_permanent e)) [
      | inl perm ↦ Ends-here first (unwrap e) ws (by_permanent e failed perm refl) (ground arith)
      | inr transient ↦ elim (Bool-cases (is_spent floats b first)) [
        | inl spent ↦ Ends-here first _ ws (by_budget e failed transient spent refl) (ground arith)
        | inr left ↦ elim (Option-cases (done first)) [
          | inr (cancel, stopped) ↦
              Ends-here first _ (ws ++ wait_of floats b first delay ∷ [])
                (by_context e cancel failed transient left stopped refl) (ground arith)
          | inl waited ↦
              earlier first r
                (record {
                  error = e;
                  failed = failed;
                  transient = transient;
                  budget = left;
                  waited = waited;
                })
                (loop-Course fuel (first + 1) (next_delay floats b delay)
                  (ws ++ wait_of floats b first delay ∷ []) (ground arith))
        ]
      ]
    ]
  ]

  -- A round either ends the loop or goes on to the next.
  pub loop_step :
      (fuel first : ℕ) (delay : ℤ) (ws : List ℤ)
      → ((r : Report) × (loop floats b fn done (suc fuel) first delay ws ≡ some r)
          × (r.attempts ≡ first)
          × ((r.waits ≡ ws) ⊎ (r.waits ≡ ws ++ wait_of floats b first delay ∷ [])))
        ⊎ (GoesOn first
            × (loop floats b fn done (suc fuel) first delay ws
                ≡ loop floats b fn done fuel
                    (first + 1)
                    (next_delay floats b delay)
                    (ws ++ wait_of floats b first delay ∷ [])))
  unfolding loop
  loop_step fuel first delay ws = elim (Option-cases (fn first)) [
    | inl success ↦
        inl (
          record { returned = no_cause; attempts = first; waits = ws },
          ground arith,
          refl,
          inl refl,
        )
    | inr (e, failed) ↦ elim (Bool-cases (is_permanent e)) [
      | inl perm ↦ inl (
        record { returned = unwrap e; attempts = first; waits = ws },
        ground arith,
        refl,
        inl refl,
      )
      | inr transient ↦ elim (Bool-cases (is_spent floats b first)) [
        | inl spent ↦ inl (
          record { returned = cause (exhausted floats b e); attempts = first; waits = ws },
          ground arith,
          refl,
          inl refl,
        )
        | inr left ↦ elim (Option-cases (done first)) [
          | inr (cancel, stopped) ↦ inl (
            record {
              returned = cause (cancelled floats cancel);
              attempts = first;
              waits = ws ++ wait_of floats b first delay ∷ [];
            },
            ground arith,
            refl,
            inr refl,
          )
          | inl waited ↦ inr (
            record {
              error = e;
              failed = failed;
              transient = transient;
              budget = left;
              waited = waited;
            },
            ground arith,
          )
        ]
      ]
    ]
  ]

  budget_left :
      (i m : ℕ) → b.max_attempts ≡ pos m → 1 ≤ i → is_spent floats b i ≡ false → (m ≡ 0) ⊎ (i < m)
  unfolding is_spent
  budget_left i m e low h = ground arith

  -- With fuel for every attempt of the budget the loop ends within the budget.
  pub loop_bounded :
      (fuel first m : ℕ) (delay : ℤ) (ws : List ℤ)
      → b.max_attempts ≡ pos m
      → 1 ≤ first
      → first ≤ m
      → first + fuel ≡ suc m
      → (r : Report) × (loop floats b fn done fuel first delay ws ≡ some r) × (r.attempts ≤ m)
  loop_bounded zero first m delay ws e low high sum = absurd (omega arith)
  loop_bounded (suc fuel) first m delay ws e low high sum = elim (loop_step fuel first delay ws) [
    | inl (r, q, k, _) ↦ (r, q, omega arith)
    | inr (g, q) ↦ rw q (
        loop_bounded fuel (first + 1) m _ _ e (omega arith)
          (omega (arith, budget_left first m e low g.budget)) (omega arith))
  ]

  not-GoesOn-Ends : (k : ℕ) (c : Cause) → Ends k c → GoesOn k → ⊥
  not-GoesOn-Ends k c (by_success f q) g = cc (g.failed)
  not-GoesOn-Ends k c (by_permanent e f p q) g = ground (arith, g.failed, g.transient)
  not-GoesOn-Ends k c (by_budget e f t s q) g = cc (g.budget)
  not-GoesOn-Ends k c (by_context e x f t s d q) g = cc (g.waited)

  -- With fuel up to an attempt that ends the loop, the loop ends.
  pub loop-Ends :
      (fuel first k : ℕ) (delay : ℤ) (ws : List ℤ) (c : Cause)
      → Ends k c
      → first ≤ k
      → k < first + fuel
      → (r : Report) × (loop floats b fn done fuel first delay ws ≡ some r) × (r.attempts ≤ k)
  loop-Ends zero first k delay ws c e low high = absurd (omega arith)
  loop-Ends (suc fuel) first k delay ws c e low high = elim (loop_step fuel first delay ws) [
    | inl (r, q, n, _) ↦ (r, q, omega arith)
    | inr (g, q) ↦ elim (dec_lt first k) [
      | yes more ↦ rw q (loop-Ends fuel (first + 1) k _ _ c e (omega arith) (omega arith))
      | no same ↦
          let at : first ≡ k = omega arith in absurd (not-GoesOn-Ends k c e (subst GoesOn at g))
    ]
  ]

-- ===== src/Retry/Backoff/Outcomes.antt =====
-- What a call of `Do` returns, and that it ends.
use gonc.Prelude.{
  ℕ, suc, ◌≤◌, ◌≡◌, ◌≢◌, sym, ◌∙◌, [], Option, none, some, true, inl, inr, refl, Option-cases,
  arith,
}
use gonc.Prelude.Int.{pos}
use gonc.Errors.{Error, Cause, Errors, no_cause, joined, permanent, as_type, unwrap}
use gonc.Errors.Inside.{Inside, as_type-ne-none}
use gonc.Retry.Backoff.{
  Floats, Backoff, Report, is_permanent, is_found, permanent_probe, loop, do_with, first_delay,
}
use gonc.Retry.Backoff.Courses.{
  Course, Ends, by_success, by_permanent, by_budget, by_context, loop-Course, loop_bounded,
  loop-Ends,
}

-- With a budget of `m` attempts `Do` returns after `m` of them at most. All but the last have
-- failed with an error that is not permanent, and were waited for in full; what is returned is nil
-- after a success, the error behind a permanent one, an error for the spent budget, or one for the
-- context.
pub do_with_budget :
    (floats : Floats) (b : Backoff floats) (fn done : ℕ → Option Error) (m : ℕ)
    → b.max_attempts ≡ pos m
    → 1 ≤ m
    → (r : Report) × (do_with floats b fn done m ≡ some r)
      × (r.attempts ≤ m)
      × Course floats b fn done 1 r
unfolding do_with
do_with_budget floats b fn done m e low =
    let (r, q, k) =
      loop_bounded floats b fn done m 1 m (first_delay floats b) [] e (omega arith) low
        (omega arith) in
    (r, q, k, loop-Course floats b fn done m 1 (first_delay floats b) [] q)

-- Without a budget too `Do` returns, by the attempt `k` at the latest, if that attempt would end
-- the loop: it succeeds, fails for good, or the context is done in the wait after it.
pub do_with_end :
    (floats : Floats) (b : Backoff floats) (fn done : ℕ → Option Error) (k : ℕ) (c : Cause)
    → Ends floats b fn done k c
    → 1 ≤ k
    → (r : Report) × (do_with floats b fn done k ≡ some r)
      × (r.attempts ≤ k)
      × Course floats b fn done 1 r
unfolding do_with
do_with_end floats b fn done k c e low =
    let (r, q, n) =
      loop-Ends floats b fn done k 1 k (first_delay floats b) [] c e low (omega arith) in
    (r, q, n, loop-Course floats b fn done k 1 (first_delay floats b) [] q)

nil_by_success :
    (floats : Floats) (b : Backoff floats) (fn done : ℕ → Option Error) (k : ℕ) (c : Cause)
    → ((e : Error) → fn k ≡ some e → is_permanent e ≡ true → unwrap e ≢ no_cause)
    → Ends floats b fn done k c
    → c ≡ no_cause
    → fn k ≡ none
nil_by_success floats b fn done k c good (by_success f q) n = f
nil_by_success floats b fn done k c good (by_permanent e f p q) n = absurd (good e f p (sym q ∙ n))
nil_by_success floats b fn done k c good (by_budget e f t s q) n = cc
nil_by_success floats b fn done k c good (by_context e x f t s d q) n = cc

-- If no permanent error of `fn` unwraps to nil, then `Do` returns nil only after an attempt that
-- succeeded.
pub do_with_nil :
    (floats : Floats) (b : Backoff floats) (fn done : ℕ → Option Error) (fuel : ℕ) (r : Report)
    → ((k : ℕ) (e : Error) → fn k ≡ some e → is_permanent e ≡ true → unwrap e ≢ no_cause)
    → do_with floats b fn done fuel ≡ some r
    → r.returned ≡ no_cause
    → fn r.attempts ≡ none
unfolding do_with
do_with_nil floats b fn done fuel r good q n =
    nil_by_success floats b fn done r.attempts r.returned (good r.attempts)
      (loop-Course floats b fn done fuel 1 (first_delay floats b) [] q).last n

permanent-Inside : (e : Error) (c : Cause) → Inside (permanent c) e → is_permanent e ≡ true
unfolding is_permanent is_found
permanent-Inside e c i = elim (Option-cases (as_type permanent_probe e)) [
  | inl n ↦ absurd (as_type-ne-none permanent_probe (permanent c) (λ h. absurd (cc)) i n)
  | inr (u, f) ↦ rw f refl
]

-- A permanent error anywhere inside a joined one is lost: an operation that returns the joined error
-- at the first attempt makes `Do` return nil, as after a success, since `errors.Unwrap` of a joined
-- error is nil.
pub do_with_joined :
    (floats : Floats) (b : Backoff floats) (fn done : ℕ → Option Error) (fuel : ℕ) (es : Errors)
    (c : Cause)
    → fn 1 ≡ some (joined es)
    → Inside (permanent c) (joined es)
    → do_with floats b fn done (suc fuel)
      ≡ some (record { returned = no_cause; attempts = 1; waits = [] })
unfolding do_with loop
do_with_joined floats b fn done fuel es c f i =
    let p = permanent-Inside (joined es) c i in ground arith

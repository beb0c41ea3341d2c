-- ===== src/Examples/Retries.antt =====
-- Retries with backoff, on whole numbers in place of floats.
use gonc.Prelude.{
  ℕ, zero, suc, ◌==◌, ◌*◌, ◌≤◌, ◌≡◌, ◌≢◌, refl, [], ◌∷◌, Option, none, some, true, false, arith,
}
use gonc.Prelude.Int.{pos, pos_part}
use gonc.Text.{codes}
use gonc.Errors.{Error, plain, permanent, joined, also, end, cause, no_cause, unwrap}
use gonc.Errors.Inside.{Inside, here, under_joined, first}
use gonc.Retry.Backoff.{Floats, Backoff, Report, is_permanent, is_spent, do_with}
use gonc.Retry.Backoff.Courses.{Course, Ends, by_success}
use gonc.Retry.Backoff.Outcomes.{do_with_budget, do_with_nil, do_with_joined}

abbrev whole : Floats
whole = record {
  Float = ℕ;
  at_most_zero = λ n. n == 0;
  two = 2;
  scale = λ d n. pos (pos_part d * n);
  jittered = λ attempt d. d;
}

abbrev three_tries : Backoff whole
three_tries = record {
  initial_delay = pos 5;
  max_delay = pos 12;
  multiplier = 2;
  max_attempts = pos 3;
  jitter = false;
}

abbrev timeout : Error
timeout = plain (codes "i/o timeout")

-- fails twice, then succeeds
abbrev third_time : ℕ → Option Error
third_time zero = some timeout
third_time (suc zero) = some timeout
third_time (suc (suc zero)) = some timeout
third_time (suc (suc (suc n))) = none

abbrev never_done : ℕ → Option Error
never_done k = none

abbrev third_report : Report
third_report = record { returned = no_cause; attempts = 3; waits = pos 5 ∷ pos 10 ∷ [] }

runs_three : do_with whole three_tries third_time never_done 3 ≡ some third_report
unfolding do_with
runs_three = refl

do_with_budget_example :
    (r : Report) × (do_with whole three_tries third_time never_done 3 ≡ some r)
    × (r.attempts ≤ 3)
    × Course whole three_tries third_time never_done 1 r
do_with_budget_example = do_with_budget whole three_tries third_time never_done 3 refl (omega arith)

third-Ends : Ends whole three_tries third_time never_done 3 no_cause
third-Ends = by_success refl refl

timeout_transient : is_permanent timeout ≡ false
unfolding is_permanent
timeout_transient = refl

no_permanent :
    (k : ℕ) (e : Error) → third_time k ≡ some e → is_permanent e ≡ true → unwrap e ≢ no_cause
no_permanent k e h p = ground (arith, timeout_transient)

do_with_nil_example : third_time 3 ≡ none
do_with_nil_example =
    do_with_nil whole three_tries third_time never_done 3 third_report no_permanent runs_three refl

-- `errors.Join` of a permanent error and another one
abbrev denied_and_more : Error
denied_and_more = joined (also (permanent (cause timeout)) (also timeout end))

abbrev denied : ℕ → Option Error
denied k = some denied_and_more

denied-Inside : Inside (permanent (cause timeout)) denied_and_more
denied-Inside = under_joined (first here)

do_with_joined_example :
    do_with whole three_tries denied never_done 1
    ≡ some (record { returned = no_cause; attempts = 1; waits = [] })
do_with_joined_example =
    do_with_joined whole three_tries denied never_done 0
      (also (permanent (cause timeout)) (also timeout end)) (cause timeout) refl denied-Inside

abbrev slow_start : Backoff whole
slow_start = record three_tries { initial_delay = pos 60 }

abbrev second_time : ℕ → Option Error
second_time zero = some timeout
second_time (suc zero) = some timeout
second_time (suc (suc n)) = none

not_spent : is_spent whole slow_start 1 ≡ false
unfolding is_spent
not_spent = refl

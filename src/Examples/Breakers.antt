-- ===== src/Examples/Breakers.antt =====
-- Circuit breakers.
use gonc.Prelude.{
  ℕ, ◌+◌, ◌≤◌, ◌≡◌, refl, List, [], ◌∷◌, none, some, arith, length, ◌==◌, if◌then◌else◌,
}
use gonc.Prelude.Int.{pos}
use gonc.Text.{codes}
use gonc.Errors.{Error, plain}
use gonc.Retry.CircuitBreaker.{
  closed, open_state, Breaker, BreakerConfig, new_circuit_breaker, Event, begins, ends, run,
}
use gonc.Retry.CircuitBreaker.Invariant.{Inv, Legal, Fits, forced_in, resets_in, run-new-Inv}
use gonc.Retry.CircuitBreaker.Sequential.{
  fail_with, fail_with_limit, succeed_with, SeqInv, succeed_with_recovers,
}
use gonc.Retry.CircuitBreaker.Interleaved.{overlap, late_success_closes}

-- opens after two failures, closes after two probes, waits for 10 nanoseconds
abbrev small : BreakerConfig
small = record { max_failures = pos 2; reset_timeout = pos 10; half_open_max = pos 2 }

abbrev refusal : Error
refusal = plain (codes "connection refused")

small-Fits : Fits small
small-Fits = record { max_fits = omega arith; probes_fit = omega arith }

abbrev overlapping : List Event
overlapping =
    begins 1
    ∷ begins 2
    ∷ ends (some refusal) 3
    ∷ ends (some refusal) 4
    ∷ begins 20
    ∷ ends none 21
    ∷ []

run-new-Inv_example :
    Inv (run (new_circuit_breaker (some small)) overlapping)
    × (forced_in (run (new_circuit_breaker (some small)) overlapping).changes
        ≤ resets_in overlapping)
run-new-Inv_example = run-new-Inv small overlapping small-Fits

abbrev fresh : Breaker
fresh = record {
  state = closed;
  failures = 0;
  successes = 0;
  max_failures = 2;
  reset_timeout = 10;
  half_open_max = 2;
  last_failure = 0;
  changes = [];
}

fresh-Inv : Inv fresh
fresh-Inv = record {
  max_positive = omega arith;
  max_small = omega arith;
  probes_positive = omega arith;
  probes_small = omega arith;
  timeout_positive = omega arith;
  under_limit = λ c. omega arith;
  history = refl;
}

abbrev two_failures : List (Error × ℕ × ℕ)
two_failures = (refusal, 1, 2) ∷ (refusal, 3, 4) ∷ []

fail_with_limit_example :
    ((fail_with two_failures fresh).failures ≡ 0 + length two_failures)
    × ((fail_with two_failures fresh).state
        ≡ (if 0 + length two_failures == 2 then open_state else closed))
fail_with_limit_example = fail_with_limit fresh two_failures fresh-Inv refl (omega arith)

-- opened by a failure at 4
abbrev tripped : Breaker
tripped = record fresh {
  state = open_state;
  failures = 2;
  last_failure = 4;
  changes = (closed, open_state) ∷ [];
}

tripped-Inv : Inv tripped
tripped-Inv = record {
  max_positive = omega arith;
  max_small = omega arith;
  probes_positive = omega arith;
  probes_small = omega arith;
  timeout_positive = omega arith;
  under_limit = λ c. absurd (cc);
  history = (refl, Legal.trips, refl);
}

tripped-SeqInv : SeqInv tripped
tripped-SeqInv = record { idle_count = λ c. refl; probe_count = λ c. absurd (cc) }

succeed_with_recovers_example :
    ((succeed_with ((20, 21) ∷ (22, 23) ∷ []) tripped).state ≡ closed)
    × ((succeed_with ((20, 21) ∷ (22, 23) ∷ []) tripped).failures ≡ 0)
succeed_with_recovers_example =
    succeed_with_recovers tripped 20 21 ((22, 23) ∷ []) tripped-Inv tripped-SeqInv refl
      (omega arith) refl

-- one failure to go
abbrev worn : Breaker
worn = record fresh { failures = 1 }

worn-Inv : Inv worn
worn-Inv = record {
  max_positive = omega arith;
  max_small = omega arith;
  probes_positive = omega arith;
  probes_small = omega arith;
  timeout_positive = omega arith;
  under_limit = λ c. omega arith;
  history = refl;
}

late_success_closes_example :
    ((run worn (begins 1 ∷ begins 1 ∷ ends (some refusal) 1 ∷ [])).state ≡ open_state)
    × ((run worn (overlap refusal 1 2 20 21)).state ≡ closed)
late_success_closes_example =
    late_success_closes worn refusal 1 2 20 21 worn-Inv refl refl refl (omega arith)

-- ===== src/Retry/CircuitBreaker/Invariant.antt =====
-- What holds of a circuit breaker after any calls, from any number of goroutines.
use gonc.Prelude.{ℕ, ◌+◌, ◌≤◌, ◌-◌, ◌^◌, ◌<◌, ◌≡◌, ◌≢◌, refl, List, [], ◌∷◌, none, some, arith}
use gonc.Prelude.Int.{pos, ◌≤ℤ◌}
use gonc.Prelude.Int64.{sign_bit}
use gonc.Retry.CircuitBreaker.{
  State, closed, open_state, half_open, Breaker, BreakerConfig, new_circuit_breaker, transition,
  before_request, after_request, after_failure, after_success, reset, Event, begins, ends, resets,
  step, run,
}

-- The changes of state that the breaker makes; `forced` is one that only `Reset` makes.
pub data Legal : State → State → Type 0 where
  trips : Legal closed open_state
  probes : Legal open_state half_open
  reopens : Legal half_open open_state
  recovers : Legal half_open closed
  forced : Legal open_state closed

-- The changes lead from `closed` to the present state, one from where the last one ended.
abbrev pub Chain : State → List (State × State) → Type 0
Chain s [] = s ≡ closed
Chain s ((a, b) ∷ rest) = (b ≡ s) × Legal a b × Chain a rest

pub record Inv (cb : Breaker) : Type 0 where
  pub max_positive : 0 < cb.max_failures
  pub max_small : cb.max_failures < sign_bit
  pub probes_positive : 0 < cb.half_open_max
  pub probes_small : cb.half_open_max < sign_bit
  pub timeout_positive : 0 < cb.reset_timeout
  pub under_limit : cb.state ≡ closed → cb.failures < cb.max_failures
  pub history : Chain cb.state cb.changes

-- the values of a configuration are int64 values
pub record Fits (cfg : BreakerConfig) : Type 0 where
  pub max_fits : cfg.max_failures ≤ℤ pos (2 ^ 63 - 1)
  pub probes_fit : cfg.half_open_max ≤ℤ pos (2 ^ 63 - 1)

pub new-Inv : (cfg : BreakerConfig) → Fits cfg → Inv (new_circuit_breaker (some cfg))
unfolding new_circuit_breaker
new-Inv cfg f = ground arith

before_request-Inv : (now : ℕ) (cb : Breaker) → Inv cb → Inv (before_request now cb).0
unfolding before_request transition
before_request-Inv now cb v = grind (arith, trips, probes, reopens, recovers, forced)

after_failure-Inv : (now : ℕ) (cb : Breaker) → Inv cb → Inv (after_failure now cb)
unfolding after_failure transition
after_failure-Inv now cb v = grind (arith, trips, probes, reopens, recovers, forced)

after_success-Inv : (cb : Breaker) → Inv cb → Inv (after_success cb)
unfolding after_success transition
after_success-Inv cb v = grind (arith, trips, probes, reopens, recovers, forced)

reset-Inv : (cb : Breaker) → Inv cb → Inv (reset cb)
unfolding reset transition
reset-Inv cb v = grind (arith, trips, probes, reopens, recovers, forced)

step-Inv : (cb : Breaker) (e : Event) → Inv cb → Inv (step cb e)
unfolding step after_request
step-Inv cb (begins now) v = before_request-Inv now cb v
step-Inv cb (ends none now) v = after_success-Inv cb v
step-Inv cb (ends (some e) now) v = after_failure-Inv now cb v
step-Inv cb resets v = reset-Inv cb v

pub run-Inv : (cb : Breaker) (es : List Event) → Inv cb → Inv (run cb es)
unfolding run
run-Inv cb [] v = v
run-Inv cb (e ∷ es) v = run-Inv (step cb e) es (step-Inv cb e v)

abbrev pub is_forced : State → State → ℕ
is_forced open_state closed = 1
is_forced _ _ = 0

-- how many changes lead from open to closed
abbrev pub forced_in : List (State × State) → ℕ
forced_in [] = 0
forced_in ((a, b) ∷ rest) = is_forced a b + forced_in rest

abbrev pub is_reset : Event → ℕ
is_reset resets = 1
is_reset _ = 0

abbrev pub resets_in : List Event → ℕ
resets_in [] = 0
resets_in (e ∷ es) = is_reset e + resets_in es

step-forced :
    (cb : Breaker) (e : Event) → forced_in (step cb e).changes ≤ is_reset e + forced_in cb.changes
unfolding step before_request after_request after_failure after_success reset transition
step-forced cb (begins now) = ground arith
step-forced cb (ends none now) = ground arith
step-forced cb (ends (some e) now) = ground arith
step-forced cb resets = ground arith

run-forced :
    (cb : Breaker) (es : List Event)
    → forced_in (run cb es).changes ≤ resets_in es + forced_in cb.changes
unfolding run
run-forced cb [] = omega arith
run-forced cb (e ∷ es) = omega (arith, step-forced cb e, run-forced (step cb e) es)

-- Whatever several goroutines do to a breaker made by `NewCircuitBreaker` from a configuration of
-- int64 limits, in any order: while it is closed the count of failures is below the limit, the limits
-- are positive, and its changes of state, each of them a legal one, lead from closed to the present
-- state. Of those from open to closed there are no more than calls of `Reset`.
pub run-new-Inv :
    (cfg : BreakerConfig) (es : List Event)
    → Fits cfg
    → Inv (run (new_circuit_breaker (some cfg)) es)
      × (forced_in (run (new_circuit_breaker (some cfg)) es).changes ≤ resets_in es)
unfolding new_circuit_breaker
run-new-Inv cfg es f =
    (run-Inv _ es (new-Inv cfg f), omega (arith, run-forced (new_circuit_breaker (some cfg)) es))

-- An open breaker closes by `Reset` alone: any other call leaves it open or half-open.
pub open_stays :
    (cb : Breaker) (e : Event) → cb.state ≡ open_state → e ≢ resets → (step cb e).state ≢ closed
unfolding step before_request after_request after_failure after_success transition
open_stays cb (begins now) o n h = ground arith
open_stays cb (ends none now) o n h = ground arith
open_stays cb (ends (some e) now) o n h = ground arith
open_stays cb resets o n h = absurd (n refl)

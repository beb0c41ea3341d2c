-- ===== src/Retry/CircuitBreaker.antt =====
-- internal/retry/circuit_breaker.go. A method that changes the breaker returns the new record; the
-- lock makes each method one step, so calls from several goroutines are a sequence of steps.
pub mod Invariant
pub mod Sequential
pub mod Interleaved
use gonc.Prelude.{
  ℕ, suc, ◌+◌, ◌-◌, ◌%◌, ◌^◌, List, [], ◌∷◌, ◌++◌, Option, none, some, Bool, true, false, ◌&&◌,
  ◌||◌, if◌then◌else◌, ltb, leb,
}
use gonc.Prelude.Int.{ℤ, pos, negsuc}
use gonc.Prelude.Int64.{at_least, wrap}
use gonc.Errors.{Error}

pub data State : Type 0 where
  closed open_state half_open : State

abbrev pub state_eq : State → State → Bool
state_eq closed closed = true
state_eq open_state open_state = true
state_eq half_open half_open = true
state_eq _ _ = false

-- Durations and times are nanoseconds. The counters are int64 patterns; `last_failure` is a reading
-- of the monotonic clock. `changes` are the calls of `onStateChange` so far, the latest first.
pub record Breaker : Type 0 where
  pub state : State
  pub failures : ℕ
  pub successes : ℕ
  pub max_failures : ℕ
  pub reset_timeout : ℕ
  pub half_open_max : ℕ
  pub last_failure : ℕ
  pub changes : List (State × State)

pub record BreakerConfig : Type 0 where
  pub max_failures : ℤ
  pub reset_timeout : ℤ
  pub half_open_max : ℤ

-- `DefaultCircuitBreakerConfig`
abbrev pub default_config : BreakerConfig
default_config = record {
  max_failures = pos 5;
  reset_timeout = pos 30_000_000_000;
  half_open_max = pos 2;
}

-- `if x <= 0 { x = fallback }`
positive_or : ℤ → ℕ → ℕ
positive_or (pos n) fallback = if ltb 0 n then n else fallback
positive_or (negsuc n) fallback = fallback

from_config : BreakerConfig → Breaker
unfolding positive_or
from_config cfg = record {
  state = closed;
  failures = 0;
  successes = 0;
  max_failures = positive_or cfg.max_failures 5;
  reset_timeout = positive_or cfg.reset_timeout 30_000_000_000;
  half_open_max = positive_or cfg.half_open_max 2;
  last_failure = 0;
  changes = [];
}

-- `NewCircuitBreaker`; `none` is a nil configuration
pub new_circuit_breaker : Option BreakerConfig → Breaker
unfolding from_config
new_circuit_breaker none = from_config default_config
new_circuit_breaker (some cfg) = from_config cfg

pub transition : State → Breaker → Breaker
transition to cb =
    if state_eq cb.state to
    then cb
    else record cb { state = to; changes = (cb.state, to) ∷ cb.changes }

-- "circuit open: … failures, retry in …": the failures and the time that is left
pub record CircuitOpen : Type 0 where
  pub failures : ℕ
  pub remaining : ℕ

-- `time.Since(t)`
elapsed : ℕ → ℕ → ℕ
elapsed now t = now - t

before_in : State → ℕ → Breaker → Breaker × Option CircuitOpen
unfolding elapsed
before_in closed now cb = (cb, none)
before_in open_state now cb =
    if ltb cb.reset_timeout (elapsed now cb.last_failure)
    then (transition half_open cb, none)
    else (
      cb,
      some (record {
        failures = cb.failures;
        remaining = cb.reset_timeout - elapsed now cb.last_failure;
      }),
    )
before_in half_open now cb = (cb, none)

-- `beforeRequest` at the time `now`
pub before_request : ℕ → Breaker → Breaker × Option CircuitOpen
unfolding before_in
before_request now cb = before_in cb.state now cb

after_failure : ℕ → Breaker → Breaker
after_failure now cb =
    let failed = record cb {
      failures = wrap (cb.failures + 1);
      successes = 0;
      last_failure = now;
    } in
    if state_eq failed.state half_open || at_least failed.failures failed.max_failures
    then transition open_state failed
    else failed

after_success_in : State → Breaker → Breaker
after_success_in half_open cb =
    if at_least cb.successes cb.half_open_max
    then transition closed (record cb { failures = 0 })
    else cb
after_success_in closed cb = record cb { failures = 0 }
after_success_in open_state cb = cb

after_success : Breaker → Breaker
unfolding after_success_in
after_success cb = after_success_in cb.state (record cb { successes = wrap (cb.successes + 1) })

-- `afterRequest` with the error that `fn` returned, at the time `now`
pub after_request : Option Error → ℕ → Breaker → Breaker
unfolding after_failure after_success
after_request (some e) now cb = after_failure now cb
after_request none now cb = after_success cb

-- `Reset`
pub reset : Breaker → Breaker
reset cb = transition closed (record cb { failures = 0; successes = 0 })

-- what `Execute` returns: the breaker's refusal, or what `fn` returned
pub data Outcome : Type 0 where
  refused : CircuitOpen → Outcome
  called : Option Error → Outcome

run_fn : Option Error → ℕ → Breaker × Option CircuitOpen → Breaker × Outcome
unfolding after_request
run_fn result later (cb, some e) = (cb, refused e)
run_fn result later (cb, none) = (after_request result later cb, called result)

-- `Execute` by one goroutine: `fn` is begun at `now`, and would return `result` at `later`.
pub execute : Option Error → ℕ → ℕ → Breaker → Breaker × Outcome
unfolding before_request run_fn
execute result now later cb = run_fn result later (before_request now cb)

-- What goroutines do to a shared breaker, one locked section each.
pub data Event : Type 0 where
  begins : ℕ → Event
  ends : Option Error → ℕ → Event
  resets : Event

pub step : Breaker → Event → Breaker
step cb (begins now) = (before_request now cb).0
step cb (ends result now) = after_request result now cb
step cb resets = reset cb

pub run : Breaker → List Event → Breaker
run cb [] = cb
run cb (e ∷ es) = run (step cb e) es

-- ===== src/Retry/CircuitBreaker/Interleaved.antt =====
-- What a breaker does under calls that overlap.
use gonc.Prelude.{ℕ, ◌+◌, ◌<◌, ◌≡◌, List, [], ◌∷◌, none, some, arith}
use gonc.Errors.{Error}
use gonc.Retry.CircuitBreaker.Invariant.{Inv}
use gonc.Retry.CircuitBreaker.{
  closed, open_state, half_open, Breaker, transition, before_request, after_request, after_failure,
  after_success, Event, begins, ends, step, run,
}

-- two calls begin, one fails and opens the breaker, the other succeeds late; a third call is the
-- probe, after the timeout
abbrev pub overlap : Error → ℕ → ℕ → ℕ → ℕ → List Event
overlap e begun ended probed answered =
    begins begun
    ∷ begins begun
    ∷ ends (some e) begun
    ∷ ends none ended
    ∷ begins probed
    ∷ ends none answered
    ∷ []

-- A success that comes in late, from a call begun before the breaker opened, counts as a probe: a
-- closed breaker in good order (`Inv`) that asks for two probes, and has one failure to go, is opened by a failure and
-- closed again by a single probe.
pub late_success_closes :
    (cb : Breaker) (e : Error) (begun ended probed answered : ℕ)
    → Inv cb
    → cb.state ≡ closed
    → cb.failures + 1 ≡ cb.max_failures
    → cb.half_open_max ≡ 2
    → begun + cb.reset_timeout < probed
    → ((run cb (begins begun ∷ begins begun ∷ ends (some e) begun ∷ [])).state ≡ open_state)
      × ((run cb (overlap e begun ended probed answered)).state ≡ closed)
unfolding run step before_request after_request after_failure after_success transition
late_success_closes cb e begun ended probed answered v c last two late = ground arith

-- The half-open state sets no limit on the probes that are under way: every call is let through.
pub half_open_lets_through :
    (cb : Breaker) (now : ℕ) → cb.state ≡ half_open → before_request now cb ≡ (cb, none)
unfolding before_request
half_open_lets_through cb now h = ground arith

-- ===== src/Retry/CircuitBreaker/Sequential.antt =====
-- A circuit breaker that one goroutine uses: each call of `Execute` ends before the next.
use gonc.Prelude.{
  ℕ, dec_lt, length, suc, ◌+◌, ◌-◌, ◌≤◌, ◌<◌, ◌≡◌, ◌≢◌, ◌⊎◌, List, [], ◌∷◌, Option, none, some,
  arith, if◌then◌else◌, ◌==◌,
}
use gonc.Prelude.Int64.{sign_bit}
use gonc.Errors.{Error}
use gonc.Retry.CircuitBreaker.{
  closed, open_state, half_open, Breaker, transition, after_request, execute, called, refused,
}
use gonc.Retry.CircuitBreaker.Invariant.{Inv}

-- An open breaker refuses the call, and stays as it is, as long as the timeout has not passed since
-- the last failure; `fn` is not called.
pub execute_early :
    (cb : Breaker) (result : Option Error) (now later : ℕ)
    → cb.state ≡ open_state
    → now ≤ cb.last_failure + cb.reset_timeout
    → execute result now later cb ≡ (
      cb,
      refused (record {
        failures = cb.failures;
        remaining = cb.reset_timeout - (now - cb.last_failure);
      }),
    )
unfolding execute
execute_early cb result now later o early = ground arith

-- If the breaker is not open, or the timeout has passed since the last failure, `Execute` calls `fn`
-- and returns its result.
pub execute_called :
    (cb : Breaker) (result : Option Error) (now later : ℕ)
    → (cb.state ≢ open_state) ⊎ (cb.last_failure + cb.reset_timeout < now)
    → (execute result now later cb).1 ≡ called result
unfolding execute
execute_called cb result now later h = ground arith

-- `n` failing calls, whatever their times and errors
abbrev pub fail_with : List (Error × ℕ × ℕ) → Breaker → Breaker
fail_with [] cb = cb
fail_with ((e, now, later) ∷ calls) cb = fail_with calls (execute (some e) now later cb).0

failing_step :
    (cb : Breaker) (e : Error) (now later : ℕ)
    → cb.state ≡ closed
    → cb.failures + 1 < cb.max_failures
    → cb.max_failures < sign_bit
    → (execute (some e) now later cb).0
      ≡ record cb { failures = cb.failures + 1; successes = 0; last_failure = later }
unfolding execute
failing_step cb e now later c below small = ground arith

last_failing_step :
    (cb : Breaker) (e : Error) (now later : ℕ)
    → cb.state ≡ closed
    → cb.failures + 1 ≡ cb.max_failures
    → cb.max_failures < sign_bit
    → ((execute (some e) now later cb).0.state ≡ open_state)
      × ((execute (some e) now later cb).0.failures ≡ cb.failures + 1)
unfolding execute transition
last_failing_step cb e now later c at small = ground arith

fail_with_counts :
    (cb : Breaker) (calls : List (Error × ℕ × ℕ))
    → cb.state ≡ closed
    → cb.failures < cb.max_failures
    → cb.failures + length calls ≤ cb.max_failures
    → cb.max_failures < sign_bit
    → ((fail_with calls cb).failures ≡ cb.failures + length calls)
      × ((fail_with calls cb).state
          ≡ (if cb.failures + length calls == cb.max_failures then open_state else closed))
fail_with_counts cb [] c below enough small = ground arith
fail_with_counts cb ((e, now, later) ∷ []) c below enough small =
    elim (dec_lt (cb.failures + 1) cb.max_failures) [
      | yes more ↦ ground (arith, failing_step cb e now later c more small)
      | no last ↦ ground (arith, last_failing_step cb e now later c (omega arith) small)
    ]
fail_with_counts cb ((e, now, later) ∷ d ∷ calls) c below enough small = ground (
  arith,
  failing_step cb e now later,
  fail_with_counts (execute (some e) now later cb).0 (d ∷ calls),
)

-- Failing calls in a row on a closed breaker in good order (`Inv`), with their errors and times, no more than the limit
-- allows: each is counted, and the breaker stays closed until the call that makes the failures reach
-- `max_failures`, which opens it.
pub fail_with_limit :
    (cb : Breaker) (calls : List (Error × ℕ × ℕ))
    → Inv cb
    → cb.state ≡ closed
    → cb.failures + length calls ≤ cb.max_failures
    → ((fail_with calls cb).failures ≡ cb.failures + length calls)
      × ((fail_with calls cb).state
          ≡ (if cb.failures + length calls == cb.max_failures then open_state else closed))
fail_with_limit cb calls v c enough =
    fail_with_counts cb calls c (v.under_limit c) enough v.max_small

-- `n` calls that succeed
abbrev pub succeed_with : List (ℕ × ℕ) → Breaker → Breaker
succeed_with [] cb = cb
succeed_with ((now, later) ∷ calls) cb = succeed_with calls (execute none now later cb).0

-- What holds between the calls of one goroutine.
pub record SeqInv (cb : Breaker) : Type 0 where
  pub idle_count : cb.state ≡ open_state → cb.successes ≡ 0
  pub probe_count : cb.state ≡ half_open → cb.successes < cb.half_open_max

pub execute-SeqInv :
    (cb : Breaker) (result : Option Error) (now later : ℕ)
    → Inv cb
    → SeqInv cb
    → SeqInv (execute result now later cb).0
unfolding execute transition after_request
execute-SeqInv cb none now later i v = ground arith
execute-SeqInv cb (some e) now later i v = ground arith

probe_step :
    (cb : Breaker) (now later : ℕ)
    → cb.state ≡ half_open
    → cb.successes + 1 < cb.half_open_max
    → cb.half_open_max < sign_bit
    → (execute none now later cb).0 ≡ record cb { successes = cb.successes + 1 }
unfolding execute
probe_step cb now later s below small = ground arith

last_probe_step :
    (cb : Breaker) (now later : ℕ)
    → cb.state ≡ half_open
    → cb.successes + 1 ≡ cb.half_open_max
    → cb.half_open_max < sign_bit
    → ((execute none now later cb).0.state ≡ closed) × ((execute none now later cb).0.failures ≡ 0)
unfolding execute transition
last_probe_step cb now later s at small = ground arith

recovers_from :
    (cb : Breaker) (calls : List (ℕ × ℕ))
    → cb.state ≡ half_open
    → cb.successes < cb.half_open_max
    → cb.successes + length calls ≡ cb.half_open_max
    → cb.half_open_max < sign_bit
    → ((succeed_with calls cb).state ≡ closed) × ((succeed_with calls cb).failures ≡ 0)
recovers_from cb [] s below at small = absurd (omega arith)
recovers_from cb ((now, later) ∷ []) s below at small =
    last_probe_step cb now later s (omega arith) small
recovers_from cb ((now, later) ∷ d ∷ calls) s below at small =
    ground (arith, probe_step cb now later, recovers_from (execute none now later cb).0 (d ∷ calls))

first_probe :
    (cb : Breaker) (now later : ℕ)
    → cb.state ≡ open_state
    → cb.successes ≡ 0
    → cb.last_failure + cb.reset_timeout < now
    → 1 < cb.half_open_max
    → cb.half_open_max < sign_bit
    → ((execute none now later cb).0.state ≡ half_open)
      × ((execute none now later cb).0.successes ≡ 1)
      × ((execute none now later cb).0.half_open_max ≡ cb.half_open_max)
unfolding execute transition
first_probe cb now later o idle late many small = ground arith

only_probe :
    (cb : Breaker) (now later : ℕ)
    → cb.state ≡ open_state
    → cb.successes ≡ 0
    → cb.last_failure + cb.reset_timeout < now
    → cb.half_open_max ≡ 1
    → ((execute none now later cb).0.state ≡ closed) × ((execute none now later cb).0.failures ≡ 0)
unfolding execute transition
only_probe cb now later o idle late one = ground arith

-- An open breaker in good order (`Inv`, `SeqInv`) that one goroutine uses closes, with no failure counted, after `half_open_max`
-- calls that succeed, the first of them made after the timeout has passed.
pub succeed_with_recovers :
    (cb : Breaker) (now later : ℕ) (calls : List (ℕ × ℕ))
    → Inv cb
    → SeqInv cb
    → cb.state ≡ open_state
    → cb.last_failure + cb.reset_timeout < now
    → suc (length calls) ≡ cb.half_open_max
    → ((succeed_with ((now, later) ∷ calls) cb).state ≡ closed)
      × ((succeed_with ((now, later) ∷ calls) cb).failures ≡ 0)
succeed_with_recovers cb now later [] i v o late n =
    only_probe cb now later o (v.idle_count o) late (omega arith)
succeed_with_recovers cb now later (d ∷ calls) i v o late n = ground (
  arith,
  first_probe cb now later o (v.idle_count o) late,
  recovers_from (execute none now later cb).0 (d ∷ calls),
)

-- ===== src/Retry/Backoff.antt =====
-- internal/retry/backoff.go. A duration is a number of nanoseconds. The float64 arithmetic and the
-- random draw are the fields of `Floats`; the operation `fn` and the context are functions of the
-- attempt: what `fn` returns at it, and with which error the context is done in the wait after it.
pub mod Courses
pub mod Outcomes
pub mod Waits
use gonc.Prelude.{
  ℕ, zero, suc, ◌+◌, List, [], ◌∷◌, ◌++◌, Option, none, some, Bool, true, false, ◌&&◌,
  if◌then◌else◌, ltb, leb,
}
use gonc.Prelude.Int.{ℤ, pos, negsuc, is_zero, ltb_ℤ, leb_ℤ}
use gonc.Text.{codes, itoa}
use gonc.Errors.{
  Error, Cause, Errors, no_cause, cause, cause_of, permanent, wrapped, as_type, unwrap,
}

-- `Permanent`
pub mark_permanent : Option Error → Option Error
mark_permanent none = none
mark_permanent (some e) = some (permanent (cause e))

abbrev pub permanent_probe : Error → Option (Unit {0})
permanent_probe (permanent c) = some tt
permanent_probe _ = none

is_found : Option (Unit {0}) → Bool
is_found none = false
is_found (some u) = true

-- `IsPermanent`
unfoldable pub is_permanent : Error → Bool
unfolding is_found as_type
is_permanent e = is_found (as_type permanent_probe e)

-- What the loop takes from float64 arithmetic and `math/rand`.
pub record Floats : Type 1 where
  pub Float : Type 0
  pub at_most_zero : Float → Bool  -- `x <= 0`
  pub two : Float  -- `2.0`
  pub scale : ℤ → Float → ℤ  -- `time.Duration(float64(delay) * multiplier)`
  pub jittered : ℕ → ℤ → ℤ  -- `time.Duration(result)` of `addJitter`, with the draw of an attempt

-- What a call of `Do` did: the error that it returned, the attempts made, the waits in order.
pub record Report : Type 0 where
  pub returned : Cause
  pub attempts : ℕ
  pub waits : List ℤ

-- `if delay == 0 { delay = … }`
pub zero_or : ℤ → ℤ → ℤ
zero_or d fallback = if is_zero d then fallback else d

module _ (floats : Floats) where
  open floats use {Float, at_most_zero, two, scale, jittered}

  pub record Backoff : Type 0 where
    pub initial_delay : ℤ
    pub max_delay : ℤ
    pub multiplier : Float
    pub max_attempts : ℤ
    pub jitter : Bool

  -- `DefaultBackoff`
  abbrev pub default_backoff : Backoff
  default_backoff = record {
    initial_delay = pos 1_000_000_000;
    max_delay = pos 60_000_000_000;
    multiplier = two;
    max_attempts = pos 10;
    jitter = true;
  }

  abbrev pub first_delay : Backoff → ℤ
  first_delay b = zero_or b.initial_delay (pos 1_000_000_000)

  abbrev pub delay_limit : Backoff → ℤ
  delay_limit b = zero_or b.max_delay (pos 60_000_000_000)

  factor : Backoff → Float
  factor b = if at_most_zero b.multiplier then two else b.multiplier

  pub next_delay : Backoff → ℤ → ℤ
  unfolding factor
  next_delay b delay =
      let grown = scale delay (factor b) in
      if ltb_ℤ (delay_limit b) grown then delay_limit b else grown

  -- `addJitter`, which waits for a millisecond at least
  add_jitter : ℕ → ℤ → ℤ
  add_jitter attempt delay =
      let result = jittered attempt delay in
      if ltb_ℤ result (pos 1_000_000) then pos 1_000_000 else result

  pub wait_of : Backoff → ℕ → ℤ → ℤ
  unfolding add_jitter
  wait_of b attempt delay = if b.jitter then add_jitter attempt delay else delay

  -- `b.MaxAttempts > 0 && attempt >= b.MaxAttempts`
  unfoldable pub is_spent : Backoff → ℕ → Bool
  is_spent b attempt = ltb_ℤ (pos 0) b.max_attempts && leb_ℤ b.max_attempts (pos attempt)

  pub exhausted : Backoff → Error → Error
  exhausted b e =
      wrapped (codes "max retries (" ++ (itoa b.max_attempts ++ codes ") exceeded")) (cause e)

  pub cancelled : Error → Error
  cancelled e = wrapped (codes "retry cancelled") (cause e)

  module _ (b : Backoff) (fn : ℕ → Option Error) (done : ℕ → Option Error) where
    abbrev report : Cause → ℕ → List ℤ → Option Report
    report c attempt waits = some (record { returned = c; attempts = attempt; waits = waits })

    -- What the loop does with the error of an attempt, `again` being the next rounds.
    pub after_error : ℕ → List ℤ → ℤ → Error → Option Report → Option Report
    unfolding wait_of exhausted cancelled unwrap is_permanent is_spent
    after_error attempt waits wait e again =
        if is_permanent e
        then report (unwrap e) attempt waits
        else if is_spent b attempt
        then report (cause (exhausted b e)) attempt waits
        else elim (done attempt) [
          | some cancel ↦ report (cause (cancelled cancel)) attempt (waits ++ wait ∷ [])
          | none ↦ again
        ]

    -- The loop of `Do`; `none` means that the fuel ran out.
    pub loop : ℕ → ℕ → ℤ → List ℤ → Option Report
    unfolding after_error next_delay
    loop zero attempt delay waits = none
    loop (suc fuel) attempt delay waits =
        let wait = wait_of b attempt delay in
        let again = loop fuel (attempt + 1) (next_delay b delay) (waits ++ wait ∷ []) in
        elim (fn attempt) [
          | none ↦ report no_cause attempt waits
          | some e ↦ after_error attempt waits wait e again
        ]

    -- `Do`
    unfoldable pub do_with : ℕ → Option Report
    unfolding loop zero_or
    do_with fuel = loop fuel 1 (first_delay b) []

-- ===== src/Retry/Backoff/Waits.antt =====
-- How long `Do` waits.
use gonc.Prelude.{ℕ, zero, suc, ◌≡◌, List, [], ◌∷◌, Option, none, some, false, if◌then◌else◌, arith}
use gonc.Prelude.Int.{ℤ, pos, leb_ℤ, ◌<ℤ◌}
use gonc.Errors.{Error, no_cause}
use gonc.Retry.Backoff.{
  Floats, Backoff, is_permanent, is_spent, loop, do_with, wait_of, delay_limit, zero_or,
}

module _ (floats : Floats) (b : Backoff floats) where
  -- the multiplier, which is 2.0 if none is set
  abbrev pub growth : floats.Float
  growth = if floats.at_most_zero b.multiplier then floats.two else b.multiplier

  abbrev pub capped : ℤ → ℤ
  capped d = if leb_ℤ d (delay_limit floats b) then d else delay_limit floats b

  -- the delays from `d` on: each is the one before it times the multiplier, capped
  abbrev pub schedule : ℕ → ℤ → List ℤ
  schedule zero d = []
  schedule (suc n) d = d ∷ schedule n (capped (floats.scale d growth))

-- The first wait is not capped: without jitter, an initial delay above the maximal delay is waited
-- for in full after the first attempt that fails.
pub do_with_first_wait :
    (floats : Floats) (b : Backoff floats) (fn done : ℕ → Option Error) (fuel : ℕ) (e : Error)
    → b.jitter ≡ false
    → pos 0 <ℤ b.max_delay
    → b.max_delay <ℤ b.initial_delay
    → fn 1 ≡ some e
    → is_permanent e ≡ false
    → is_spent floats b 1 ≡ false
    → fn 2 ≡ none
    → done 1 ≡ none
    → do_with floats b fn done (suc (suc fuel))
      ≡ some (record { returned = no_cause; attempts = 2; waits = b.initial_delay ∷ [] })
unfolding do_with loop wait_of zero_or
do_with_first_wait floats b fn done fuel e plain low high f t s f' d = ground arith

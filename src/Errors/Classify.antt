-- ===== src/Errors/Classify.antt =====
-- When an error is retried.
use gonc.Prelude.{
  ◌≡◌, ◌⊎◌, inl, inr, refl, ◌∙◌, List, [], ◌∷◌, Option, some, Bool, true, false, arith,
}
use gonc.Text.{Str}
use gonc.Errors.{
  Error, Cause, wrapped, cause, no_cause, as_type, classify_retryable, is_retryable, is_temporary,
  wrap, network_error, op_error, dns_error, op_probe, dns_probe, network_probe, plain, or_first,
  or_false, retryable_or,
}
use gonc.Errors.Inside.{Inside, as_type-Inside}

-- `IsTemporary` and `IsRetryable` agree on every error, nil included.
pub is_temporary-is_retryable : (c : Cause) → is_temporary c ≡ is_retryable c
unfolding is_temporary is_retryable
is_temporary-is_retryable no_cause = refl
is_temporary-is_retryable (cause e) = refl

-- an error with context added by `fmt.Errorf` with `%w`, innermost text last
abbrev pub with_context : List Str → Error → Error
with_context [] e = e
with_context (s ∷ ss) e = wrapped s (cause (with_context ss e))

is_retryable-wrapped :
    (s : Str) (e : Error) → is_retryable (cause (wrapped s (cause e))) ≡ is_retryable (cause e)
unfolding is_retryable
is_retryable-wrapped s e = refl

-- Context added by `fmt.Errorf` with `%w`, any number of times, does not change whether an error is
-- retried.
pub is_retryable-with_context :
    (ss : List Str) (e : Error) → is_retryable (cause (with_context ss e)) ≡ is_retryable (cause e)
is_retryable-with_context [] e = refl
is_retryable-with_context (s ∷ ss) e =
    is_retryable-wrapped s (with_context ss e) ∙ is_retryable-with_context ss e

-- The errors that say of themselves that trying again may help.
pub data SaysRetry : Error → Type 0 where
  temporary_op : (c : Cause) → SaysRetry (op_error true c)
  temporary_dns : SaysRetry (dns_error true)
  marked : (o a : Str) (c : Cause) → SaysRetry (network_error o a true c)

op_says : (x : Error) → op_probe x ≡ some true → SaysRetry x
op_says (op_error true c) h = temporary_op c
op_says (op_error false c) h = absurd (cc)
op_says (plain _) h = absurd (cc)
op_says _ h = absurd (cc)

dns_says : (x : Error) → dns_probe x ≡ some true → SaysRetry x
dns_says (dns_error true) h = temporary_dns
dns_says (dns_error false) h = absurd (cc)
dns_says (plain _) h = absurd (cc)
dns_says _ h = absurd (cc)

network_says : (x : Error) → network_probe x ≡ some true → SaysRetry x
network_says (network_error o a true c) h = marked o a c
network_says (network_error o a false c) h = absurd (cc)
network_says (plain _) h = absurd (cc)
network_says _ h = absurd (cc)

-- `true` comes from one of the three searches.
first_true :
    (n o d : Option Bool)
    → retryable_or n (or_false (or_first o d)) ≡ true
    → (n ≡ some true) ⊎ ((o ≡ some true) ⊎ (d ≡ some true))
unfolding retryable_or or_false
first_true n o d h = ground arith

says :
    (probe : Error → Option Bool) (e : Error)
    → ((x : Error) → probe x ≡ some true → SaysRetry x)
    → as_type probe e ≡ some true
    → (x : Error) × Inside x e × SaysRetry x
says probe e good h = let (x, i, p) = as_type-Inside probe e h in (x, i, good x p)

-- An error is retried only if some error in its tree of causes says that trying again may help.
pub is_retryable-SaysRetry :
    (e : Error) → is_retryable (cause e) ≡ true → (x : Error) × Inside x e × SaysRetry x
unfolding is_retryable
is_retryable-SaysRetry e h = elim (first_true _ _ _ h) [
  | inl n ↦ says network_probe e network_says n
  | inr (inl o) ↦ says op_probe e op_says o
  | inr (inr d) ↦ says dns_probe e dns_says d
]

-- `Wrap` classifies by the errors of package net alone: the mark of a `NetworkError` inside the
-- wrapped error does not count, whether it says to retry or not.
pub is_retryable-wrap :
    (op addr : Str) (c : Cause) → is_retryable (cause (wrap op addr c)) ≡ classify_retryable c
unfolding wrap is_retryable
is_retryable-wrap op addr c = refl

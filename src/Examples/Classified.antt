-- ===== src/Examples/Classified.antt =====
-- Errors that are retried, or not.
use gonc.Prelude.{◌≡◌, refl, true, false}
use gonc.Text.{codes}
use gonc.Errors.{Error, plain, op_error, wrapped, cause, is_retryable}

-- a temporary error of package net
abbrev temporary : Error
temporary = op_error true (cause (plain (codes "i/o timeout")))

abbrev dial_error : Error
dial_error = wrapped (codes "connect to h:80") (cause temporary)

retries : is_retryable (cause dial_error) ≡ true
unfolding is_retryable
retries = refl

gives_up : is_retryable (cause (plain (codes "denied"))) ≡ false
unfolding is_retryable
gives_up = refl

-- ===== src/Errors.antt =====
-- internal/errors/errors.go: error values, `errors.As` and `errors.Unwrap` on them, and the
-- classification of errors that are worth retrying.
pub mod Inside
pub mod Classify
pub mod Texts
use gonc.Prelude.{ℕ, ◌∷◌, ◌++◌, List, [], Option, none, some, Bool, true, false, if◌then◌else◌}
use gonc.Prelude.Int.{ℤ}
use gonc.Text.{Str, codes, is_empty, itoa}

-- An `error` that is not nil. `plain` is any error without a cause, `wrapped` one by `fmt.Errorf`
-- with `%w`, `joined` one by `errors.Join`; `op_error` and `dns_error` are those of package net,
-- with the answer of their method `Temporary`; the others are the program's own.
mutual
  pub data Error : Type 0 where
    plain : Str → Error
    wrapped : Str → Cause → Error
    joined : Errors → Error
    op_error : Bool → Cause → Error
    dns_error : Bool → Error
    network_error : Str → Str → Bool → Cause → Error
    ssh_error : Str → Str → ℤ → Cause → Error
    permanent : Cause → Error

  -- the field `Err`, which may be nil
  pub data Cause : Type 0 where
    no_cause : Cause
    cause : Error → Cause

  pub data Errors : Type 0 where
    end : Errors
    also : Error → Errors → Errors

-- an `error` variable
abbrev pub cause_of : Option Error → Cause
cause_of none = no_cause
cause_of (some e) = cause e

abbrev pub or_first {ℓ} : {A : Type ℓ} → Option A → Option A → Option A
or_first (some a) other = some a
or_first none other = other

module _ {A : Type 0} (probe : Error → Option A) where
  -- `errors.As`: the first error, depth first, that is of the wanted type.
  unfoldable mutual
    pub as_type : Error → Option A
    as_type (plain s) = probe (plain s)
    as_type (wrapped s c) = or_first (probe (wrapped s c)) (as_cause c)
    as_type (joined es) = or_first (probe (joined es)) (as_errors es)
    as_type (op_error t c) = or_first (probe (op_error t c)) (as_cause c)
    as_type (dns_error t) = probe (dns_error t)
    as_type (network_error o a r c) = or_first (probe (network_error o a r c)) (as_cause c)
    as_type (ssh_error o h p c) = or_first (probe (ssh_error o h p c)) (as_cause c)
    as_type (permanent c) = or_first (probe (permanent c)) (as_cause c)

    pub as_cause : Cause → Option A
    as_cause no_cause = none
    as_cause (cause e) = as_type e

    pub as_errors : Errors → Option A
    as_errors end = none
    as_errors (also e es) = or_first (as_type e) (as_errors es)

-- `errors.Unwrap`: nil for an error without a cause, and for a joined one.
unfoldable pub unwrap : Error → Cause
unwrap (plain s) = no_cause
unwrap (wrapped s c) = c
unwrap (joined es) = no_cause
unwrap (op_error t c) = c
unwrap (dns_error t) = no_cause
unwrap (network_error o a r c) = c
unwrap (ssh_error o h p c) = c
unwrap (permanent c) = c

-- `var opErr *net.OpError; errors.As(err, &opErr)`, with what `Temporary` answers
abbrev pub op_probe : Error → Option Bool
op_probe (op_error t c) = some t
op_probe _ = none

abbrev pub dns_probe : Error → Option Bool
dns_probe (dns_error t) = some t
dns_probe _ = none

-- `var ne *NetworkError`, with its field `Retryable`
abbrev pub network_probe : Error → Option Bool
network_probe (network_error o a r c) = some r
network_probe _ = none

or_false : Option Bool → Bool
or_false none = false
or_false (some b) = b

-- `classifyRetryable`
pub classify_retryable : Cause → Bool
unfolding or_false as_cause as_type as_errors
classify_retryable no_cause = false
classify_retryable (cause e) = or_false (or_first (as_type op_probe e) (as_type dns_probe e))

retryable_or : Option Bool → Bool → Bool
retryable_or (some r) other = r
retryable_or none other = other

-- `IsRetryable`
unfoldable pub is_retryable : Cause → Bool
unfolding retryable_or classify_retryable as_cause as_type as_errors
is_retryable no_cause = false
is_retryable (cause e) = retryable_or (as_type network_probe e) (classify_retryable (cause e))

-- `IsTemporary`, without the test for nil: `errors.As` finds nothing in nil.
pub is_temporary : Cause → Bool
unfolding retryable_or classify_retryable as_cause as_type as_errors
is_temporary c = retryable_or (as_cause network_probe c) (classify_retryable c)

-- `Wrap`
pub wrap : Str → Str → Cause → Error
unfolding classify_retryable
wrap op addr c = network_error op addr (classify_retryable c) c

-- `WrapSSH`
pub wrap_ssh : Str → Str → ℤ → Cause → Error
wrap_ssh op host port c = ssh_error op host port c

-- `ConfigError`; its value is an int wherever the program sets one.
pub record ConfigError : Type 0 where
  pub field : Str
  pub value : Option ℤ
  pub message : Str
  pub hint : Str

value_text : Option ℤ → Str
unfolding itoa
value_text none = []
value_text (some n) = b'=' ∷ itoa n

hint_text : Str → Str
hint_text hint = if is_empty hint then [] else codes "\n  hint: " ++ hint

-- `ConfigError.Error`
unfoldable pub config_error_text : ConfigError → Str
unfolding value_text hint_text
config_error_text e =
    codes "config: --"
    ++ (e.field ++ (value_text e.value ++ (codes ": " ++ (e.message ++ hint_text e.hint))))

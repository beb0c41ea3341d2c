-- ===== src/Errors/Texts.antt =====
-- internal/errors/errors.go: the texts of errors. `%v` of a nil error is "<nil>"; a `PermanentError`
-- has no nil inside, since `Permanent` gives nil for nil. The texts of the errors of package net are
-- parameters: `op_text` from whether it is temporary and the text of its cause.
use gonc.Prelude.{[], ◌++◌, Bool, if◌then◌else◌}
use gonc.Prelude.Int.{ℤ}
use gonc.Text.{Str, codes, itoa}
use gonc.Errors.{
  Error, Cause, Errors, plain, wrapped, joined, op_error, dns_error, network_error, ssh_error,
  permanent, no_cause, cause, end, also,
}

-- `NetworkError.Error`
network_text : Str → Str → Bool → Str → Str
network_text op addr retryable text =
    let s = op ++ codes " " ++ addr ++ codes ": " ++ text in
    if retryable then s ++ codes " (retryable)" else s

-- `SSHError.Error`
ssh_text : Str → Str → ℤ → Str → Str
ssh_text op host port text =
    codes "ssh " ++ op ++ codes " " ++ host ++ codes ":" ++ itoa port ++ codes ": " ++ text

module _ (op_text : Bool → Str → Str) (dns_text : Bool → Str) where
  -- `Error`
  mutual
    unfolding network_text ssh_text

    pub error_text : Error → Str
    error_text (plain s) = s
    error_text (wrapped s c) = s ++ codes ": " ++ cause_text c
    error_text (joined es) = joined_text es
    error_text (op_error t c) = op_text t (cause_text c)
    error_text (dns_error t) = dns_text t
    error_text (network_error op addr r c) = network_text op addr r (cause_text c)
    error_text (ssh_error op host port c) = ssh_text op host port (cause_text c)
    error_text (permanent c) = cause_text c

    cause_text : Cause → Str
    cause_text no_cause = codes "<nil>"
    cause_text (cause e) = error_text e

    -- those of `errors.Join`, one on each line
    joined_text : Errors → Str
    joined_text end = []
    joined_text (also e end) = error_text e
    joined_text (also e (also f es)) = error_text e ++ codes "\n" ++ joined_text (also f es)

-- ===== src/Cmd/Checked.antt =====
-- What `Execute` has checked when it starts a mode.
use gonc.Prelude.{
  ◌≡◌, inl, inr, refl, subst, List, [], ◌∷◌, Option, none, true, false, arith, Bool-cases, Bool,
  if◌then◌else◌, ◌||◌,
}
use gonc.Prelude.Int.{pos}
use gonc.Prelude.Result.{Result, ok, err, map_err, >>=-eq-ok, ok-eq}
use gonc.Text.{Str, is_empty}
use gonc.Config.{Config}
use gonc.Config.Environment.{Environment, load_from_env}
use gonc.Config.TunnelSpec.{parse_tunnel_spec}
use gonc.Config.Validation.{Complaint, validate}
use gonc.Config.Validation.Consistent.{IsConsistent, validate_iff}
use gonc.Core.Builder.{build}
use gonc.Core.Builder.Validated.{ParsedPorts, Suits, build-Suits}
use gonc.Cmd.{
  CommandError, Flags, Setting, Parsed, Outcome, failed, usage, shows_version, dry_run_valid, runs,
  with_timeout, reverse_spec, enable_reverse, parse_positional, tunnel_spec, enable_tunnel, check,
  resolve, execute, start, finish, set_flag, set_flags, registered, panicked, no_arguments,
  from_built, bad_tunnel, bad_reverse_tunnel,
}
use gonc.Cmd.Positional.{parse_positional-ParsedPorts}

reverse_spec-ParsedPorts :
    (u : Str) (c : Config) {d : Config} → ParsedPorts c → reverse_spec u c ≡ ok d → ParsedPorts d
unfolding reverse_spec
reverse_spec-ParsedPorts u c {d} v h = elim (Bool-cases (is_empty c.reverse_tunnel_spec)) [
  | inl e ↦ let same : c ≡ d = ground arith in subst ParsedPorts same v
  | inr e ↦
      let (t, _, next) =
        >>=-eq-ok (map_err bad_reverse_tunnel (parse_tunnel_spec c.reverse_tunnel_spec))
          (λ t. ok (enable_reverse u c t)) (ground arith) in
      subst ParsedPorts (ok-eq next) (record { ranges = v.ranges; port = v.port })
]

tunnel_spec-ParsedPorts :
    (u : Str) (c : Config) {d : Config} → ParsedPorts c → tunnel_spec u c ≡ ok d → ParsedPorts d
unfolding tunnel_spec
tunnel_spec-ParsedPorts u c {d} v h = elim (Bool-cases (is_empty c.tunnel_spec)) [
  | inl e ↦ let same : c ≡ d = ground arith in subst ParsedPorts same v
  | inr e ↦
      let (t, _, next) =
        >>=-eq-ok (map_err bad_tunnel (parse_tunnel_spec c.tunnel_spec))
          (λ t. ok (enable_tunnel u c t)) (ground arith) in
      subst ParsedPorts (ok-eq next) (record { ranges = v.ranges; port = v.port })
]

pub check-eq-ok :
    (c : Config) (o : Option Complaint) {d : Config} → check c o ≡ ok d → (o ≡ none) × (c ≡ d)
unfolding check
check-eq-ok c o h = ground arith

with_timeout-ParsedPorts : (f : Flags) → ParsedPorts f.config → ParsedPorts (with_timeout f)
unfolding with_timeout
with_timeout-ParsedPorts f v = ground arith

-- From flags that have set no destination ports but TCP ports, and any arguments, `Execute` makes a
-- consistent configuration whose destination ports are TCP ports, if it does not fail. Of the local
-- port, the value of -p or GONC_PORT, this says no more than consistency does: it is not zero if the
-- configuration listens, and may be any other integer.
pub resolve-IsConsistent :
    (u : Str) (f : Flags) (args : List Str) {d : Config}
    → ParsedPorts f.config
    → resolve u f args ≡ ok d
    → IsConsistent d × ParsedPorts d
unfolding resolve
resolve-IsConsistent u f args v h =
    let (c, p, h') = >>=-eq-ok (reverse_spec u (with_timeout f)) _ h in
    let (c', q, h'') = >>=-eq-ok (parse_positional c args) _ h' in
    let (c'', r, last) = >>=-eq-ok (tunnel_spec u c') _ h'' in
    let (valid, same) = check-eq-ok c'' (validate c'') last in
    let v' = reverse_spec-ParsedPorts u (with_timeout f) (with_timeout-ParsedPorts f v) p in
    let v'' = parse_positional-ParsedPorts c args v' q in
    (
      subst IsConsistent same ((validate_iff c'').0 valid),
      subst ParsedPorts same (tunnel_spec-ParsedPorts u c' v'' r),
    )

set_flag-ParsedPorts :
    (f : Flags) (s : Setting) → ParsedPorts f.config → ParsedPorts (set_flag f s).config
unfolding set_flag
set_flag-ParsedPorts f (Setting.listen b) v = record { ranges = v.ranges; port = v.port }
set_flag-ParsedPorts f _ v = record { ranges = v.ranges; port = v.port }

set_flags-ParsedPorts :
    (f : Flags) (ss : List Setting) → ParsedPorts f.config → ParsedPorts (set_flags f ss).config
unfolding set_flags
set_flags-ParsedPorts f [] v = v
set_flags-ParsedPorts f (s ∷ ss) v =
    set_flags-ParsedPorts (set_flag f s) ss (set_flag-ParsedPorts f s v)

abbrev before_flags : Environment → Flags
before_flags env = record {
  config = load_from_env env registered;
  timeout_sec = pos 0;
  show_version = false;
  show_help = false;
}

before_flags-ParsedPorts : (env : Environment) → ParsedPorts (before_flags env).config
unfolding load_from_env
before_flags-ParsedPorts env = record { ranges = tt; port = inl refl }

-- What an outcome has to show.
abbrev pub Justified : Outcome → Type 0
Justified (failed e) = Unit
Justified usage = Unit
Justified shows_version = Unit
Justified (dry_run_valid c) = IsConsistent c × ParsedPorts c
Justified (runs c m) = IsConsistent c × ParsedPorts c × Suits c m
Justified panicked = ⊥

from_built-Justified :
    (parse_ip : Str → Bool) (c : Config)
    → IsConsistent c
    → ParsedPorts c
    → Justified (from_built c (build parse_ip c))
unfolding from_built
from_built-Justified parse_ip c v p = elim (build-Suits parse_ip c v p) [
  | inl refused ↦ rw (refused.0) tt
  | inr (m, e, s) ↦ rw e (v, p, s)
]

if-Justified :
    (b : Bool) (x y : Outcome) → Justified x → Justified y → Justified (if b then x else y)
if-Justified true x y hx hy = hx
if-Justified false x y hx hy = hy

finish-Justified :
    (parse_ip : Str → Bool) (r : Result CommandError Config)
    → ((c : Config) → r ≡ ok c → IsConsistent c × ParsedPorts c)
    → Justified (finish parse_ip r)
unfolding finish
finish-Justified parse_ip (err e) h = tt
finish-Justified parse_ip (ok c) h =
    let (v, p) = h c refl in if-Justified c.dry_run _ _ (v, p) (from_built-Justified parse_ip c v p)

start-Justified :
    (parse_ip : Str → Bool) (u : Str) (env : Environment) (args : List Str) (p : Result Str Parsed)
    → Justified (start parse_ip u env args p)
unfolding start
start-Justified parse_ip u env args (err e) = tt
start-Justified parse_ip u env args (ok p) =
    let f = set_flags (before_flags env) p.settings in
    let v = set_flags-ParsedPorts (before_flags env) p.settings (before_flags-ParsedPorts env) in
    if-Justified (f.show_help || no_arguments args) _ _ tt (
      if-Justified f.show_version _ _ tt (
        finish-Justified parse_ip (resolve u f p.remaining)
          (λ c e. resolve-IsConsistent u f p.remaining v e)))

-- However the command line, the environment and the flag parser turn out, `Execute` does not come to
-- the panic of `AllPorts`, and it starts a mode, or reports a dry run as valid, only for a consistent
-- configuration whose destination ports are TCP ports; the mode is then the one that the
-- configuration asks for, as `Build` is to make it. The local port of a listener is not known to be
-- in range: it is only not zero.
pub execute-Justified :
    (parse_ip : Str → Bool) (parse_flags : List Str → Result Str Parsed) (u : Str)
    (env : Environment) (args : List Str)
    → Justified (execute parse_ip parse_flags u env args)
unfolding execute
execute-Justified parse_ip parse_flags u env args =
    start-Justified parse_ip u env args (parse_flags args)

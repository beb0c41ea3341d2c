-- ===== src/Config/TunnelSpec.antt =====
-- config/config.go: `tunnelRe` and `ParseTunnelSpec`.
pub mod Grammar
pub mod Accepted
use gonc.Prelude.{
  ℕ, suc, zero, ◌+◌, ◌-◌, ◌*◌, List, [], ◌∷◌, ◌++◌, Option, none, some, Bool, true, false, ◌&&◌,
  ◌||◌, if◌then◌else◌, ◌==◌, not,
}
use gonc.Prelude.Int.{ℤ, pos, ltb_ℤ}
use gonc.Prelude.Result.{Result, ok, err}
use gonc.Text.{Str, contains, before, behind, atoi, is_digit, is_empty, codes}

-- The three groups of a match; a group that takes no part is the empty string.
pub record Match : Type 0 where
  pub user : Str
  pub host : Str
  pub port : Str

all_digits : Str → Bool
all_digits [] = true
all_digits (c ∷ s) = let rest = all_digits s in if is_digit c then rest else false

-- `(?::(\d+))?$` behind a host that ends at the first colon
match_port : Str → Str → Str → Option Match
unfolding all_digits
match_port user host [] = none
match_port user host (c ∷ s) =
    if all_digits (c ∷ s) then some (record { user = user; host = host; port = c ∷ s }) else none

-- `([^:]+)(?::(\d+))?$`. The host is all bytes up to the first colon: a shorter one is followed
-- by a byte that is neither a colon nor the end, so backtracking finds nothing else.
match_host : Str → Str → Option Match
unfolding match_port
match_host user rest =
    if is_empty (before b':' rest)
    then none
    else if contains rest b':'
    then match_port user (before b':' rest) (behind b':' rest)
    else some (record { user = user; host = rest; port = [] })

or_else : Option Match → Option Match → Option Match
or_else (some m) other = some m
or_else none other = other

-- `tunnelRe.FindStringSubmatch`: `^(?:([^@]+)@)?([^:]+)(?::(\d+))?$`. The user group is tried first,
-- and can only end at the first `@`; if the rest does not match, the group is left out.
unfoldable pub find_submatch : Str → Option Match
unfolding match_host or_else
find_submatch spec =
    if contains spec b'@' && not (is_empty (before b'@' spec))
    then or_else (match_host (before b'@' spec) (behind b'@' spec)) (match_host [] spec)
    else match_host [] spec

pub data TunnelError : Type 0 where
  invalid_spec : Str → TunnelError
  invalid_port : Str → TunnelError
  host_required : TunnelError

pub record Tunnel : Type 0 where
  pub user : Str
  pub host : Str
  pub port : ℤ

finish : Str → Str → ℤ → Result TunnelError Tunnel
finish user host port =
    if is_empty host
    then err host_required
    else ok (record { user = user; host = host; port = port })

check_port : Match → Option ℤ → Result TunnelError Tunnel
unfolding finish
check_port m none = err (invalid_port m.port)
check_port m (some port) =
    if ltb_ℤ port (pos 1) || ltb_ℤ (pos 65535) port
    then err (invalid_port m.port)
    else finish m.user m.host port

from_match : Str → Option Match → Result TunnelError Tunnel
unfolding check_port
from_match spec none = err (invalid_spec spec)
from_match spec (some m) =
    if is_empty m.port then finish m.user m.host (pos 22) else check_port m (atoi m.port)

unfoldable pub parse_tunnel_spec : Str → Result TunnelError Tunnel
unfolding from_match
parse_tunnel_spec spec = from_match spec (find_submatch spec)

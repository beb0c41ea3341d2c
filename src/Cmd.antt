-- ===== src/Cmd.antt =====
-- cmd/root.go: `Execute` up to the start of the mode, and `parsePositional`. The command line is
-- parsed by the package pflag, which is a parameter: `parse_flags` gives the settings that the
-- flags make, in the order in which they stand, and the arguments that are left.
pub mod Positional
pub mod Checked
pub mod Implied
use gonc.Prelude.{
  ℕ, suc, List, [], ◌∷◌, ◌++◌, Option, none, some, Bool, true, false, ◌&&◌, ◌||◌, not,
  if◌then◌else◌,
}
use gonc.Prelude.Int.{ℤ, pos, ltb_ℤ, is_zero, ◌+ℤ◌}
use gonc.Prelude.Int64.{mul_int64}
use gonc.Prelude.Result.{Result, ok, err, ◌>>=◌, map_err}
use gonc.Text.{Str, is_empty}
use gonc.Config.{Config, zero_config}
use gonc.Config.Environment.{Environment, load_from_env, second}
use gonc.Config.Ports.{PortRange, PortError, parse_port_spec}
use gonc.Config.TunnelSpec.{Tunnel, TunnelError, parse_tunnel_spec}
use gonc.Config.Validation.{Complaint, validate}
use gonc.Core.{Mode}
use gonc.Core.Builder.{Built, built, not_an_ip, panics, build}

pub data CommandError : Type 0 where
  bad_flags : Str → CommandError
  bad_reverse_tunnel bad_tunnel : TunnelError → CommandError
  bad_listen_port : PortError → CommandError
  bad_port : Str → PortError → CommandError
  too_many_arguments hostname_required port_required : CommandError
  invalid : Complaint → CommandError
  host_is_no_ip : Str → CommandError

-- `parsePositional` in listen mode
positional_listen : Config → List Str → Result CommandError Config
positional_listen c [] = ok c
positional_listen c (h ∷ []) = ok (record c { host = h })
positional_listen c (h ∷ p ∷ []) = do
  pr ← map_err bad_listen_port (parse_port_spec p)
  ok (record c { host = h; port = pr.start })
positional_listen c (h ∷ p ∷ q ∷ rest) = err too_many_arguments

-- the loop `for _, arg := range remaining[1:]`
append_ports : List PortRange → List Str → Result CommandError (List PortRange)
append_ports prs [] = ok prs
append_ports prs (arg ∷ args) = do
  pr ← map_err (bad_port arg) (parse_port_spec arg)
  append_ports (prs ++ pr ∷ []) args

-- `if len(cfg.Ports) > 0 { cfg.Port = cfg.Ports[0].Start }`
first_port : ℤ → List PortRange → ℤ
first_port port [] = port
first_port port (pr ∷ prs) = pr.start

positional_connect : Config → List Str → Result CommandError Config
unfolding append_ports first_port
positional_connect c [] = err hostname_required
positional_connect c (h ∷ []) = err port_required
positional_connect c (h ∷ p ∷ args) = do
  prs ← append_ports c.ports (p ∷ args)
  ok (record c { host = h; ports = prs; port = first_port c.port prs })

-- `parsePositional`
unfoldable pub parse_positional : Config → List Str → Result CommandError Config
unfolding positional_listen positional_connect
parse_positional c remaining =
    if c.listen then positional_listen c remaining else positional_connect c remaining

-- The flags that `Execute` registers, one constructor each, with the value that a use of it sets;
-- `verbose` adds one, and `verbose_is` is --verbose=N, which sets the count.
pub data Setting : Type 0 where
  listen udp no_dns keep_open zero_io ssh_password ssh_agent strict_hostkey : Bool → Setting
  gateway_ports_check auto_reconnect dry_run version help : Bool → Setting
  port timeout tunnel_local_port remote_port keep_alive : ℤ → Setting
  exec command tunnel ssh_key known_hosts reverse_tunnel remote_bind_address : Str → Setting
  verbose : Setting
  verbose_is : ℤ → Setting

-- The variables that the flags are bound to.
pub record Flags : Type 0 where
  pub config : Config
  pub timeout_sec : ℤ
  pub show_version : Bool
  pub show_help : Bool

set_flag : Flags → Setting → Flags
unfolding ◌+ℤ◌
set_flag f (listen b) = record f { config = record f.config { listen = b } }
set_flag f (udp b) = record f { config = record f.config { udp = b } }
set_flag f (no_dns b) = record f { config = record f.config { no_dns = b } }
set_flag f (keep_open b) = record f { config = record f.config { keep_open = b } }
set_flag f (zero_io b) = record f { config = record f.config { zero_io = b } }
set_flag f (ssh_password b) = record f { config = record f.config { ssh_password = b } }
set_flag f (ssh_agent b) = record f { config = record f.config { use_ssh_agent = b } }
set_flag f (strict_hostkey b) = record f { config = record f.config { strict_host_key = b } }
set_flag f (gateway_ports_check b) = record f {
  config = record f.config { check_gateway_ports = b };
}
set_flag f (auto_reconnect b) = record f { config = record f.config { auto_reconnect = b } }
set_flag f (dry_run b) = record f { config = record f.config { dry_run = b } }
set_flag f (version b) = record f { show_version = b }
set_flag f (help b) = record f { show_help = b }
set_flag f (port n) = record f { config = record f.config { local_port = n } }
set_flag f (timeout n) = record f { timeout_sec = n }
set_flag f (tunnel_local_port n) = record f { config = record f.config { tunnel_local_port = n } }
set_flag f (remote_port n) = record f { config = record f.config { remote_port = n } }
set_flag f (keep_alive n) = record f { config = record f.config { keep_alive_interval = n } }
set_flag f (exec s) = record f { config = record f.config { execute = s } }
set_flag f (command s) = record f { config = record f.config { command = s } }
set_flag f (tunnel s) = record f { config = record f.config { tunnel_spec = s } }
set_flag f (ssh_key s) = record f { config = record f.config { ssh_key_path = s } }
set_flag f (known_hosts s) = record f { config = record f.config { known_hosts_path = s } }
set_flag f (reverse_tunnel s) = record f { config = record f.config { reverse_tunnel_spec = s } }
set_flag f (remote_bind_address s) = record f {
  config = record f.config { remote_bind_address = s };
}
set_flag f verbose = record f { config = record f.config { verbose = f.config.verbose +ℤ pos 1 } }
set_flag f (verbose_is n) = record f { config = record f.config { verbose = n } }

set_flags : Flags → List Setting → Flags
unfolding set_flag
set_flags f [] = f
set_flags f (s ∷ ss) = set_flags (set_flag f s) ss

-- The registration of the flags writes their defaults.
abbrev pub registered : Config
registered = record zero_config { keep_alive_interval = pos 30 }

-- what `fs.Parse` leaves behind
pub record Parsed : Type 0 where
  pub settings : List Setting
  pub remaining : List Str

unfoldable pub with_timeout : Flags → Config
unfolding mul_int64
with_timeout f =
    if ltb_ℤ (pos 0) f.timeout_sec
    then record f.config { timeout = mul_int64 f.timeout_sec second }
    else f.config

-- `if user == "" { user = tunnel.DefaultUsername() }`
or_default : Str → Str → Str
or_default default_user user = if is_empty user then default_user else user

enable_reverse : Str → Config → Tunnel → Config
unfolding or_default
enable_reverse default_user c t = record c {
  reverse_tunnel_enabled = true;
  reverse_tunnel_user = or_default default_user t.user;
  reverse_tunnel_host = t.host;
  reverse_tunnel_port = t.port;
  listen = true;
  local_port =
      if is_zero c.local_port && ltb_ℤ (pos 0) c.remote_port then c.remote_port else c.local_port;
}

-- the block "reverse tunnel spec"
unfoldable pub reverse_spec : Str → Config → Result CommandError Config
unfolding enable_reverse
reverse_spec default_user c =
    if is_empty c.reverse_tunnel_spec
    then ok c
    else map_err bad_reverse_tunnel (parse_tunnel_spec c.reverse_tunnel_spec) >>= λ t.
        ok (enable_reverse default_user c t)

enable_tunnel : Str → Config → Tunnel → Config
unfolding or_default
enable_tunnel default_user c t = record c {
  tunnel_enabled = true;
  tunnel_user = or_default default_user t.user;
  tunnel_host = t.host;
  tunnel_port = t.port;
}

-- the block "tunnel spec"
unfoldable pub tunnel_spec : Str → Config → Result CommandError Config
unfolding enable_tunnel
tunnel_spec default_user c =
    if is_empty c.tunnel_spec
    then ok c
    else map_err bad_tunnel (parse_tunnel_spec c.tunnel_spec) >>= λ t.
        ok (enable_tunnel default_user c t)

unfoldable pub check : Config → Option Complaint → Result CommandError Config
check c none = ok c
check c (some e) = err (invalid e)

-- The configuration from the flags to the end of the block "validate".
unfoldable pub resolve : Str → Flags → List Str → Result CommandError Config
resolve default_user f remaining = do
  c ← reverse_spec default_user (with_timeout f)
  d ← parse_positional c remaining
  e ← tunnel_spec default_user d
  check e (validate e)

-- How `Execute` ends: with an error, after the usage, the version or the report of a dry run, or
-- with the start of a mode. `panicked` is the panic of `AllPorts`, the only
-- one that the model can tell: `make` with a negative capacity.
pub data Outcome : Type 0 where
  failed : CommandError → Outcome
  usage shows_version : Outcome
  dry_run_valid : Config → Outcome
  runs : Config → Mode → Outcome
  panicked : Outcome

from_built : Config → Built → Outcome
from_built c (built m) = runs c m
from_built c (not_an_ip host) = failed (host_is_no_ip host)
from_built c panics = panicked

no_arguments : List Str → Bool
no_arguments [] = true
no_arguments (a ∷ args) = false

module _ (parse_ip : Str → Bool) where
  finish : Result CommandError Config → Outcome
  unfolding from_built
  finish (err e) = failed e
  finish (ok c) = if c.dry_run then dry_run_valid c else from_built c (build parse_ip c)

  start : Str → Environment → List Str → Result Str Parsed → Outcome
  unfolding finish set_flags resolve no_arguments
  start default_user env args (err e) = failed (bad_flags e)
  start default_user env args (ok p) =
      let f =
        set_flags
          (record {
            config = load_from_env env registered;
            timeout_sec = pos 0;
            show_version = false;
            show_help = false;
          })
          p.settings in
      if f.show_help || no_arguments args
      then usage
      else if f.show_version
      then shows_version
      else finish (resolve default_user f p.remaining)

  -- `Execute`
  unfoldable pub execute : (List Str → Result Str Parsed) → Str → Environment → List Str → Outcome
  unfolding start
  execute parse_flags default_user env args = start default_user env args (parse_flags args)

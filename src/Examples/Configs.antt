-- ===== src/Examples/Configs.antt =====
-- Ports, tunnel specifications, validation and the environment.
use gonc.Prelude.{◌≡◌, ◌≢◌, ◌↔◌, refl, [], ◌∷◌, ◌++◌, none, some, true, arith, All}
use gonc.Prelude.Int.{pos}
use gonc.Prelude.Result.{ok, err}
use gonc.Text.{Str, codes, contains, atoi, before, behind, read_digits}
use gonc.Text.Split.{Lacks}
use gonc.Config.{Config, zero_config}
use gonc.Config.Ports.{PortRange, parse_port_spec, bad_range}
use gonc.Config.Ports.Parsing.{InRange, print_range, parse_port_spec-print_range}
use gonc.Config.TunnelSpec.{Match, Tunnel, find_submatch, parse_tunnel_spec}
use gonc.Config.TunnelSpec.Grammar.{Spells, find_submatch-Spells}
use gonc.Config.TunnelSpec.Accepted.{
  IsTunnel, parse_tunnel_spec-IsTunnel, print_tunnel, parse_tunnel_spec-print_tunnel,
}
use gonc.Config.Validation.{validate}
use gonc.Config.Validation.Consistent.{IsConsistent, validate_iff}
use gonc.Tunnel.User.{SystemUser}

abbrev web_ports : PortRange
web_ports = record { start = pos 80; end = pos 82 }

parses_range : parse_port_spec (codes "80-82") ≡ ok web_ports
unfolding parse_port_spec contains atoi before read_digits behind
parses_range = refl

refuses_inverted : parse_port_spec (codes "90-80") ≡ err (bad_range (pos 90) (pos 80))
unfolding parse_port_spec contains atoi before read_digits behind
refuses_inverted = refl

parse_port_spec-print_range_example :
    parse_port_spec (print_range 80 82) ≡ ok (record { start = pos 80; end = pos 82 })
parse_port_spec-print_range_example =
    parse_port_spec-print_range 80 82 (omega arith) (omega arith) (omega arith)

web_ports-InRange : All InRange (web_ports ∷ [])
web_ports-InRange =
    (record { positive = omega arith; ordered = omega arith; bounded = omega arith }, tt)

abbrev gateway : Str
gateway = codes "ops@gw:2222"

abbrev gateway_match : Match
gateway_match = record { user = codes "ops"; host = codes "gw"; port = codes "2222" }

abbrev gateway_tunnel : Tunnel
gateway_tunnel = record { user = codes "ops"; host = codes "gw"; port = pos 2222 }

finds_gateway : find_submatch gateway ≡ some gateway_match
unfolding find_submatch contains before behind
finds_gateway = refl

parses_gateway : parse_tunnel_spec gateway ≡ ok gateway_tunnel
unfolding parse_tunnel_spec find_submatch contains before behind atoi read_digits
parses_gateway = refl

abbrev bare_tunnel : Tunnel
bare_tunnel = record { user = []; host = codes "gw"; port = pos 22 }

parses_bare : parse_tunnel_spec (codes "gw") ≡ ok bare_tunnel
unfolding parse_tunnel_spec find_submatch contains before
parses_bare = refl

gateway-Spells : Spells gateway gateway_match
unfolding find_submatch contains before behind
gateway-Spells = find_submatch-Spells gateway refl

named : codes "ops" ≢ []
named = cc

parse_tunnel_spec-IsTunnel_example : IsTunnel gateway gateway_tunnel
parse_tunnel_spec-IsTunnel_example = parse_tunnel_spec-IsTunnel gateway parses_gateway

user-Lacks_at : Lacks b'@' (codes "ops")
unfolding contains
user-Lacks_at = refl

user-Lacks_colon : Lacks b':' (codes "ops")
unfolding contains
user-Lacks_colon = refl

host-Lacks_colon : Lacks b':' (codes "gw")
unfolding contains
host-Lacks_colon = refl

host_given : codes "gw" ≢ []
host_given = cc

parse_tunnel_spec-print_tunnel_example :
    parse_tunnel_spec (print_tunnel (codes "ops") (codes "gw") 2222)
    ≡ ok (record { user = codes "ops"; host = codes "gw"; port = pos 2222 })
parse_tunnel_spec-print_tunnel_example =
    parse_tunnel_spec-print_tunnel (codes "ops") (codes "gw") 2222 named user-Lacks_at host_given
      host-Lacks_colon (omega arith) (omega arith)

abbrev pub listener : Config
listener = record zero_config { listen = true; local_port = pos 8080 }

validate_iff_example : (validate listener ≡ none) ↔ IsConsistent listener
validate_iff_example = validate_iff listener

abbrev both_tunnels : Config
both_tunnels = record listener {
  tunnel_enabled = true;
  tunnel_host = codes "gw";
  reverse_tunnel_enabled = true;
  reverse_tunnel_host = codes "gw";
  remote_port = pos 9000;
}

abbrev windows : SystemUser
windows = record {
  current = some (codes "CORP" ++ b'\\' ∷ codes "ops");
  user = [];
  username = codes "x";
}

Lacks-backslash : Lacks b'\\' (codes "ops")
unfolding contains
Lacks-backslash = refl

-- ===== src/Config/Validation.antt =====
-- config/config.go: `Validate`; an error stands for its `ConfigError` by the place that returns it.
pub mod Consistent
pub mod Reported
use gonc.Prelude.{
  ℕ, List, [], ◌∷◌, Option, none, some, Bool, true, false, ◌&&◌, ◌||◌, not, if◌then◌else◌,
}
use gonc.Prelude.Int.{ℤ, pos, ltb_ℤ, is_zero}
use gonc.Text.{is_empty}
use gonc.Config.{Config}
use gonc.Config.Ports.{PortRange}

-- one constructor for each `return &ncerr.ConfigError{…}`, in the order of the source
pub data Complaint : Type 0 where
  listen_without_port listen_with_zero_io listen_with_tunnel : Complaint
  host_required port_required : Complaint
  reverse_without_listen remote_port_required : Complaint
  remote_port_out_of_range : ℤ → Complaint
  reverse_host_required tunnel_and_reverse reverse_with_udp : Complaint
  exec_and_command udp_with_tunnel tunnel_host_required : Complaint

no_ports : List PortRange → Bool
no_ports [] = true
no_ports (r ∷ rs) = false

-- The next check runs if this one passes.
infixr 30 ◌then_check◌
abbrev ◌then_check◌ : Option Complaint → Option Complaint → Option Complaint
some e then_check rest = some e
none then_check rest = rest

check_mode : Config → Option Complaint
unfolding no_ports
check_mode c =
    if c.listen
    then (if is_zero c.local_port
        then some listen_without_port
        else if c.zero_io
        then some listen_with_zero_io
        else if c.tunnel_enabled
        then some listen_with_tunnel
        else none)
    else if is_empty c.host && not c.reverse_tunnel_enabled
    then some host_required
    else if is_zero c.port && (no_ports c.ports && not c.reverse_tunnel_enabled)
    then some port_required
    else none

check_reverse : Config → Option Complaint
check_reverse c =
    if not c.reverse_tunnel_enabled
    then none
    else if not c.listen
    then some reverse_without_listen
    else if is_zero c.remote_port
    then some remote_port_required
    else if ltb_ℤ c.remote_port (pos 1) || ltb_ℤ (pos 65535) c.remote_port
    then some (remote_port_out_of_range c.remote_port)
    else if is_empty c.reverse_tunnel_host
    then some reverse_host_required
    else if c.tunnel_enabled
    then some tunnel_and_reverse
    else if c.udp
    then some reverse_with_udp
    else none

check_common : Config → Option Complaint
check_common c =
    if not (is_empty c.execute) && not (is_empty c.command)
    then some exec_and_command
    else if c.udp && c.tunnel_enabled
    then some udp_with_tunnel
    else if c.tunnel_enabled && is_empty c.tunnel_host
    then some tunnel_host_required
    else none

unfoldable pub validate : Config → Option Complaint
unfolding check_mode check_reverse check_common
validate c = check_mode c then_check (check_reverse c then_check check_common c)

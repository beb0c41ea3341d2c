-- ===== src/Config.antt =====
-- config/config.go: the `Config` of a session. The children model the rest of the package:
-- `Ports` the port specifications, `TunnelSpec` the tunnel specifications, `Validation` the
-- method `Validate`, `Environment` the loader of config/loader.go.
pub mod Ports
pub mod TunnelSpec
pub mod Validation
pub mod Environment
use gonc.Prelude.{ℕ, List, Bool, false, []}
use gonc.Prelude.Int.{ℤ, pos}
use gonc.Text.{Str}
use Ports.{PortRange}

-- Durations are int64 nanoseconds in the source.
pub record Config : Type 0 where
  pub host : Str
  pub port : ℤ
  pub ports : List PortRange
  pub local_port : ℤ
  pub listen : Bool
  pub udp : Bool
  pub timeout : ℤ
  pub keep_open : Bool
  pub no_dns : Bool
  pub tunnel_spec : Str
  pub tunnel_enabled : Bool
  pub tunnel_user : Str
  pub tunnel_host : Str
  pub tunnel_port : ℤ
  pub ssh_key_path : Str
  pub ssh_password : Bool
  pub use_ssh_agent : Bool
  pub strict_host_key : Bool
  pub known_hosts_path : Str
  pub tunnel_local_port : ℤ
  pub reverse_tunnel_spec : Str
  pub reverse_tunnel_enabled : Bool
  pub reverse_tunnel_user : Str
  pub reverse_tunnel_host : Str
  pub reverse_tunnel_port : ℤ
  pub remote_port : ℤ
  pub remote_bind_address : Str
  pub check_gateway_ports : Bool
  pub keep_alive_interval : ℤ
  pub auto_reconnect : Bool
  pub execute : Str
  pub command : Str
  pub verbose : ℤ
  pub zero_io : Bool
  pub dry_run : Bool

-- `&config.Config{}`
abbrev pub zero_config : Config
zero_config = record {
  host = [];
  port = pos 0;
  ports = [];
  local_port = pos 0;
  listen = false;
  udp = false;
  timeout = pos 0;
  keep_open = false;
  no_dns = false;
  tunnel_spec = [];
  tunnel_enabled = false;
  tunnel_user = [];
  tunnel_host = [];
  tunnel_port = pos 0;
  ssh_key_path = [];
  ssh_password = false;
  use_ssh_agent = false;
  strict_host_key = false;
  known_hosts_path = [];
  tunnel_local_port = pos 0;
  reverse_tunnel_spec = [];
  reverse_tunnel_enabled = false;
  reverse_tunnel_user = [];
  reverse_tunnel_host = [];
  reverse_tunnel_port = pos 0;
  remote_port = pos 0;
  remote_bind_address = [];
  check_gateway_ports = false;
  keep_alive_interval = pos 0;
  auto_reconnect = false;
  execute = [];
  command = [];
  verbose = pos 0;
  zero_io = false;
  dry_run = false;
}

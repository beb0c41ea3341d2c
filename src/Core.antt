-- ===== src/Core.antt =====
-- internal/core: the modes of gonc. The children: `Builder` is `Build` of internal/core/builder.go,
-- `Scan`, `Listen` and `Connect` are the runs of three modes.
pub mod Builder
pub mod Scan
pub mod Listen
pub mod Connect
pub mod Reverse
use gonc.Prelude.{ℕ, List, Bool, [], false}
use gonc.Prelude.Int.{ℤ}
use gonc.Text.{Str}
use gonc.Tunnel.{SshConfig}

pub data Network : Type 0 where
  tcp udp : Network

-- The implementations of `transport.Dialer` (internal/transport), with their fields.
pub data Dialer : Type 0 where
  tcp_dialer udp_dialer : (timeout local_port : ℤ) → Dialer
  ssh_dialer : SshConfig → Dialer

-- The implementations of `capability.Capability` (internal/capability).
pub data Capability : Type 0 where
  exec : (program command : Str) → Capability
  relay : Capability

pub record ConnectMode : Type 0 where
  pub dialer : Dialer
  pub capability : Capability
  pub network : Network
  pub address : Str

pub record ListenMode : Type 0 where
  pub address : Str
  pub network : Network
  pub keep_open : Bool
  pub timeout : ℤ
  pub capability : Capability

pub record ScanMode : Type 0 where
  pub dialer : Dialer
  pub host : Str
  pub ports : List ℤ
  pub timeout : ℤ
  pub verbose : ℤ

pub record ReverseTunnelMode : Type 0 where
  pub ssh_config : SshConfig
  pub remote_bind_address : Str
  pub remote_port : ℤ
  pub local_address : Str
  pub local_port : ℤ
  pub check_gateway_ports : Bool
  pub keep_alive_interval : ℤ
  pub auto_reconnect : Bool

pub data Mode : Type 0 where
  connect : ConnectMode → Mode
  listen : ListenMode → Mode
  scan : ScanMode → Mode
  reverse_tunnel : ReverseTunnelMode → Mode

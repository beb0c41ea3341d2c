-- ===== src/Tunnel.antt =====
-- tunnel: the SSH tunnels. `SshConfig` is the struct `SSHConfig` of tunnel/ssh.go.
pub mod Action
pub mod Auth
pub mod Client
pub mod Reverse
pub mod Manager
pub mod Ssh
pub mod User
use gonc.Prelude.{Bool}
use gonc.Prelude.Int.{ℤ}
use gonc.Text.{Str}

pub record SshConfig : Type 0 where
  pub user : Str
  pub host : Str
  pub port : ℤ
  pub key_path : Str
  pub prompt_pass : Bool
  pub use_agent : Bool
  pub strict_host_key : Bool
  pub known_hosts : Str
  pub conn_timeout : ℤ
  pub allow_keyboard_interactive : Bool

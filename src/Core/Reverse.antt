-- ===== src/Core/Reverse.antt =====
-- internal/core/reverse.go: `ReverseTunnelMode.Run`. `dial` is `dialSSH`; `waits` is `Wait` and
-- `closes` the deferred `Close`, whose error is dropped.
use gonc.Prelude.{◌≡◌, Option, none, some, true}
use gonc.Text.{codes}
use gonc.Errors.{Error}
use gonc.Tunnel.{SshConfig}
use gonc.Tunnel.Action.{Action}
use gonc.Tunnel.Auth.{saying}
use gonc.Tunnel.Reverse.{ReverseTunnel, ReverseTunnelConfig, Gateway, new_reverse_tunnel, start}
use gonc.Tunnel.Reverse.Checked.{Handling, start-checked}
use gonc.Core.{ReverseTunnelMode}

-- `rtCfg`
config_of : ReverseTunnelMode → ReverseTunnelConfig
config_of m = record {
  ssh_config = m.ssh_config;
  remote_bind_address = m.remote_bind_address;
  remote_port = m.remote_port;
  local_address = m.local_address;
  local_port = m.local_port;
  check_gateway_ports = m.check_gateway_ports;
  keep_alive_interval = m.keep_alive_interval;
  auto_reconnect = m.auto_reconnect;
}

module _ {W Client Incoming TestListener : Type 0}
    (gateway : Gateway W Client Incoming TestListener) (dial : SshConfig → Action W Client)
    (waits closes : ReverseTunnel Client Incoming → W → W) where
  after_start : Option Error × ReverseTunnel Client Incoming × W → Option Error × W
  after_start (some e, rt, w) = (some (saying (codes "reverse tunnel") e), w)
  after_start (none, rt, w) = (none, closes rt (waits rt w))

  -- `Run`
  pub run_reverse : ReverseTunnelMode → W → Option Error × W
  unfolding after_start config_of
  run_reverse m w = after_start (start gateway dial (new_reverse_tunnel (config_of m)) w)

  after_start-fails :
      (p : Option Error × ReverseTunnel Client Incoming × W) (e : Error)
      → p.0 ≡ some e
      → (after_start p).0 ≡ some (saying (codes "reverse tunnel") e)
  unfolding after_start
  after_start-fails (some x, rt, w) e h = cc
  after_start-fails (none, rt, w) e h = absurd (cc)

  -- A mode that checks the gateway's ports never runs: it returns an error at once, if package ssh
  -- handles channels as it documents.
  pub run_reverse-checked :
      (Handled : Client → W → Type 0)
      → Handling gateway dial Handled
      → (m : ReverseTunnelMode) (w : W) → m.check_gateway_ports ≡ true
      → (e : Error) × ((run_reverse m w).0 ≡ some e)
  unfolding run_reverse config_of
  run_reverse-checked Handled handling m w c =
      let (e, h) = start-checked gateway dial Handled handling (config_of m) w c in
      (saying (codes "reverse tunnel") e, after_start-fails _ e h)

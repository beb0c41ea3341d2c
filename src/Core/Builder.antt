-- ===== src/Core/Builder.antt =====
-- internal/core/builder.go: `Build` and the builders of the modes. `parse_ip` is `net.ParseIP`,
-- which answers whether a text is an IP address; the logger is left out.
pub mod Validated
use gonc.Prelude.{
  ℕ, List, [], ◌∷◌, ◌++◌, Option, none, some, Bool, true, false, ◌&&◌, ◌||◌, not, if◌then◌else◌,
}
use gonc.Prelude.Int.{ℤ, pos, ltb_ℤ, is_zero}
use gonc.Prelude.Int64.{mul_int64}
use gonc.Text.{Str, codes, is_empty, itoa, join_host_port}
use gonc.Config.{Config}
use gonc.Config.Environment.{second}
use gonc.Config.Ports.{all_ports}
use gonc.Tunnel.{SshConfig}
use gonc.Core.{
  Network, tcp, udp, Dialer, tcp_dialer, udp_dialer, ssh_dialer, Capability, exec, relay,
  ConnectMode, ListenMode, ScanMode, ReverseTunnelMode, Mode, connect, listen, scan, reverse_tunnel,
}

-- `not_an_ip`: "cannot parse … as an IP address (DNS disabled with -n)". `panics` stands for the
-- panic of `AllPorts` on an inverted range.
pub data Built : Type 0 where
  built : Mode → Built
  not_an_ip : Str → Built
  panics : Built

-- `util.FormatAddr`
pub format_addr : Str → ℤ → Str
format_addr host port = join_host_port host (itoa port)

-- `localPortForConnect`
pub local_port_for_connect : Config → ℤ
local_port_for_connect c = if c.listen then pos 0 else c.local_port

-- `tunnel.NewSSHTunnel` fills in the port and the timeout of the configuration that it is given.
ssh_defaults : SshConfig → SshConfig
ssh_defaults s = record s {
  port = if is_zero s.port then pos 22 else s.port;
  conn_timeout = if is_zero s.conn_timeout then pos 30_000_000_000 else s.conn_timeout;
}

-- `buildDialer`
pub build_dialer : Config → Dialer
unfolding ssh_defaults local_port_for_connect
build_dialer c =
    if c.tunnel_enabled
    then ssh_dialer (
        ssh_defaults (record {
          user = c.tunnel_user;
          host = c.tunnel_host;
          port = c.tunnel_port;
          key_path = c.ssh_key_path;
          prompt_pass = c.ssh_password;
          use_agent = c.use_ssh_agent;
          strict_host_key = c.strict_host_key;
          known_hosts = c.known_hosts_path;
          conn_timeout = pos 0;
          allow_keyboard_interactive = false;
        }))
    else if c.udp
    then udp_dialer c.timeout (local_port_for_connect c)
    else tcp_dialer c.timeout (local_port_for_connect c)

-- `buildCapability`
unfoldable pub build_capability : Config → Capability
build_capability c =
    if not (is_empty c.execute) || not (is_empty c.command) then exec c.execute c.command else relay

network_of : Config → Network
network_of c = if c.udp then udp else tcp

listen_of : Config → Mode
unfolding network_of
listen_of c = listen (record {
  address = b':' ∷ itoa c.local_port;
  network = network_of c;
  keep_open = c.keep_open;
  timeout = c.timeout;
  capability = build_capability c;
})

-- `buildListen`
pub build_listen : Config → Built
unfolding listen_of
build_listen c = built (listen_of c)

-- `config.DefaultScanTimeout`
abbrev pub default_scan_timeout : ℤ
default_scan_timeout = pos 3_000_000_000

no_elements : List ℤ → Bool
no_elements [] = true
no_elements (p ∷ ps) = false

scan_ports : ℤ → List ℤ → List ℤ
unfolding no_elements
scan_ports port ports = if no_elements ports && ltb_ℤ (pos 0) port then port ∷ [] else ports

scan_of : Config → List ℤ → Mode
unfolding scan_ports
scan_of c ports = scan (record {
  dialer = build_dialer c;
  host = c.host;
  ports = scan_ports c.port ports;
  timeout = if is_zero c.timeout then default_scan_timeout else c.timeout;
  verbose = c.verbose;
})

scan_with : Config → Option (List ℤ) → Built
unfolding scan_of
scan_with c none = panics
scan_with c (some ports) = built (scan_of c ports)

reverse_of : Config → Mode
reverse_of c = reverse_tunnel (record {
  ssh_config = record {
    user = c.reverse_tunnel_user;
    host = c.reverse_tunnel_host;
    port = c.reverse_tunnel_port;
    key_path = c.ssh_key_path;
    prompt_pass = c.ssh_password;
    use_agent = c.use_ssh_agent;
    strict_host_key = c.strict_host_key;
    known_hosts = c.known_hosts_path;
    conn_timeout = pos 0;
    allow_keyboard_interactive = true;
  };
  remote_bind_address = c.remote_bind_address;
  remote_port = c.remote_port;
  local_address = codes "127.0.0.1";
  local_port = c.local_port;
  check_gateway_ports = c.check_gateway_ports;
  keep_alive_interval =
      if ltb_ℤ (pos 0) c.keep_alive_interval then mul_int64 c.keep_alive_interval second else pos 0;
  auto_reconnect = c.auto_reconnect;
})

-- `buildReverseTunnel`
pub build_reverse_tunnel : Config → Built
unfolding reverse_of
build_reverse_tunnel c = built (reverse_of c)

connect_of : Config → Mode
unfolding network_of
connect_of c = connect (record {
  dialer = build_dialer c;
  capability = build_capability c;
  network = network_of c;
  address = format_addr c.host c.port;
})

module _ (parse_ip : Str → Bool) where
  -- `buildConnect`
  pub build_connect : Config → Built
  unfolding connect_of
  build_connect c =
      if c.no_dns && not (parse_ip c.host) then not_an_ip c.host else built (connect_of c)

  -- `buildScan`
  pub build_scan : Config → Built
  unfolding scan_with
  build_scan c =
      if c.no_dns && not (parse_ip c.host)
      then not_an_ip c.host
      else scan_with c (all_ports c.ports)

  -- `Build`
  pub build : Config → Built
  unfolding build_reverse_tunnel build_listen build_scan build_connect
  build c =
      if c.reverse_tunnel_enabled
      then build_reverse_tunnel c
      else if c.listen
      then build_listen c
      else if c.zero_io
      then build_scan c
      else build_connect c

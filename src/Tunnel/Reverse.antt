-- ===== src/Tunnel/Reverse.antt =====
-- tunnel/reverse_tunnel.go (`NewReverseTunnel`, `Start`), tunnel/reverse_dial.go and the constructor
-- of tunnel/reverse_listener.go: how a reverse tunnel comes up. The goroutine of `dialSSH` that runs
-- `drainServerMessages` only prints what the server sends, until the client is closed; that it has
-- been started is kept.
pub mod Forward
pub mod Bridge
pub mod Reconnect
pub mod Recorded
pub mod Running
pub mod Started
pub mod Checked
pub mod Close
pub mod Dialled
pub mod Listener
use gonc.Prelude.{
  ℕ, suc, ◌%◌, ◌^◌, ◌++◌, ◌∷◌, [], List, Option, none, some, Bool, true, false, if◌then◌else◌,
}
use gonc.Prelude.Int.{ℤ, pos, ltb_ℤ}
use gonc.Prelude.Int64.{pattern_of}
use gonc.Prelude.Result.{Result, ok, err}
use gonc.Text.{Str, codes, is_empty, itoa}
use gonc.Errors.{Error, plain}
use gonc.Tunnel.{SshConfig}
use gonc.Tunnel.Action.{Action, pure, fail, explain, ◌>>=◌}
use gonc.Tunnel.Auth.{Machine, saying, build_auth_methods, host_key_callback}
use gonc.Tunnel.Client.{ClientConfig, Library, handshake}
use gonc.Tunnel.Ssh.{address_of}

pub record ReverseTunnelConfig : Type 0 where
  pub ssh_config : SshConfig
  pub remote_bind_address : Str
  pub remote_port : ℤ
  pub local_address : Str
  pub local_port : ℤ
  pub check_gateway_ports : Bool
  pub keep_alive_interval : ℤ
  pub auto_reconnect : Bool

-- `channelForwardMsg`, with a uint32 for the port
pub record ChannelForwardMsg : Type 0 where
  pub addr : Str
  pub port : ℕ

-- `sshForwardListener`; `closed` says that `once` has run and `done` is closed.
pub record SshForwardListener (Client Incoming : Type 0) : Type 0 where
  pub client : Client
  pub bind_addr : Str
  pub bind_port : ℕ
  pub incoming : Incoming
  pub closed : Bool

-- the goroutines that the tunnel starts; `drains_messages` is that of `dialSSH`
pub data Goroutine : Type 0 where
  drains_messages closes_at_end keepalive_loop accept_loop : Goroutine

-- The fields that change, and what has been started. `cancelled` says that `rt.cancel` was called.
pub record ReverseTunnel (Client Incoming : Type 0) : Type 0 where
  pub config : ReverseTunnelConfig
  pub client : Option Client
  pub listener : Option (SshForwardListener Client Incoming)
  pub cancelled : Bool
  pub closed : Bool
  pub wait_group : ℕ
  pub goroutines : List Goroutine

-- The rest of package ssh that a reverse tunnel uses. `handle_channel_open` gives none for nil;
-- `listen` is the listener of package ssh, which the check of the gateway opens and closes.
pub record Gateway (W Client Incoming TestListener : Type 0) : Type 0 where
  pub handle_channel_open : Client → Str → W → Option Incoming × W
  pub send_request : Client → Str → Str → Action W Bool
  pub marshal : ChannelForwardMsg → Str
  pub listen : Client → Str → Action W TestListener
  pub close_listener : TestListener → W → W
  pub close_client : Client → W → W
  pub listen_local : Str → Action W ℤ

-- `uint32(n)`
abbrev pub uint32 : ℤ → ℕ
uint32 n = pattern_of n % 2 ^ 32

module _ {Client Incoming : Type 0} where
  -- `NewReverseTunnel`
  unfoldable pub new_reverse_tunnel : ReverseTunnelConfig → ReverseTunnel Client Incoming
  new_reverse_tunnel cfg = record {
    config = record cfg {
      local_address = if is_empty cfg.local_address then codes "127.0.0.1" else cfg.local_address;
    };
    client = none;
    listener = none;
    cancelled = false;
    closed = false;
    wait_group = 0;
    goroutines = [];
  }

module _ {W Signer AgentConn HostKeys TcpConn Client : Type 0}
    (machine : Machine W Signer AgentConn HostKeys)
    (library : Library W Signer AgentConn HostKeys TcpConn Client) where
  -- `dialSSH`
  unfoldable pub dial_ssh : SshConfig → Action W Client
  unfolding handshake host_key_callback build_auth_methods
  dial_ssh cfg = do
    auth ← explain (saying (codes "auth")) (build_auth_methods machine cfg)
    callback ← explain (saying (codes "host-key callback")) (host_key_callback machine cfg)
    conn ←
        explain (saying (codes "TCP dial " ++ address_of cfg))
          (library.dial_context (address_of cfg))
    handshake library conn (address_of cfg)
        (record {
          user = cfg.user;
          auth = auth;
          host_key_callback = callback;
          timeout = cfg.conn_timeout;
          banner_callback = true;
        })
        (saying (codes "SSH handshake " ++ address_of cfg))

module _ {W Client Incoming TestListener : Type 0}
    (gateway : Gateway W Client Incoming TestListener) where
  open gateway use {
    handle_channel_open, send_request, marshal, listen, close_listener, close_client, listen_local,
  }

  -- `util.FindFreePort`: `listen_local` opens a listener at the address, asks it for its port and
  -- closes it
  find_free_port : Action W ℤ
  find_free_port = explain (saying (codes "finding free port")) (listen_local (codes "127.0.0.1:0"))

  closes_test : TestListener → Action W (Unit {0})
  closes_test ln w = (ok tt, close_listener ln w)

  -- `validateGatewayPorts`
  validate_gateway_ports : Str → Client → Action W (Unit {0})
  unfolding find_free_port closes_test
  validate_gateway_ports host client = do
    port ← explain (saying (codes "finding test port")) find_free_port
    ln ←
        explain
          (saying (
            codes "GatewayPorts appears disabled on "
            ++ host
            ++ codes
                " - set \"GatewayPorts yes\" or \"GatewayPorts clientspecified\" in sshd_config"))
          (listen client (codes "0.0.0.0:" ++ itoa port))
    closes_test ln

  if_granted : Client → Str → ℤ → Incoming → Bool → Action W (SshForwardListener Client Incoming)
  if_granted client addr port incoming true = pure (record {
    client = client;
    bind_addr = addr;
    bind_port = uint32 port;
    incoming = incoming;
    closed = false;
  })
  if_granted client addr port incoming false =
      fail (plain (codes "tcpip-forward request denied by peer"))

  forwards : Client → Str → ℤ → Option Incoming → Action W (SshForwardListener Client Incoming)
  unfolding if_granted
  forwards client addr port none = fail (plain (codes "forwarded-tcpip handler already registered"))
  forwards client addr port (some incoming) = do
    granted ←
        send_request client (codes "tcpip-forward")
          (marshal (record { addr = addr; port = uint32 port }))
    if_granted client addr port incoming granted

  -- `listenRemoteForward`
  unfoldable pub listen_remote_forward :
      Client → Str → ℤ → Action W (SshForwardListener Client Incoming)
  unfolding forwards
  listen_remote_forward client addr port w =
      let (incoming, v) = handle_channel_open client (codes "forwarded-tcpip") w in
      forwards client addr port incoming v

  saves : Client → ReverseTunnel Client Incoming → ReverseTunnel Client Incoming
  saves client rt = record rt { client = some client }

  -- what a successful `dialSSH` leaves running
  drains : ReverseTunnel Client Incoming → ReverseTunnel Client Incoming
  drains rt = record rt { goroutines = rt.goroutines ++ drains_messages ∷ [] }

  cancels : ReverseTunnel Client Incoming → ReverseTunnel Client Incoming
  cancels rt = record rt { cancelled = true }

  with_keepalive : ReverseTunnel Client Incoming → ReverseTunnel Client Incoming
  with_keepalive rt =
      let wanted = ltb_ℤ (pos 0) rt.config.keep_alive_interval in
      record rt {
        wait_group = if wanted then suc rt.wait_group else rt.wait_group;
        goroutines = if wanted then rt.goroutines ++ keepalive_loop ∷ [] else rt.goroutines;
      }

  -- the goroutine that closes the listener, the keepalive loop if it is asked for, the accept loop
  launches : ReverseTunnel Client Incoming → ReverseTunnel Client Incoming
  unfolding with_keepalive
  launches rt =
      let watched = record rt { goroutines = rt.goroutines ++ closes_at_end ∷ [] } in
      let kept = with_keepalive watched in
      record kept {
        wait_group = suc kept.wait_group;
        goroutines = kept.goroutines ++ accept_loop ∷ [];
      }

  abbrev remote_address : ReverseTunnelConfig → Str
  remote_address cfg = cfg.remote_bind_address ++ b':' ∷ itoa cfg.remote_port

  after_listen :
      ReverseTunnel Client Incoming
      → Client
      → Result Error (SshForwardListener Client Incoming) × W
      → Option Error × ReverseTunnel Client Incoming × W
  unfolding cancels launches
  after_listen rt client (err e, w) =
      let text = codes "remote listen on " ++ remote_address rt.config in
      (some (saying text e), cancels rt, close_client client w)
  after_listen rt client (ok ln, w) = (none, launches (record rt { listener = some ln }), w)

  after_check :
      ReverseTunnel Client Incoming
      → Client
      → Result Error (Unit {0}) × W
      → Option Error × ReverseTunnel Client Incoming × W
  unfolding after_listen
  after_check rt client (err e, w) = (some e, cancels rt, close_client client w)
  after_check rt client (ok u, w) =
      after_listen rt client
        (listen_remote_forward client rt.config.remote_bind_address rt.config.remote_port w)

  check : ReverseTunnelConfig → Client → Action W (Unit {0})
  unfolding validate_gateway_ports
  check cfg client =
      if cfg.check_gateway_ports then validate_gateway_ports cfg.ssh_config.host client else pure tt

  after_dial :
      ReverseTunnel Client Incoming
      → Result Error Client × W
      → Option Error × ReverseTunnel Client Incoming × W
  unfolding saves drains after_check check
  after_dial rt (err e, w) = (some (saying (codes "SSH connection") e), cancels rt, w)
  after_dial rt (ok client, w) =
      after_check (saves client (drains rt)) client (check rt.config client w)

  -- `Start`, for the call of `dialSSH` that it makes: the error, the tunnel and the world then
  unfoldable pub start :
      (SshConfig → Action W Client)
      → ReverseTunnel Client Incoming
      → W
      → Option Error × ReverseTunnel Client Incoming × W
  unfolding after_dial
  start dial rt w = after_dial rt (dial rt.config.ssh_config w)

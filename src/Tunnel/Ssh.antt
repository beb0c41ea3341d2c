-- ===== src/Tunnel/Ssh.antt =====
-- tunnel/ssh.go: `SSHTunnel`. `connect` and `dial` are whole calls on the world; the sections under
-- the mutex are functions on the tunnel's fields, which other modules interleave.
pub mod Connected
use gonc.Prelude.{Option, none, some, Bool, true, false, ◌&&◌, ◌++◌, ◌∷◌, [], if◌then◌else◌}
use gonc.Prelude.Int.{ℤ, pos, is_zero}
use gonc.Prelude.Result.{Result, ok, err}
use gonc.Text.{Str, codes, itoa}
use gonc.Errors.{Error, plain, cause, wrapped, wrap, wrap_ssh}
use gonc.Tunnel.{SshConfig}
use gonc.Tunnel.Action.{Action, pure, fail, explain, ◌>>=◌}
use gonc.Tunnel.Auth.{Machine, saying, build_auth_methods, host_key_callback}
use gonc.Tunnel.Client.{ClientConfig, Library, handshake}

-- The fields that change; the mutex and the logger are left out.
pub record SshTunnel (Client : Type 0) : Type 0 where
  pub config : SshConfig
  pub client : Option Client
  pub alive : Bool

-- `ErrNotConnected`
abbrev pub err_not_connected : Error
err_not_connected = plain (codes "not connected")

-- `fmt.Sprintf("%s:%d", host, port)`
abbrev pub address_of : SshConfig → Str
address_of cfg = cfg.host ++ b':' ∷ itoa cfg.port

with_port : SshConfig → SshConfig
with_port cfg = if is_zero cfg.port then record cfg { port = pos 22 } else cfg

-- 30 seconds
with_conn_timeout : SshConfig → SshConfig
with_conn_timeout cfg =
    if is_zero cfg.conn_timeout then record cfg { conn_timeout = pos 30000000000 } else cfg

module _ {Client : Type 0} where
  -- `NewSSHTunnel`, which sets the defaults in the caller's configuration
  unfoldable pub new_ssh_tunnel : SshConfig → SshTunnel Client
  unfolding with_port with_conn_timeout
  new_ssh_tunnel cfg = record {
    config = with_conn_timeout (with_port cfg);
    client = none;
    alive = false;
  }

  -- the section of `Connect`
  unfoldable pub stores : Client → SshTunnel Client → SshTunnel Client
  stores client t = record t { client = some client; alive = true }

  if_alive : Bool → Option Client → Option Client
  if_alive true client = client
  if_alive false client = none

  -- the client that `Dial` uses, if it does
  unfoldable pub usable : SshTunnel Client → Option Client
  unfolding if_alive
  usable t = if_alive t.alive t.client

  -- `Close`, apart from the call of `client.Close`
  unfoldable pub shuts : SshTunnel Client → SshTunnel Client
  shuts t = record t { client = none; alive = false }

  -- `IsAlive`
  pub is_alive : SshTunnel Client → Bool
  is_alive t = t.alive

  -- the section of `monitor` behind `client.Wait`
  unfoldable pub gives_up : SshTunnel Client → SshTunnel Client
  gives_up t = record t { alive = false }

module _ {W Signer AgentConn HostKeys TcpConn Client : Type 0}
    (machine : Machine W Signer AgentConn HostKeys)
    (library : Library W Signer AgentConn HostKeys TcpConn Client) where
  -- `Connect` up to its section under the mutex
  pub connect_client : SshConfig → Action W Client
  unfolding handshake host_key_callback build_auth_methods
  connect_client cfg = do
    auth ←
        explain (λ e. wrap_ssh (codes "auth") cfg.host cfg.port (cause e))
          (build_auth_methods machine cfg)
    callback ←
        explain (λ e. wrap_ssh (codes "hostkey") cfg.host cfg.port (cause e))
          (host_key_callback machine cfg)
    conn ←
        explain (λ e. wrap (codes "dial") (address_of cfg) (cause e))
          (library.dial_context (address_of cfg))
    handshake library conn (address_of cfg)
        (record {
          user = cfg.user;
          auth = auth;
          host_key_callback = callback;
          timeout = cfg.conn_timeout;
          banner_callback = false;
        })
        (λ e. wrap_ssh (codes "handshake") cfg.host cfg.port (cause e))

  -- `Connect`: the tunnel changes only when it succeeds; it then starts `monitor`
  unfoldable pub connect : SshTunnel Client → Action W (SshTunnel Client)
  unfolding connect_client
  connect t = do client ← connect_client t.config; pure (stores client t)

module _ {W Client Conn : Type 0} (client_dial : Client → Str → Str → Action W Conn)
    (client_close : Client → W → Option Error × W) where
  dials_with : Str → Str → Option Client → Action W Conn
  dials_with network address none = fail err_not_connected
  dials_with network address (some client) =
      explain (saying (codes "tunnel dial " ++ address)) (client_dial client network address)

  -- `Dial`
  pub dial : SshTunnel Client → Str → Str → Action W Conn
  unfolding dials_with
  dial t network address = dials_with network address (usable t)

  close_client : Option Client → W → Option Error × W
  close_client none w = (none, w)
  close_client (some client) w = client_close client w

  -- `Close`: its error, the tunnel and the world then
  pub close : SshTunnel Client → W → Option Error × SshTunnel Client × W
  unfolding close_client
  close t w = let (e, v) = close_client t.client w in (e, shuts t, v)

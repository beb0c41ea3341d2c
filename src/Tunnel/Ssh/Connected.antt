-- ===== src/Tunnel/Ssh/Connected.antt =====
-- The client of a tunnel whose `Connect` has succeeded.
use gonc.Prelude.{◌≡◌, refl, some, true}
use gonc.Prelude.Result.{ok}
use gonc.Tunnel.{SshConfig}
use gonc.Tunnel.Action.{Post, returns, Post-bind, Post-then, Post-mono, Post-explain, Post-ok}
use gonc.Tunnel.Auth.{Machine}
use gonc.Tunnel.Auth.Offered.{Offered, build_auth_methods-Post}
use gonc.Tunnel.Auth.Trusted.{Trusted, host_key_callback-Trusted}
use gonc.Tunnel.Client.{ClientConfig, Library, handshake-Post}
use gonc.Tunnel.Ssh.{SshTunnel, stores, address_of, connect_client, connect}

module _ {W Signer AgentConn HostKeys TcpConn Client : Type 0}
    (machine : Machine W Signer AgentConn HostKeys)
    (library : Library W Signer AgentConn HostKeys TcpConn Client) where
  -- a client that package ssh has made for the configuration, when the world is `v` then
  pub record Made (cfg : SshConfig) (client : Client) (v : W) : Type 0 where
    pub conn : TcpConn
    pub settings : ClientConfig Signer AgentConn HostKeys
    pub before : W
    pub made : library.new_client conn (address_of cfg) settings before ≡ (ok client, v)
    pub as_user : settings.user ≡ cfg.user
    pub in_time : settings.timeout ≡ cfg.conn_timeout
    pub offered : Offered machine cfg settings.auth
    pub trusted : Trusted machine cfg settings.host_key_callback

  connect_client-Made :
      (cfg : SshConfig) (w : W) → Post (Made cfg) (connect_client machine library cfg w)
  unfolding connect_client
  connect_client-Made cfg w =
      Post-bind (Post-explain _ (build_auth_methods-Post machine cfg w)) λ auth v1 o.
        Post-bind (Post-explain _ (host_key_callback-Trusted machine cfg v1)) λ callback v2 t.
          Post-then _ _ λ conn v3.
            Post-mono
              (λ client v e. record {
                conn = conn;
                settings = _;
                before = v3;
                made = e;
                as_user = refl;
                in_time = refl;
                offered = o;
                trusted = t;
              })
              (handshake-Post library conn (address_of cfg) _ _ v3)

  -- When `Connect` succeeds the tunnel is alive with the client that a handshake has made for its
  -- configuration: with its user, its timeout, the methods it asks for, and the keys of the known
  -- hosts exactly if the configuration is strict.
  pub connect-Made :
      (t : SshTunnel Client) (w : W) {s : SshTunnel Client} {u : W}
      → connect machine library t w ≡ (ok s, u)
      → (client : Client) × (s.alive ≡ true)
        × (s.client ≡ some client)
        × (s.config ≡ t.config)
        × Made t.config client u
  unfolding connect stores
  connect-Made t w h =
      Post-ok
        {P = λ s u.
          (client : Client) × (s.alive ≡ true)
          × (s.client ≡ some client)
          × (s.config ≡ t.config)
          × Made t.config client u}
        (Post-bind (connect_client-Made t.config w)
          λ client v m. returns (client, refl, refl, refl, m))
        h

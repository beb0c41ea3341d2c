-- ===== src/Tunnel/Reverse/Dialled.antt =====
-- The client that `dialSSH` returns.
use gonc.Prelude.{◌≡◌, refl, subst, Option, none, some}
use gonc.Tunnel.{SshConfig}
use gonc.Tunnel.Action.{Post, Post-bind, Post-then, Post-mono, Post-explain, Post-ok}
use gonc.Tunnel.Auth.{Machine}
use gonc.Tunnel.Auth.Offered.{build_auth_methods-Post}
use gonc.Tunnel.Auth.Trusted.{host_key_callback-Trusted}
use gonc.Tunnel.Client.{Library, handshake-Post}
use gonc.Tunnel.Ssh.{address_of}
use gonc.Tunnel.Ssh.Connected.{Made}
use gonc.Errors.{Error}
use gonc.Tunnel.Reverse.{
  ReverseTunnel, ReverseTunnelConfig, Gateway, dial_ssh, new_reverse_tunnel, start,
}
use gonc.Tunnel.Reverse.Started.{Ended, start-Ended}

module _ {W Signer AgentConn HostKeys TcpConn Client : Type 0}
    (machine : Machine W Signer AgentConn HostKeys)
    (library : Library W Signer AgentConn HostKeys TcpConn Client) where
  -- The client of a reverse tunnel is made like that of a tunnel.
  pub dial_ssh-Made :
      (cfg : SshConfig) (w : W) → Post (Made machine library cfg) (dial_ssh machine library cfg w)
  unfolding dial_ssh
  dial_ssh-Made cfg w =
      Post-bind (Post-explain _ (build_auth_methods-Post machine cfg w)) λ auth v1 o.
        Post-bind (Post-explain _ (host_key_callback-Trusted machine cfg v1)) λ callback v2 t.
          Post-then _ _ λ conn v3.
            Post-mono
              (λ client v e. record {
                conn = conn;
                settings = _;
                before = v3;
                made = e;
                as_user = refl;
                in_time = refl;
                offered = o;
                trusted = t;
              })
              (handshake-Post library conn (address_of cfg) _ _ v3)

  module _ {Incoming TestListener : Type 0} (gateway : Gateway W Client Incoming TestListener) where
    Came : SshConfig → Option Error × ReverseTunnel Client Incoming × W → Type 0
    Came cfg (some e, s, u) = Unit
    Came cfg (none, s, u) =
        (client : Client) × (v : W) × (s.client ≡ some client) × Made machine library cfg client v

    ended-Came :
        (cfg : SshConfig) (w : W) (p : Option Error × ReverseTunnel Client Incoming × W)
        → Ended gateway (dial_ssh machine library) cfg w p
        → Came cfg p
    unfolding Came
    ended-Came cfg w (some e, s, u) h = tt
    ended-Came cfg w (none, s, u) (client, ln, v, d, c, l, n, k, g) =
        (client, v, c, Post-ok (dial_ssh-Made cfg w) d)

    came :
        (cfg : SshConfig) {p : Option Error × ReverseTunnel Client Incoming × W}
        {s : ReverseTunnel Client Incoming} {u : W}
        → p ≡ (none, s, u)
        → Came cfg p
        → (client : Client) × (v : W) × (s.client ≡ some client) × Made machine library cfg client v
    unfolding Came
    came cfg {p} {s} {u} e c = subst (Came cfg) e c

    -- When a reverse tunnel comes up, the client that it keeps was made by a handshake like that of a
    -- tunnel: with the user, the timeout and the methods of its configuration, and the keys of the
    -- known hosts exactly if the configuration is strict.
    pub start-Made :
        (cfg : ReverseTunnelConfig) (w : W) {s : ReverseTunnel Client Incoming} {u : W}
        → start gateway (dial_ssh machine library) (new_reverse_tunnel cfg) w ≡ (none, s, u)
        → (client : Client) × (v : W) × (s.client ≡ some client)
          × Made machine library cfg.ssh_config client v
    start-Made cfg w e =
        came cfg.ssh_config e
          (ended-Came cfg.ssh_config w _ (start-Ended gateway (dial_ssh machine library) cfg w))

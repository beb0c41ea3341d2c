-- ===== src/Tunnel/Client.antt =====
-- What the tunnels use of package net and of golang.org/x/crypto/ssh, each call an action on the
-- world, and the way from a TCP connection to an SSH client, which tunnel/ssh.go (`Connect`) and
-- tunnel/reverse_dial.go (`dialSSH`) share up to the wording of their errors.
use gonc.Prelude.{◌≡◌, refl, List, Bool}
use gonc.Prelude.Int.{ℤ}
use gonc.Prelude.Result.{Result, ok, err}
use gonc.Text.{Str}
use gonc.Errors.{Error}
use gonc.Tunnel.Action.{Action, Post, returns, fails}
use gonc.Tunnel.Auth.{AuthMethod, HostKeyCallback}

-- `ssh.ClientConfig`; a banner callback is set or not.
pub record ClientConfig (Signer AgentConn HostKeys : Type 0) : Type 0 where
  pub user : Str
  pub auth : List (AuthMethod Signer AgentConn)
  pub host_key_callback : HostKeyCallback HostKeys
  pub timeout : ℤ
  pub banner_callback : Bool

-- `new_client` is `ssh.NewClientConn` with `ssh.NewClient` on its result.
pub record Library (W Signer AgentConn HostKeys TcpConn Client : Type 0) : Type 0 where
  pub dial_context : Str → Action W TcpConn
  pub new_client : TcpConn → Str → ClientConfig Signer AgentConn HostKeys → Action W Client
  pub close_tcp : TcpConn → W → W

module _ {W Signer AgentConn HostKeys TcpConn Client : Type 0}
    (library : Library W Signer AgentConn HostKeys TcpConn Client) where
  open library use {dial_context, new_client, close_tcp}

  or_close : TcpConn → (Error → Error) → Result Error Client × W → Result Error Client × W
  or_close conn f (ok client, w) = (ok client, w)
  or_close conn f (err e, w) = (err (f e), close_tcp conn w)

  -- the handshake on a connection, which is closed when it fails
  unfoldable pub handshake :
      TcpConn → Str → ClientConfig Signer AgentConn HostKeys → (Error → Error) → Action W Client
  unfolding or_close
  handshake conn addr cfg f w = or_close conn f (new_client conn addr cfg w)

  or_close-Post :
      (conn : TcpConn) (f : Error → Error) (p : Result Error Client × W)
      → Post (λ client v. p ≡ (ok client, v)) (or_close conn f p)
  unfolding or_close
  or_close-Post conn f (ok client, w) = returns refl
  or_close-Post conn f (err e, w) = fails

  -- A handshake gives the client that package ssh makes.
  pub handshake-Post :
      (conn : TcpConn) (addr : Str) (cfg : ClientConfig Signer AgentConn HostKeys)
      (f : Error → Error) (w : W)
      → Post (λ client v. new_client conn addr cfg w ≡ (ok client, v)) (handshake conn addr cfg f w)
  unfolding handshake
  handshake-Post conn addr cfg f w = or_close-Post conn f (new_client conn addr cfg w)

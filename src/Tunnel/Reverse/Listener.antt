-- ===== src/Tunnel/Reverse/Listener.antt =====
-- tunnel/reverse_listener.go: the methods of `sshForwardListener`. A channel that the gateway opens
-- carries what its `Accept` returns and what `ssh.Unmarshal` reads of its payload.
pub mod Cancelled
use gonc.Prelude.{ℕ, List, [], ◌∷◌, Option, none, some, Bool, true, false, if◌then◌else◌}
use gonc.Prelude.Result.{Result, ok, err}
use gonc.Text.{Str, codes}
use gonc.Errors.{Error, plain}
use gonc.Tunnel.Auth.{saying}
use gonc.Tunnel.Reverse.{SshForwardListener, ChannelForwardMsg}

-- `forwardedTCPPayload`
pub record ForwardedTcpPayload : Type 0 where
  pub addr : Str
  pub port : ℕ
  pub origin_addr : Str
  pub origin_port : ℕ

pub record NewChannel (Channel : Type 0) : Type 0 where
  pub accepted : Result Error Channel
  pub payload : Option ForwardedTcpPayload

-- `net.TCPAddr`, with none for a nil IP
pub record TcpAddr (Ip : Type 0) : Type 0 where
  pub ip : Option Ip
  pub port : ℕ

-- `chanConn`
pub record ChanConn (Channel Ip : Type 0) : Type 0 where
  pub channel : Channel
  pub raddr : TcpAddr Ip

-- what `select` may choose: `done`, or the next of the incoming channels, none for a closed one
pub data Choice (Channel : Type 0) : Type 0 where
  sees_done : Choice Channel
  receives : Option (NewChannel Channel) → Choice Channel

abbrev pub eof : Error
eof = plain (codes "EOF")

raddr_of : {Ip : Type 0} → (Str → Option Ip) → Option ForwardedTcpPayload → TcpAddr Ip
raddr_of parse_ip none = record { ip = none; port = 0 }
raddr_of parse_ip (some p) = record { ip = parse_ip p.origin_addr; port = p.origin_port }

module _ {Channel Ip : Type 0} (parse_ip : Str → Option Ip) where
  conn_of : Option ForwardedTcpPayload → Result Error Channel → Result Error (ChanConn Channel Ip)
  unfolding raddr_of
  conn_of payload (err e) = err (saying (codes "channel accept") e)
  conn_of payload (ok ch) = ok (record { channel = ch; raddr = raddr_of parse_ip payload })

  -- `Accept`, for a choice that is ready; `done` is so once the listener is closed
  pub accept :
      {Client Incoming : Type 0}
      → SshForwardListener Client Incoming
      → Choice Channel
      → Option (Result Error (ChanConn Channel Ip))
  unfolding conn_of
  accept l sees_done = if l.closed then some (err eof) else none
  accept l (receives none) = some (err eof)
  accept l (receives (some ch)) = some (conn_of ch.payload ch.accepted)

module _ {Client Incoming : Type 0} where
  close_at :
      Bool
      → SshForwardListener Client Incoming
      → SshForwardListener Client Incoming × List ChannelForwardMsg
  close_at true l = (l, [])
  close_at false l =
      (record l { closed = true }, record { addr = l.bind_addr; port = l.bind_port } ∷ [])

  -- `Close`, with the messages of its "cancel-tcpip-forward" requests; it returns nil
  pub close :
      SshForwardListener Client Incoming
      → SshForwardListener Client Incoming × List ChannelForwardMsg
  unfolding close_at
  close l = close_at l.closed l

  -- the port of `Addr`
  pub addr_port : SshForwardListener Client Incoming → ℕ
  addr_port l = l.bind_port

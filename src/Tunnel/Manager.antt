-- ===== src/Tunnel/Manager.antt =====
-- tunnel/manager.go: `Manager`, which watches over an `SSHTunnel`. What the loop sees when it wakes up
-- is its input.
use gonc.Prelude.{ℕ, suc, List, [], ◌∷◌, Option, none, some, Bool, true, false}
use gonc.Prelude.Result.{Result, ok, err}
use gonc.Errors.{Error}
use gonc.Tunnel.Action.{Action}
use gonc.Tunnel.Ssh.{SshTunnel, shuts}

-- `watched` counts the health loops that `Start` has begun.
pub record Manager (Client : Type 0) : Type 0 where
  pub tunnel : SshTunnel Client
  pub stopped : Bool
  pub watched : ℕ

-- one turn of `select`: the context is done, or a tick finds `stopped` and `IsAlive` so
pub data Wake : Type 0 where
  ctx_done : Wake
  ticks : (stopped alive : Bool) → Wake

-- how the loop ends: silently, or with "SSH tunnel connection lost"
pub data Ending : Type 0 where
  silent connection_lost : Ending

module _ {Client : Type 0} where
  -- `NewManager`
  pub new_manager : SshTunnel Client → Manager Client
  new_manager t = record { tunnel = t; stopped = false; watched = 0 }

  connected :
      {W : Type 0}
      → Manager Client
      → Result Error (SshTunnel Client) × W
      → Option Error × Manager Client × W
  connected m (err e, w) = (some e, m, w)
  connected m (ok t, w) = (none, record m { tunnel = t; watched = suc m.watched }, w)

  -- `Start`, with `Connect` of the tunnel
  pub start :
      {W : Type 0}
      → (SshTunnel Client → Action W (SshTunnel Client))
      → Manager Client
      → W
      → Option Error × Manager Client × W
  unfolding connected
  start connect m w = connected m (connect m.tunnel w)

  -- `Stop`, apart from the call of `client.Close`
  pub stop : Manager Client → Manager Client
  stop m = record m { stopped = true; tunnel = shuts m.tunnel }

-- `healthLoop`; none while it goes on
pub health_loop : List Wake → Option Ending
health_loop [] = none
health_loop (ctx_done ∷ wakes) = some silent
health_loop (ticks true alive ∷ wakes) = some silent
health_loop (ticks false false ∷ wakes) = some connection_lost
health_loop (ticks false true ∷ wakes) = health_loop wakes

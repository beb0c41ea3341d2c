-- ===== src/Transport/Ssh.antt =====
-- internal/transport/ssh.go: `SSHDialer` on its `SSHTunnel`, with the tunnel's monitor goroutines.
-- A client is the number of its connection, from 0; `over` says of each whether it has closed. Calls
-- of the dialer hold its mutex, so each is a move; what `Connect` gives up to its section under the
-- tunnel's mutex is part of the move.
pub mod Single
pub mod Lost
use gonc.Prelude.{
  ℕ, zero, suc, List, [], ◌∷◌, ◌++◌, Option, none, some, Bool, true, false, if◌then◌else◌, length,
  get_elem?, set,
}
use gonc.Errors.{Error}
use gonc.Tunnel.{SshConfig}
use gonc.Tunnel.Ssh.{SshTunnel, new_ssh_tunnel, stores, usable, shuts, gives_up}

-- a goroutine in `monitor`: before it reads the client, in `client.Wait`, and at its end
pub data Monitor : Type 0 where
  starting gone : Monitor
  waiting : ℕ → Monitor

-- The fields `config` and `logger` do not change.
pub record SshDialer : Type 0 where
  pub tunnel : SshTunnel ℕ
  pub connected : Bool
  pub monitors : List Monitor
  pub over : List Bool

-- `NewSSHDialer`
abbrev pub new_ssh_dialer : SshConfig → SshDialer
new_ssh_dialer cfg = record {
  tunnel = new_ssh_tunnel cfg;
  connected = false;
  monitors = [];
  over = [];
}

-- `connects` is a call of `connect`, with the error of `connect_client` if there is one; `ends` is
-- the end of a connection from outside.
pub data Move : Type 0 where
  connects : Option Error → Move
  closes : Move
  monitors_on ends : ℕ → Move

establishes : Bool → Option Error → SshDialer → SshDialer
unfolding stores
establishes true result s = s
establishes false (some e) s = s
establishes false none s = record s {
  tunnel = stores (length s.over) s.tunnel;
  connected = true;
  monitors = s.monitors ++ starting ∷ [];
  over = s.over ++ false ∷ [];
}

ends_client : Option ℕ → List Bool → List Bool
ends_client none over = over
ends_client (some k) over = set over k true

-- `Close`
shuts_down : Bool → SshDialer → SshDialer
unfolding ends_client shuts
shuts_down true s = record s {
  tunnel = shuts s.tunnel;
  connected = false;
  over = ends_client s.tunnel.client s.over;
}
shuts_down false s = s

looks : ℕ → Option ℕ → SshDialer → SshDialer
looks i none s = record s { monitors = set s.monitors i gone }
looks i (some k) s = record s { monitors = set s.monitors i (waiting k) }

-- `client.Wait` returns when the connection is over
wakes : ℕ → Option Bool → SshDialer → Option SshDialer
unfolding gives_up
wakes i (some true) s =
    some (record s { tunnel = gives_up s.tunnel; monitors = set s.monitors i gone })
wakes i _ s = none

-- `monitor`
monitor : ℕ → Option Monitor → SshDialer → Option SshDialer
unfolding looks wakes
monitor i (some starting) s = some (looks i s.tunnel.client s)
monitor i (some (waiting k)) s = wakes i (get_elem? s.over k) s
monitor i _ s = none

pub step : SshDialer → Move → Option SshDialer
unfolding establishes shuts_down monitor
step s (connects result) = some (establishes s.connected result s)
step s closes = some (shuts_down s.connected s)
step s (monitors_on i) = monitor i (get_elem? s.monitors i) s
step s (ends k) = some (record s { over = set s.over k true })

unfoldable pub run : Option SshDialer → List Move → Option SshDialer
unfolding step
run o [] = o
run none (m ∷ ms) = none
run (some s) (m ∷ ms) = run (step s m) ms

-- the client that `Dial` uses when `connect` has not failed; if none, it returns `ErrNotConnected`
unfoldable pub dials_by : SshDialer → Option ℕ
unfolding usable
dials_by s = usable s.tunnel

-- schedules in which nobody calls `Close`
abbrev pub StaysOpen : List Move → Type 0
StaysOpen [] = Unit
StaysOpen (connects r ∷ ms) = StaysOpen ms
StaysOpen (closes ∷ ms) = ⊥
StaysOpen (monitors_on i ∷ ms) = StaysOpen ms
StaysOpen (ends k ∷ ms) = StaysOpen ms

-- ===== src/Core/Connect.antt =====
-- internal/core/connect.go: `ConnectMode.Run`. The dialer and the capability are parameters: what
-- `Dial` returns for a network and an address, and what `Handle` returns on the connection. The
-- fields `Stdin` and `Stdout` only pick the streams of the session.
pub mod Closed
use gonc.Prelude.{List, [], ◌∷◌, ◌++◌, Option, none, some}
use gonc.Prelude.Result.{Result, ok, err}
use gonc.Text.{Str, codes}
use gonc.Errors.{Error, cause, wrapped}
use gonc.Core.{Network, ConnectMode, Capability}

-- The calls on the outside world.
pub data Event : Type 0 where
  dials : Network → Str → Event
  handles closes_conn closes_dialer : Event

pub record Ended : Type 0 where
  pub returned : Option Error
  pub events : List Event

-- `fmt.Errorf("connect to %s: %w", m.Address, err)`
pub connect_error : Str → Error → Error
connect_error address e = wrapped (codes "connect to " ++ address) (cause e)

module _ {Conn : Type 0} (dial : Network → Str → Result Error Conn)
    (handle : Capability → Conn → Option Error) where
  -- the part behind the dial, with the deferred closes
  after_dial : ConnectMode → Result Error Conn → Ended
  unfolding connect_error
  after_dial m (err e) = record {
    returned = some (connect_error m.address e);
    events = dials m.network m.address ∷ closes_dialer ∷ [];
  }
  after_dial m (ok conn) = record {
    returned = handle m.capability conn;
    events = dials m.network m.address ∷ handles ∷ closes_conn ∷ closes_dialer ∷ [];
  }

  -- `Run`
  pub run_connect : ConnectMode → Ended
  unfolding after_dial
  run_connect m = after_dial m (dial m.network m.address)

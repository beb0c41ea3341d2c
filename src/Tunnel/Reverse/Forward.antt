-- ===== src/Tunnel/Reverse/Forward.antt =====
-- tunnel/reverse_forwarder.go: `handleConnection`, with what the local dial and `bridgeConns` give
-- as its input. The log lines are left out.
pub mod Counted
use gonc.Prelude.{ℕ, List, [], ◌∷◌, ◌++◌}
use gonc.Prelude.Int.{ℤ}
use gonc.Prelude.Result.{Result, ok, err}
use gonc.Text.{Str, codes, itoa, join_host_port}
use gonc.Errors.{Error}
use gonc.Metrics.{Call, connection_closed, bytes_received, bytes_sent, record_error}
use gonc.Tunnel.Reverse.{ReverseTunnelConfig}

-- The calls of the handler, in order.
pub data Event : Type 0 where
  dials : Str → Event
  counts : Call → Event
  bridges closes_local closes_remote leaves_group : Event

-- `net.JoinHostPort(rt.config.LocalAddress, fmt.Sprintf("%d", rt.config.LocalPort))`
pub local_target : ReverseTunnelConfig → Str
local_target cfg = join_host_port cfg.local_address (itoa cfg.local_port)

-- what `defer` has noted down before the dial
abbrev at_return : List Event
at_return = counts connection_closed ∷ closes_remote ∷ leaves_group ∷ []

module _ (error_text : Error → Str) (now : ℕ) (cfg : ReverseTunnelConfig) where
  -- behind the local dial, which gives an error, or the bytes that `bridgeConns` has copied each way
  after_local_dial : Result Error (ℤ × ℤ) → List Event
  unfolding local_target
  after_local_dial (err e) =
      counts
        (record_error now (codes "local dial " ++ local_target cfg ++ codes ": " ++ error_text e))
      ∷ at_return
  after_local_dial (ok (received, sent)) =
      bridges
      ∷ counts (bytes_received received)
      ∷ counts (bytes_sent sent)
      ∷ closes_local
      ∷ at_return

  -- `handleConnection`
  unfoldable pub handle_connection : Result Error (ℤ × ℤ) → List Event
  unfolding after_local_dial
  handle_connection dialled = dials (local_target cfg) ∷ after_local_dial dialled

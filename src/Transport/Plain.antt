-- ===== src/Transport/Plain.antt =====
-- internal/transport/tcp.go and udp.go: `Dial` of the two stateless dialers, which resolve the local
-- address for the network that they are called with. `resolve_tcp`, `resolve_udp` and `dial_context`
-- are those of package net, the last with the timeout and the local address of a `net.Dialer`.
use gonc.Prelude.{◌∷◌, Option, none, some, if◌then◌else◌}
use gonc.Prelude.Int.{ℤ, pos, ltb_ℤ}
use gonc.Prelude.Result.{Result, ok, map_err, ◌>>=◌}
use gonc.Text.{Str, codes, itoa}
use gonc.Errors.{Error, wrapped, cause}

-- The fields of `TCPDialer` and of `UDPDialer`.
pub record PlainDialer : Type 0 where
  pub timeout : ℤ
  pub local_port : ℤ

module _ {Addr Conn : Type 0} (resolve_tcp resolve_udp : Str → Str → Result Error Addr)
    (dial_context : ℤ → Option Addr → Str → Str → Result Error Conn) where
  -- the local address, if the port is set
  local_addr : (Str → Str → Result Error Addr) → ℤ → Str → Result Error (Option Addr)
  local_addr resolve port network =
      if ltb_ℤ (pos 0) port
      then (map_err (λ e. wrapped (codes "resolve local addr") (cause e))
            (resolve network (b':' ∷ itoa port))
          >>= λ a. ok (some a))
      else ok none

  -- `TCPDialer.Dial`
  pub dial_tcp : PlainDialer → Str → Str → Result Error Conn
  unfolding local_addr
  dial_tcp d network address =
      local_addr resolve_tcp d.local_port network >>= λ a. dial_context d.timeout a network address

  -- `UDPDialer.Dial`
  pub dial_udp : PlainDialer → Str → Str → Result Error Conn
  unfolding local_addr
  dial_udp d network address =
      local_addr resolve_udp d.local_port network >>= λ a. dial_context d.timeout a network address

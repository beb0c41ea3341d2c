-- ===== src/Cmd/Positional.antt =====
-- What `parsePositional` does to the ports of a configuration.
use gonc.Prelude.{
  ◌≡◌, ◌⊎◌, inl, inr, subst, List, [], ◌∷◌, ◌++◌, arith, Bool-cases, All, All-append,
}
use gonc.Prelude.Int.{ℤ, pos}
use gonc.Prelude.Result.{ok, map_err, >>=-eq-ok, ok-eq, map_err-eq-ok}
use gonc.Text.{Str}
use gonc.Config.{Config}
use gonc.Config.Ports.{PortRange, parse_port_spec}
use gonc.Config.Ports.Parsing.{InRange, parse_port_spec-InRange}
use gonc.Config.Ports.Expansion.{IsPort}
use gonc.Core.Builder.Validated.{ParsedPorts}
use gonc.Cmd.{
  append_ports, first_port, positional_listen, positional_connect, parse_positional, bad_port,
  bad_listen_port,
}

start-IsPort : (r : PortRange) → InRange r → IsPort r.start
start-IsPort r h = (h.positive, omega arith)

append_ports-InRange :
    (prs : List PortRange) (args : List Str) {out : List PortRange}
    → All InRange prs
    → append_ports prs args ≡ ok out
    → All InRange out
unfolding append_ports
append_ports-InRange prs [] all h = subst (All InRange) (ground arith) all
append_ports-InRange prs (arg ∷ args) {out} all h =
    let (pr, e, next) = >>=-eq-ok (map_err (bad_port arg) (parse_port_spec arg)) _ h in
    append_ports-InRange (prs ++ pr ∷ []) args
      (All-append InRange prs (pr ∷ []) all
        (parse_port_spec-InRange arg (map_err-eq-ok (bad_port arg) (parse_port_spec arg) e), tt))
      next

positional_listen-ParsedPorts :
    (c : Config) (args : List Str) {d : Config}
    → ParsedPorts c
    → positional_listen c args ≡ ok d
    → ParsedPorts d
unfolding positional_listen
positional_listen-ParsedPorts c [] v h = subst ParsedPorts (ok-eq h) v
positional_listen-ParsedPorts c (a ∷ []) v h =
    subst ParsedPorts (ok-eq h) (record { ranges = v.ranges; port = v.port })
positional_listen-ParsedPorts c (a ∷ p ∷ []) v h =
    let (pr, e, next) = >>=-eq-ok (map_err bad_listen_port (parse_port_spec p)) _ h in
    let r = parse_port_spec-InRange p (map_err-eq-ok bad_listen_port (parse_port_spec p) e) in
    subst ParsedPorts (ok-eq next) (record { ranges = v.ranges; port = inr (start-IsPort pr r) })
positional_listen-ParsedPorts c (a ∷ p ∷ q ∷ rest) v h = absurd (cc)

first_port-IsPort :
    (port : ℤ) (prs : List PortRange)
    → (port ≡ pos 0) ⊎ IsPort port
    → All InRange prs
    → (first_port port prs ≡ pos 0) ⊎ IsPort (first_port port prs)
unfolding first_port
first_port-IsPort port [] h all = h
first_port-IsPort port (r ∷ rs) h (hr, hs) = inr (start-IsPort r hr)

positional_connect-ParsedPorts :
    (c : Config) (args : List Str) {d : Config}
    → ParsedPorts c
    → positional_connect c args ≡ ok d
    → ParsedPorts d
unfolding positional_connect
positional_connect-ParsedPorts c [] v h = absurd (cc)
positional_connect-ParsedPorts c (a ∷ []) v h = absurd (cc)
positional_connect-ParsedPorts c (a ∷ p ∷ args) v h =
    let (prs, e, next) = >>=-eq-ok (append_ports c.ports (p ∷ args)) _ h in
    let all = append_ports-InRange c.ports (p ∷ args) v.ranges e in
    subst ParsedPorts (ok-eq next)
      (record { ranges = all; port = first_port-IsPort c.port prs v.port all })

-- The ports that `parsePositional` accepts are TCP ports and ranges of them: if those of the
-- configuration were so before, they are so after.
pub parse_positional-ParsedPorts :
    (c : Config) (args : List Str) {d : Config}
    → ParsedPorts c
    → parse_positional c args ≡ ok d
    → ParsedPorts d
unfolding parse_positional
parse_positional-ParsedPorts c args v h = elim (Bool-cases c.listen) [
  | inl l ↦ positional_listen-ParsedPorts c args v (ground arith)
  | inr l ↦ positional_connect-ParsedPorts c args v (ground arith)
]

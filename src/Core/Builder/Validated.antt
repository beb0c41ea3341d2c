-- ===== src/Core/Builder/Validated.antt =====
-- What `Build` makes of a configuration that `Validate` has accepted.
use gonc.Prelude.{
  ◌≡◌, ◌≢◌, ◌⊎◌, inl, inr, refl, subst, List, [], ◌∷◌, Bool, true, false, arith, Bool-cases, All,
  ◌&&◌, not,
}
use gonc.Prelude.Int.{ℤ, pos}
use gonc.Text.{Str}
use gonc.Config.{Config}
use gonc.Config.Ports.Parsing.{InRange}
use gonc.Config.Ports.Expansion.{IsPort, ports_of_all, all_ports-ports_of_all, ports_of_all-ne-nil}
use gonc.Config.Validation.Consistent.{IsConsistent}
use gonc.Core.{
  Network, tcp, udp, Dialer, tcp_dialer, udp_dialer, ssh_dialer, Capability, exec, relay, Mode,
  connect, listen, scan, reverse_tunnel,
}
use gonc.Core.Builder.{
  built, not_an_ip, build, build_dialer, build_capability, scan_of, network_of, format_addr,
  connect_of, listen_of, reverse_of, scan_ports,
}

-- A dialer that can open connections of a network.
abbrev pub Carries : Network → Dialer → Type 0
Carries n (tcp_dialer timeout local) = n ≡ tcp
Carries n (udp_dialer timeout local) = n ≡ udp
Carries n (ssh_dialer s) = (n ≡ tcp) × (s.host ≢ []) × (s.port ≢ pos 0)

-- A program or a shell command, not both.
abbrev pub IsSingle : Capability → Type 0
IsSingle (exec program command) =
    ((program ≢ []) × (command ≡ [])) ⊎ ((program ≡ []) × (command ≢ []))
IsSingle relay = Unit

-- The mode that a configuration asks for. A scan probes with TCP whatever the flags say, so its dialer
-- is one for TCP unless -u is set; the local port of a listener is only not zero.
abbrev pub Suits : Config → Mode → Type 0
Suits c (connect m) =
    (c.reverse_tunnel_enabled ≡ false)
    × (c.listen ≡ false)
    × (c.zero_io ≡ false)
    × (m.address ≡ format_addr c.host c.port)
    × Carries m.network m.dialer
    × IsSingle m.capability
Suits c (listen m) =
    (c.reverse_tunnel_enabled ≡ false)
    × (c.listen ≡ true)
    × (c.local_port ≢ pos 0)
    × IsSingle m.capability
Suits c (scan m) =
    (c.reverse_tunnel_enabled ≡ false)
    × (c.listen ≡ false)
    × (c.zero_io ≡ true)
    × (m.host ≢ [])
    × (m.ports ≢ [])
    × All IsPort m.ports
    × ((c.udp ≡ true) ⊎ Carries tcp m.dialer)
Suits c (reverse_tunnel m) =
    (c.reverse_tunnel_enabled ≡ true)
    × (c.listen ≡ true)
    × IsPort m.remote_port
    × (m.local_port ≢ pos 0)
    × (m.ssh_config.host ≢ [])

-- A configuration whose ports come from the parser.
pub record ParsedPorts (c : Config) : Type 0 where
  pub ranges : All InRange c.ports
  pub port : (c.port ≡ pos 0) ⊎ IsPort c.port

build_capability-IsSingle : (c : Config) → IsConsistent c → IsSingle (build_capability c)
unfolding build_capability
build_capability-IsSingle c v = ground arith

build_dialer-Carries : (c : Config) → IsConsistent c → Carries (network_of c) (build_dialer c)
unfolding build_dialer network_of
build_dialer-Carries c v = ground arith

uses_tcp : (c : Config) → c.udp ≡ false → network_of c ≡ tcp
unfolding network_of
uses_tcp c n = ground arith

reverse-Suits :
    (c : Config) → IsConsistent c → c.reverse_tunnel_enabled ≡ true → Suits c (reverse_of c)
unfolding reverse_of
reverse-Suits c v r = ground (arith, v.reverse r)

listen-Suits :
    (c : Config)
    → IsConsistent c
    → c.reverse_tunnel_enabled ≡ false
    → c.listen ≡ true
    → Suits c (listen_of c)
unfolding listen_of
listen-Suits c v r l = ground (arith, v.listener l, build_capability-IsSingle c v)

connect-Suits :
    (c : Config)
    → IsConsistent c
    → c.reverse_tunnel_enabled ≡ false
    → c.listen ≡ false
    → c.zero_io ≡ false
    → Suits c (connect_of c)
unfolding connect_of
connect-Suits c v r l z =
    (r, l, z, refl, unfold network_of in build_dialer-Carries c v, build_capability-IsSingle c v)

scan_dialer : (c : Config) → IsConsistent c → (c.udp ≡ true) ⊎ Carries tcp (build_dialer c)
scan_dialer c v = elim (Bool-cases c.udp) [
  | inl u ↦ inl u
  | inr n ↦ inr (subst (λ k. Carries k (build_dialer c)) (uses_tcp c n) (build_dialer-Carries c v))
]

scan_ports-IsPort :
    (port : ℤ) (ps : List ℤ)
    → All IsPort ps
    → IsPort port ⊎ (ps ≢ [])
    → (scan_ports port ps ≢ []) × All IsPort (scan_ports port ps)
unfolding scan_ports
scan_ports-IsPort port [] all h = ground arith
scan_ports-IsPort port (p ∷ ps) all h = (λ e. cc, all)

something_to_scan :
    (c : Config)
    → IsConsistent c
    → ParsedPorts c
    → c.listen ≡ false
    → IsPort c.port ⊎ (ports_of_all c.ports ≢ [])
something_to_scan c v p l = elim ((v.client l).port) [
  | inl port ↦ inl (ground arith)
  | inr ports ↦ inr (ports_of_all-ne-nil c.ports p.ranges ports)
]

scan-Suits :
    (c : Config)
    → IsConsistent c
    → ParsedPorts c
    → c.reverse_tunnel_enabled ≡ false
    → c.listen ≡ false
    → c.zero_io ≡ true
    → Suits c (scan_of c (ports_of_all c.ports))
unfolding scan_of
scan-Suits c v p r l z =
    let (some_port, all) =
      scan_ports-IsPort c.port (ports_of_all c.ports) (all_ports-ports_of_all c.ports p.ranges).1
        (something_to_scan c v p l) in
    (r, l, z, (v.client l).host, some_port, all, scan_dialer c v)

pub build-Suits :
    (parse_ip : Str → Bool) (c : Config)
    → IsConsistent c
    → ParsedPorts c
    → ((build parse_ip c ≡ not_an_ip c.host)
        × (c.listen ≡ false)
        × (c.no_dns ≡ true)
        × (parse_ip c.host ≡ false))
      ⊎ ((m : Mode) × (build parse_ip c ≡ built m) × Suits c m)
unfolding build
build-Suits parse_ip c v p = elim (Bool-cases c.reverse_tunnel_enabled) [
  | inl r ↦ inr (reverse_of c, ground arith, reverse-Suits c v r)
  | inr r ↦ elim (Bool-cases c.listen) [
    | inl l ↦ inr (listen_of c, ground arith, listen-Suits c v r l)
    | inr l ↦ elim (Bool-cases (c.no_dns && not (parse_ip c.host))) [
      | inl refused ↦ inl (ground arith, l, ground arith, ground arith)
      | inr fine ↦ elim (Bool-cases c.zero_io) [
        | inl z ↦ inr (
          scan_of c (ports_of_all c.ports),
          ground (arith, all_ports-ports_of_all c.ports p.ranges),
          scan-Suits c v p r l z,
        )
        | inr z ↦ inr (connect_of c, ground arith, connect-Suits c v r l z)
      ]
    ]
  ]
]

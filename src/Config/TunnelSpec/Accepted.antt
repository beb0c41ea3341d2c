-- ===== src/Config/TunnelSpec/Accepted.antt =====
-- What `ParseTunnelSpec` accepts, and that it reads back the printed form of a tunnel.
use gonc.Prelude.{ℕ, ◌≤◌, ◌≡◌, ◌≢◌, [], ◌∷◌, ◌++◌, arith, Option-cases, inl, inr, some, ◌⊎◌}
use gonc.Prelude.Int.{pos, ◌≤ℤ◌}
use gonc.Prelude.Result.{ok}
use gonc.Text.{Str, atoi, itoa}
use gonc.Text.Decimal.{atoi-itoa, itoa-AllDigits, itoa-ne-nil}
use gonc.Text.Split.{Lacks}
use gonc.Config.TunnelSpec.{Match, Tunnel, parse_tunnel_spec, find_submatch, from_match}
use gonc.Config.TunnelSpec.Grammar.{
  Spells, user_text, port_text, find_submatch-Spells, find_submatch_complete, find_no_host,
}

-- What the caller may rely on.
pub record IsTunnel (spec : Str) (t : Tunnel) : Type 0 where
  pub port_text : Str
  pub spelled : Spells spec (record { user = t.user; host = t.host; port = port_text })
  pub positive : pos 1 ≤ℤ t.port
  pub bounded : t.port ≤ℤ pos 65535
  pub value : ((port_text ≡ []) × (t.port ≡ pos 22)) ⊎ (atoi port_text ≡ some t.port)

from_match-IsTunnel :
    (spec : Str) (m : Match) {t : Tunnel}
    → Spells spec m
    → from_match spec (some m) ≡ ok t
    → IsTunnel spec t
unfolding from_match
from_match-IsTunnel spec m {t} s h = record {
  port_text = m.port;
  spelled = ground arith;
  positive = ground arith;
  bounded = ground arith;
  value = ground arith;
}

-- An accepted specification is `[user@]host[:port]`: the user holds no `@`, the host is not empty
-- and holds no colon, and the port is what its digits say, or 22 if it is left out, and from 1 to
-- 65535.
pub parse_tunnel_spec-IsTunnel :
    (spec : Str) {t : Tunnel} → parse_tunnel_spec spec ≡ ok t → IsTunnel spec t
unfolding parse_tunnel_spec
parse_tunnel_spec-IsTunnel spec {t} h = elim (Option-cases (find_submatch spec)) [
  | inl e ↦ absurd (ground arith)
  | inr (m, e) ↦ from_match-IsTunnel spec m (find_submatch-Spells spec e) (ground arith)
]

-- the text of a tunnel, `user@host:port`
pub print_tunnel : Str → Str → ℕ → Str
print_tunnel user host port = user_text user ++ (host ++ b':' ∷ itoa (pos port))

port_text_lem : (s : Str) → s ≢ [] → port_text s ≡ b':' ∷ s
port_text_lem s h = ground arith

find_printed :
    (user host : Str) (port : ℕ)
    → user ≢ []
    → Lacks b'@' user
    → host ≢ []
    → Lacks b':' host
    → find_submatch (print_tunnel user host port)
      ≡ some (record { user = user; host = host; port = itoa (pos port) })
unfolding print_tunnel
find_printed user host port named user_class host_some host_class =
    find_submatch_complete _ _ spelled named
  where
    spelled :
        Spells
          (user_text user ++ (host ++ b':' ∷ itoa (pos port)))
          (record { user = user; host = host; port = itoa (pos port) })
    spelled = record {
      text = rw (port_text_lem (itoa (pos port)) (itoa-ne-nil port));
      user_class = user_class;
      host_some = host_some;
      host_class = host_class;
      port_class = itoa-AllDigits port;
    }

-- The text of a tunnel is read back, if it has a user without `@`, a host that is not empty and holds
-- no colon, and a port from 1 to 65535: user, host and port come out as they went in.
pub parse_tunnel_spec-print_tunnel :
    (user host : Str) (port : ℕ)
    → user ≢ []
    → Lacks b'@' user
    → host ≢ []
    → Lacks b':' host
    → 1 ≤ port
    → port ≤ 65535
    → parse_tunnel_spec (print_tunnel user host port)
      ≡ ok (record { user = user; host = host; port = pos port })
unfolding parse_tunnel_spec print_tunnel
parse_tunnel_spec-print_tunnel user host port named user_class host_some host_class low high =
    ground (
      arith,
      find_printed user host port named user_class host_some host_class,
      itoa-ne-nil port,
      atoi-itoa port,
    )

-- A specification that ends behind `user@` is not refused: it is read as the host `user@`, with no
-- user, on port 22.
pub parse_tunnel_spec_no_host :
    (user : Str)
    → user ≢ []
    → Lacks b'@' user
    → Lacks b':' user
    → parse_tunnel_spec (user ++ b'@' ∷ [])
      ≡ ok (record { user = []; host = user ++ b'@' ∷ []; port = pos 22 })
unfolding parse_tunnel_spec
parse_tunnel_spec_no_host user named at colon = rw (find_no_host user named at colon) (ground arith)

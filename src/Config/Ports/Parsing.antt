-- ===== src/Config/Ports/Parsing.antt =====
-- What `ParsePortSpec` accepts, and that it reads back the printed form of a range.
use gonc.Prelude.{ℕ, ◌≤◌, ◌≡◌, refl, ◌∷◌, ◌++◌, arith}
use gonc.Prelude.Int.{pos, ◌≤ℤ◌}
use gonc.Prelude.Result.{ok}
use gonc.Text.{Str, itoa}
use gonc.Text.Decimal.{atoi-itoa, itoa-Lacks}
use gonc.Text.Split.{before_middle, behind_middle, contains_middle}
use gonc.Config.Ports.{PortRange, parse_port_spec}

-- a range of TCP ports
pub record InRange (r : PortRange) : Type 0 where
  pub positive : pos 1 ≤ℤ r.start
  pub ordered : r.start ≤ℤ r.end
  pub bounded : r.end ≤ℤ pos 65535

-- Every accepted specification is a range of TCP ports: 1 ≤ start ≤ end ≤ 65535.
pub parse_port_spec-InRange : (spec : Str) {r : PortRange} → parse_port_spec spec ≡ ok r → InRange r
unfolding parse_port_spec
parse_port_spec-InRange spec h = ground arith

-- the text of a range, `80-90`
pub print_range : ℕ → ℕ → Str
print_range a b = itoa (pos a) ++ b'-' ∷ itoa (pos b)

-- The text of a range of TCP ports is read back as that range.
pub parse_port_spec-print_range :
    (a b : ℕ)
    → 1 ≤ a
    → a ≤ b
    → b ≤ 65535
    → parse_port_spec (print_range a b) ≡ ok (record { start = pos a; end = pos b })
unfolding parse_port_spec print_range
parse_port_spec-print_range a b low mid high = ground (
  arith,
  contains_middle b'-' (itoa (pos a)) (itoa (pos b)),
  before_middle b'-' (itoa (pos a)) (itoa (pos b)) (itoa-Lacks b'-' a refl),
  behind_middle b'-' (itoa (pos a)) (itoa (pos b)) (itoa-Lacks b'-' a refl),
  atoi-itoa a,
  atoi-itoa b,
)

-- The text of a single TCP port is read back as the range of that port.
pub parse_port_spec-itoa :
    (p : ℕ)
    → 1 ≤ p
    → p ≤ 65535
    → parse_port_spec (itoa (pos p)) ≡ ok (record { start = pos p; end = pos p })
unfolding parse_port_spec
parse_port_spec-itoa p low high = ground (arith, itoa-Lacks b'-' p refl, atoi-itoa p)

-- ===== src/Config/Ports.antt =====
-- config/config.go: `PortRange`, `Expand`, `ParsePortSpec` and the loop of `AllPorts`.
pub mod Parsing
pub mod Expansion
use gonc.Prelude.{
  ℕ, zero, suc, List, [], ◌∷◌, ◌++◌, Option, none, some, Bool, true, false, ◌||◌, if◌then◌else◌,
}
use gonc.Prelude.Int.{ℤ, pos, negsuc, ◌+ℤ◌, ◌-ℤ◌, ltb_ℤ, leb_ℤ}
use gonc.Prelude.Result.{Result, ok, err}
use gonc.Text.{Str, contains, before, behind, atoi}

pub record PortRange : Type 0 where
  pub start : ℤ
  pub end : ℤ

-- `for p := pr.Start; p <= pr.End; p++`, the fuel is the capacity that `make` is given.
expand_loop : ℕ → ℤ → ℤ → List ℤ
expand_loop zero p end = []
expand_loop (suc fuel) p end =
    let rest = expand_loop fuel (p +ℤ pos 1) end in if leb_ℤ p end then p ∷ rest else []

-- `make` panics on a negative capacity, here `none`.
with_capacity : ℤ → PortRange → Option (List ℤ)
with_capacity (pos n) pr = some (expand_loop n pr.start pr.end)
with_capacity (negsuc n) pr = none

pub expand : PortRange → Option (List ℤ)
unfolding with_capacity expand_loop
expand pr = with_capacity (pr.end -ℤ pr.start +ℤ pos 1) pr

abbrev pub append_ports : Option (List ℤ) → Option (List ℤ) → Option (List ℤ)
append_ports (some xs) (some ys) = some (xs ++ ys)
append_ports _ _ = none

-- The loop of `AllPorts` over `c.Ports`.
unfoldable pub all_ports : List PortRange → Option (List ℤ)
unfolding expand
all_ports [] = some []
all_ports (pr ∷ prs) = append_ports (expand pr) (all_ports prs)

pub data PortError : Type 0 where
  bad_start bad_end bad_port : Str → PortError
  bad_range : ℤ → ℤ → PortError
  out_of_range : ℤ → PortError

check_range : ℤ → ℤ → Result PortError PortRange
check_range start end =
    if ltb_ℤ start (pos 1) || ltb_ℤ (pos 65535) end || ltb_ℤ end start
    then err (bad_range start end)
    else ok (record { start = start; end = end })

check_port : ℤ → Result PortError PortRange
check_port port =
    if ltb_ℤ port (pos 1) || ltb_ℤ (pos 65535) port
    then err (out_of_range port)
    else ok (record { start = port; end = port })

parse_end : ℤ → Str → Option ℤ → Result PortError PortRange
parse_end start text none = err (bad_end text)
parse_end start text (some end) = check_range start end

parse_start : Str → Str → Option ℤ → Result PortError PortRange
parse_start text rest none = err (bad_start text)
parse_start text rest (some start) = parse_end start rest (atoi rest)

parse_single : Str → Option ℤ → Result PortError PortRange
parse_single spec none = err (bad_port spec)
parse_single spec (some port) = check_port port

unfoldable pub parse_port_spec : Str → Result PortError PortRange
unfolding parse_start parse_end parse_single check_range check_port
parse_port_spec spec =
    if contains spec b'-'
    then parse_start (before b'-' spec) (behind b'-' spec) (atoi (before b'-' spec))
    else parse_single spec (atoi spec)

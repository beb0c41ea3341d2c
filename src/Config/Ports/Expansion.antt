-- ===== src/Config/Ports/Expansion.antt =====
-- `Expand` lists every port of a range, in order, and `AllPorts` never panics on parsed ranges.
use gonc.Prelude.{
  ℕ, zero, suc, ◌+◌, ◌-◌, ◌≤◌, ◌<◌, ◌≡◌, ◌≢◌, refl, ap, List, [], ◌∷◌, ◌++◌, some, arith, length,
  All, All-append,
}
use gonc.Prelude.Int.{pos_part, ℤ, pos, negsuc, ◌≤ℤ◌, ◌+ℤ◌, ◌-ℤ◌}
use gonc.Config.Ports.{PortRange, expand, expand_loop, all_ports}
use gonc.Config.Ports.Parsing.{InRange}

-- `n` consecutive ports from `a` on
abbrev pub consecutive : ℕ → ℕ → List ℤ
consecutive zero a = []
consecutive (suc n) a = pos a ∷ consecutive n (suc a)

add_one : (a : ℕ) → pos a +ℤ pos 1 ≡ pos (suc a)
unfolding ◌+ℤ◌
add_one a = ground arith

expand_loop-consecutive :
    (fuel a e : ℕ) → a + fuel ≡ suc e → expand_loop fuel (pos a) (pos e) ≡ consecutive fuel a
unfolding expand_loop
expand_loop-consecutive zero a e h = refl
expand_loop-consecutive (suc fuel) a e h =
    rw add_one (ground (arith, expand_loop-consecutive fuel (suc a) e))

capacity : (a e : ℕ) → a ≤ suc e → pos e -ℤ pos a +ℤ pos 1 ≡ pos (suc e - a)
unfolding ◌+ℤ◌ ◌-ℤ◌
capacity a e h = ground arith

-- A range that is not inverted, and not negative, expands to its ports in order, each once.
pub expand-consecutive :
    (a e : ℕ)
    → a ≤ suc e
    → expand (record { start = pos a; end = pos e }) ≡ some (consecutive (suc e - a) a)
unfolding expand
expand-consecutive a e h =
    rw (capacity a e h) (ap some (expand_loop-consecutive (suc e - a) a e (omega arith)))

length-consecutive : (n a : ℕ) → length (consecutive n a) ≡ n
length-consecutive zero a = refl
length-consecutive (suc n) a = ap suc (length-consecutive n (suc a))

-- a TCP port
abbrev pub IsPort : ℤ → Type 0
IsPort p = (pos 1 ≤ℤ p) × (p ≤ℤ pos 65535)

consecutive-IsPort : (n a : ℕ) → 1 ≤ a → a + n ≤ 65536 → All IsPort (consecutive n a)
consecutive-IsPort zero a low high = tt
consecutive-IsPort (suc n) a low high =
    ((omega arith, omega arith), consecutive-IsPort n (suc a) (omega arith) (omega arith))

-- the ports of a range, counted from its start
abbrev pub ports_between : ℤ → ℤ → List ℤ
ports_between s e = consecutive (suc (pos_part e) - pos_part s) (pos_part s)

abbrev pub ports_of : PortRange → List ℤ
ports_of r = ports_between r.start r.end

expand_between :
    (s e : ℤ)
    → pos 1 ≤ℤ s
    → s ≤ℤ e
    → e ≤ℤ pos 65535
    → (expand (record { start = s; end = e }) ≡ some (ports_between s e))
      × All IsPort (ports_between s e)
expand_between (pos s) (pos e) low mid high = (
  expand-consecutive s e (omega arith),
  consecutive-IsPort (suc e - s) s (omega arith) (omega arith),
)
expand_between (pos s) (negsuc e) low mid high = absurd (omega arith)
expand_between (negsuc s) e low mid high = absurd (omega arith)

expand_of_InRange :
    (r : PortRange) → InRange r → (expand r ≡ some (ports_of r)) × All IsPort (ports_of r)
expand_of_InRange r h = expand_between r.start r.end h.positive h.ordered h.bounded

-- the ports of all ranges, one range after the other
abbrev pub ports_of_all : List PortRange → List ℤ
ports_of_all [] = []
ports_of_all (r ∷ rs) = ports_of r ++ ports_of_all rs

-- On ranges of TCP ports `AllPorts` does not panic: it returns the ports of each range in order,
-- range by range, and all of them are TCP ports.
pub all_ports-ports_of_all :
    (rs : List PortRange)
    → All InRange rs
    → (all_ports rs ≡ some (ports_of_all rs)) × All IsPort (ports_of_all rs)
unfolding all_ports
all_ports-ports_of_all [] h = (refl, tt)
all_ports-ports_of_all (r ∷ rs) (hr, hs) =
    let (e, ports) = expand_of_InRange r hr in
    let (es, all) = all_ports-ports_of_all rs hs in
    (rw (e, es), All-append IsPort (ports_of r) (ports_of_all rs) ports all)

consecutive-ne-nil : (n a : ℕ) → 0 < n → consecutive n a ≢ []
consecutive-ne-nil zero a h = absurd (omega arith)
consecutive-ne-nil (suc n) a h = cc

ports_between-ne-nil : (s e : ℤ) → pos 1 ≤ℤ s → s ≤ℤ e → ports_between s e ≢ []
ports_between-ne-nil (pos s) (pos e) low mid = consecutive-ne-nil (suc e - s) s (omega arith)
ports_between-ne-nil (pos s) (negsuc e) low mid = absurd (omega arith)
ports_between-ne-nil (negsuc s) e low mid = absurd (omega arith)

append-ne-nil : (xs ys : List ℤ) → xs ≢ [] → xs ++ ys ≢ []
append-ne-nil [] ys h = absurd (h refl)
append-ne-nil (x ∷ xs) ys h = cc

-- A range of TCP ports has a port.
pub ports_of_all-ne-nil : (rs : List PortRange) → All InRange rs → rs ≢ [] → ports_of_all rs ≢ []
ports_of_all-ne-nil [] h some_range = absurd (some_range refl)
ports_of_all-ne-nil (r ∷ rs) (hr, hs) some_range =
    append-ne-nil (ports_of r) (ports_of_all rs)
      (ports_between-ne-nil r.start r.end hr.positive hr.ordered)

-- ===== src/Text.antt =====
-- Go strings as lists of bytes, with what the sources use of `strings`, `strconv` and `net`:
-- `Contains` and `SplitN` at one byte, `Atoi`, `Itoa`, `JoinHostPort`.
pub mod Decimal
pub mod Split
use Prim.Native.Char.{code}
use Prim.Native.String.{String}
use gonc.Prelude.{
  ℕ, zero, suc, ◌+◌, ◌-◌, ◌*◌, ◌/◌, ◌%◌, ◌^◌, List, [], ◌∷◌, ◌++◌, Option, none, some, Bool, true,
  false, ◌||◌, ltb, leb, ◌==◌, if◌then◌else◌,
}
use gonc.Prelude.Int.{ℤ, pos, negsuc}

abbrev pub Str : Type 0
Str = List ℕ

-- The code points of a literal, which are its bytes when the text is ASCII.
abbrev pub codes : String → Str
codes String.[] = []
codes (String.◌∷◌ c s) = code c ∷ codes s

-- `s == ""`
abbrev pub is_empty : Str → Bool
is_empty [] = true
is_empty (c ∷ s) = false

-- `strings.Contains(s, sep)` for a separator of one byte
unfoldable pub contains : Str → ℕ → Bool
contains [] sep = false
contains (c ∷ s) sep = c == sep || contains s sep

-- The bytes before the first `sep`, and those behind it: `strings.SplitN(s, sep, 2)` where `sep` occurs.
unfoldable pub before : ℕ → Str → Str
before sep [] = []
before sep (c ∷ s) = let rest = before sep s in if c == sep then [] else c ∷ rest

unfoldable pub behind : ℕ → Str → Str
behind sep [] = []
behind sep (c ∷ s) = let rest = behind sep s in if c == sep then s else rest

abbrev pub is_digit : ℕ → Bool
is_digit c = if leb b'0' c then leb c b'9' else false

-- the number that a run of digits spells, behind what was read before it
unfoldable pub read_digits : Str → ℕ → Option ℕ
read_digits [] n = some n
read_digits (c ∷ s) n =
    let rest = read_digits s (n * 10 + (c - b'0')) in if is_digit c then rest else none

abbrev pub max_int : ℕ
max_int = 2 ^ 63 - 1

in_range_pos : ℕ → Option ℤ
in_range_pos n = if leb n max_int then some (pos n) else none

-- -0 is 0, and the least int64 is -2^63.
in_range_neg : ℕ → Option ℤ
in_range_neg n =
    if n == 0 then some (pos 0) else if leb n (max_int + 1) then some (negsuc (n - 1)) else none

abbrev then_range : Option ℕ → (ℕ → Option ℤ) → Option ℤ
then_range none f = none
then_range (some n) f = f n

read_unsigned : Str → (ℕ → Option ℤ) → Option ℤ
read_unsigned [] f = none
read_unsigned (c ∷ s) f = then_range (read_digits (c ∷ s) 0) f

-- `strconv.Atoi`: an optional sign, one or more digits, a value that an int64 holds.
unfoldable pub atoi : Str → Option ℤ
unfolding in_range_pos in_range_neg read_unsigned
atoi [] = none
atoi (c ∷ s) =
    if c == b'-'
    then read_unsigned s in_range_neg
    else if c == b'+'
    then read_unsigned s in_range_pos
    else read_unsigned (c ∷ s) in_range_pos

-- One round for each digit; `itoa` gives fuel for every number, since each round divides by ten.
unfoldable pub print_digits : ℕ → ℕ → Str → Str
print_digits zero n out = out
print_digits (suc fuel) n out =
    let more = print_digits fuel (n / 10) ((b'0' + n % 10) ∷ out) in
    if ltb n 10 then (b'0' + n) ∷ out else more

-- `strconv.Itoa`
unfoldable pub itoa : ℤ → Str
unfolding print_digits
itoa (pos n) = print_digits (suc n) n []
itoa (negsuc n) = b'-' ∷ print_digits (suc (suc n)) (suc n) []

-- `net.JoinHostPort`: a host with a colon or a percent sign is put in brackets.
unfoldable pub join_host_port : Str → Str → Str
unfolding contains
join_host_port host port =
    if contains host b':' || contains host b'%'
    then b'[' ∷ (host ++ b']' ∷ b':' ∷ port)
    else host ++ b':' ∷ port

-- `s == t`
unfoldable pub str_eq : Str → Str → Bool
str_eq [] [] = true
str_eq [] (d ∷ t) = false
str_eq (c ∷ s) [] = false
str_eq (c ∷ s) (d ∷ t) = let rest = str_eq s t in if c == d then rest else false

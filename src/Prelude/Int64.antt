-- ===== src/Prelude/Int64.antt =====
-- 64-bit counters, as bit patterns below 2 ^ 64: an addition wraps, an order reads the sign.
use gonc.Prelude.{ℕ, ◌-◌, ◌*◌, ◌<◌, ◌≡◌, arith, if◌then◌else◌, ◌%◌, ◌^◌, Bool, ◌&&◌, ltb, leb}
use native.Mathlib.Nat.{mod-eq_of_lt}
use gonc.Prelude.Int.{ℤ, pos, negsuc}

abbrev pub modulus : ℕ
modulus = 2 ^ 64

-- one more than the largest int64
abbrev pub sign_bit : ℕ
sign_bit = 2 ^ 63

abbrev pub wrap : ℕ → ℕ
wrap n = n % modulus

-- `n >= limit` for a signed `n` and a limit that is not negative
abbrev pub at_least : ℕ → ℕ → Bool
at_least n limit = leb limit n && ltb n sign_bit

-- the bit pattern of an integer, and the integer that a bit pattern stands for
abbrev pub pattern_of : ℤ → ℕ
pattern_of (pos n) = n % modulus
pattern_of (negsuc n) = modulus - 1 - n % modulus

abbrev pub signed : ℕ → ℤ
signed m = if ltb m sign_bit then pos m else negsuc (modulus - 1 - m)

-- `a * b` in int64
unfoldable pub mul_int64 : ℤ → ℤ → ℤ
mul_int64 a b = signed (pattern_of a * pattern_of b % modulus)

below_sign_bit : (n : ℕ) → n < sign_bit → n < modulus
below_sign_bit n h = omega arith

-- A product that an int64 holds is exact.
pub mul_int64_exact :
    (a b : ℕ)
    → a * b < sign_bit
    → a < modulus
    → b < modulus
    → mul_int64 (pos a) (pos b) ≡ pos (a * b)
unfolding mul_int64
mul_int64_exact a b h ha hb =
    rw (mod-eq_of_lt ha, mod-eq_of_lt hb, mod-eq_of_lt (below_sign_bit (a * b) h)) (ground arith)

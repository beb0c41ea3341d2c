-- ===== src/Text/Decimal.antt =====
-- `Atoi` reads back what `Itoa` writes.
use gonc.Prelude.{
  ℕ, zero, suc, ◌+◌, ◌/◌, ◌%◌, ◌≤◌, ◌<◌, ◌≡◌, ◌≢◌, refl, [], ◌∷◌, some, true, false, arith,
}
use gonc.Prelude.Int.{pos}
use gonc.Text.{Str, is_digit, read_digits, max_int, atoi, print_digits, itoa, contains}

-- reading the last digit of `n` after the digits before it gives `n`
read_last : (n : ℕ) (out : Str) → read_digits ((b'0' + n % 10) ∷ out) (n / 10) ≡ read_digits out n
unfolding read_digits
read_last n out = ground arith

read_single : (n : ℕ) (out : Str) → n < 10 → read_digits ((b'0' + n) ∷ out) 0 ≡ read_digits out n
unfolding read_digits
read_single n out h = ground arith

-- With fuel above the number the print is complete.
pub read_digits-print_digits :
    (fuel n : ℕ) (out : Str)
    → n < fuel
    → read_digits (print_digits fuel n out) 0 ≡ read_digits out n
unfolding print_digits
read_digits-print_digits zero n out h = elim h [ ]
read_digits-print_digits (suc fuel) n out h = ground (
  arith,
  read_single n out,
  read_last n out,
  read_digits-print_digits fuel (n / 10) ((b'0' + n % 10) ∷ out),
)

-- A print holds digits only, and at least one of them.
abbrev pub AllDigits : Str → Type 0
AllDigits [] = Unit
AllDigits (c ∷ s) = (is_digit c ≡ true) × AllDigits s

abbrev pub IsNumber : Str → Type 0
IsNumber [] = ⊥
IsNumber (c ∷ s) = (is_digit c ≡ true) × AllDigits s

pub print_digits-AllDigits :
    (fuel n : ℕ) (out : Str) → AllDigits out → AllDigits (print_digits fuel n out)
unfolding print_digits
print_digits-AllDigits zero n out h = h
print_digits-AllDigits (suc fuel) n out h =
    ground (arith, print_digits-AllDigits fuel (n / 10) ((b'0' + n % 10) ∷ out))

pub print_digits-IsNumber :
    (fuel n : ℕ) (out : Str) → IsNumber out → IsNumber (print_digits fuel n out)
unfolding print_digits
print_digits-IsNumber zero n out h = h
print_digits-IsNumber (suc fuel) n [] h = elim h [ ]
print_digits-IsNumber (suc fuel) n (c ∷ out) h =
    ground (arith, print_digits-IsNumber fuel (n / 10) ((b'0' + n % 10) ∷ c ∷ out))

itoa-IsNumber : (n : ℕ) → IsNumber (itoa (pos n))
unfolding itoa
itoa-IsNumber n = ground (arith, print_digits-IsNumber n (n / 10) ((b'0' + n % 10) ∷ []))

-- Digits are neither signs nor separators.
pub AllDigits-contains :
    (sep : ℕ) (s : Str) → is_digit sep ≡ false → AllDigits s → contains s sep ≡ false
unfolding contains
AllDigits-contains sep [] h d = refl
AllDigits-contains sep (c ∷ s) h d = ground (arith, AllDigits-contains sep s)

atoi_number :
    (s : Str) (n : ℕ) → IsNumber s → read_digits s 0 ≡ some n → n ≤ max_int → atoi s ≡ some (pos n)
unfolding atoi
atoi_number [] n d e h = elim d [ ]
atoi_number (c ∷ s) n d e h = ground arith

read_digits-itoa : (n : ℕ) → read_digits (itoa (pos n)) 0 ≡ some n
unfolding itoa read_digits
read_digits-itoa n = read_digits-print_digits (suc n) n [] (omega arith)

-- `Atoi` undoes `Itoa` on every int64 that is not negative.
pub atoi-itoa : (n : ℕ) → n ≤ max_int → atoi (itoa (pos n)) ≡ some (pos n)
atoi-itoa n h = atoi_number (itoa (pos n)) n (itoa-IsNumber n) (read_digits-itoa n) h

IsNumber-AllDigits : (s : Str) → IsNumber s → AllDigits s
IsNumber-AllDigits [] h = tt
IsNumber-AllDigits (c ∷ s) h = h

-- A printed number holds no byte but digits.
pub itoa-Lacks : (sep n : ℕ) → is_digit sep ≡ false → contains (itoa (pos n)) sep ≡ false
itoa-Lacks sep n h = AllDigits-contains sep _ h (IsNumber-AllDigits _ (itoa-IsNumber n))

pub itoa-AllDigits : (n : ℕ) → AllDigits (itoa (pos n))
itoa-AllDigits n = IsNumber-AllDigits _ (itoa-IsNumber n)

IsNumber-ne-nil : (s : Str) → IsNumber s → s ≢ []
IsNumber-ne-nil [] h = elim h [ ]
IsNumber-ne-nil (c ∷ s) h = cc

pub itoa-ne-nil : (n : ℕ) → itoa (pos n) ≢ []
itoa-ne-nil n = IsNumber-ne-nil _ (itoa-IsNumber n)

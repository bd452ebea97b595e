-- ===== src/Log/Figures.antt =====
-- The bytes that `print_dec` and `print_hex` of kernel/kernel/ui/log.c write are digits.
use comet_os.Base.{
  ◌==◌, leb, if◌then◌else◌, ℕ, zero, suc, ◌+◌, ◌-◌, ◌/◌, ◌%◌, ◌*◌, ◌^◌, ◌≤◌, ◌<◌, ◌⊎◌, inl, inr,
  arith, List, [], ◌∷◌, ◌++◌,
}
use native.Mathlib.Decide.{dec_lt}
use comet_os.Log.{widen_from, zeros, digits_before, print_dec, hex_digit, hex_digits, print_hex}

-- A decimal digit, and a hexadecimal one with small letters.
abbrev pub IsFigure : ℕ → Type 0
IsFigure c = (b'0' ≤ c) × (c ≤ b'9')

abbrev pub IsHexFigure : ℕ → Type 0
IsHexFigure c = IsFigure c ⊎ ((b'a' ≤ c) × (c ≤ b'f'))

-- What holds of each byte.
abbrev pub Each : (ℕ → Type 0) → List ℕ → Type 0
Each P [] = Unit {0}
Each P (c ∷ cs) = P c × Each P cs

Each-append : (P : ℕ → Type 0) (xs ys : List ℕ) → Each P xs → Each P ys → Each P (xs ++ ys)
Each-append P [] ys hx hy = hy
Each-append P (x ∷ xs) ys (h, hx) hy = (h, Each-append P xs ys hx hy)

Each-zeros : (P : ℕ → Type 0) (n : ℕ) → P b'0' → Each P (zeros n)
unfolding zeros
Each-zeros P zero h = tt
Each-zeros P (suc n) h = (h, Each-zeros P n h)

Each-digits_before :
    (n value : ℕ) (written : List ℕ)
    → Each IsFigure written
    → Each IsFigure (digits_before n value written)
unfolding digits_before
Each-digits_before zero value written h = h
Each-digits_before (suc n) value written h =
    Each-digits_before n (value / 10) ((value % 10 + b'0') ∷ written)
      ((omega arith, omega arith), h)

hex_digit-IsHexFigure : (d : ℕ) → d < 16 → IsHexFigure (hex_digit d)
hex_digit-IsHexFigure d h = elim (dec_lt d 10) [
  | yes low ↦ inl (ground arith, ground arith)
  | no high ↦ inr (ground arith, ground arith)
]

Each-hex_digits : (n value : ℕ) → Each IsHexFigure (hex_digits n value)
unfolding hex_digits
Each-hex_digits zero value = tt
Each-hex_digits (suc n) value =
    (hex_digit-IsHexFigure (value / 2 ^ (n * 4) % 16) (omega arith), Each-hex_digits n value)

pub print_dec-Each : (value width : ℕ) → Each IsFigure (print_dec value width)
unfolding print_dec
print_dec-Each value width =
    let found = (widen_from 32 10 value 1 9).0 in
    Each-append IsFigure (zeros (width - found)) (digits_before found value [])
      (Each-zeros IsFigure (width - found) (omega arith, omega arith))
      (Each-digits_before found value [] tt)

pub print_hex-Each : (value width : ℕ) → Each IsHexFigure (print_hex value width)
unfolding print_hex
print_hex-Each value width =
    let found = (widen_from 32 16 value 1 15).0 in
    let asked = if width == 0 then 8 else if leb (2 ^ 31) width then 0 else width in
    Each-append IsHexFigure (zeros (asked - found)) (hex_digits found value)
      (Each-zeros IsHexFigure (asked - found) (inl (omega arith, omega arith)))
      (Each-hex_digits found value)

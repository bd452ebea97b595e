-- ===== src/Log/Hexadecimal.antt =====
-- `print_hex` of kernel/kernel/ui/log.c.
use Prim.Native.Nat.{max}
use comet_os.Base.{
  leb, ℕ, zero, suc, ◌+◌, ◌-◌, ◌*◌, ◌/◌, ◌%◌, ◌^◌, ◌≤◌, ◌<◌, ◌≡◌, refl, sym, ap, ◌∙◌, arith, ◌==◌,
  length, length-append, if◌then◌else◌,
}
use native.Mathlib.Nat.{
  div-add-mod, mod-lt, add-mul-mod_self_left, mod-eq_of_lt, pow-suc, one-le-pow,
}
use comet_os.Base.Digits.{numeral, numeral-append, digit_value}
use comet_os.Log.{widen_from, zeros, hex_digit, hex_digits, print_hex}
use comet_os.Log.Widths.{
  bound_after, widen_from-bound, widen_from_end, widen_from-le, numeral-zeros, length-zeros,
}

-- A digit above the last places.
mod-mul_sixteen : (v p : ℕ) → 0 < p → v % (p * 16) ≡ v % p + p * (v / p % 16)
mod-mul_sixteen v p h =
    let q = v / p in
    let whole : p * q + v % p ≡ v = div-add-mod v p in
    let tens : 16 * (q / 16) + q % 16 ≡ q = omega arith in
    let split : v ≡ (v % p + p * (q % 16)) + p * 16 * (q / 16) =
      sym whole ∙ parts p q (q / 16) (q % 16) (v % p) tens in
    let small : v % p + p * (q % 16) < p * 16 =
      below p (v % p) (q % 16) (mod-lt v h) (omega arith) in
    ap (λ x. x % (p * 16)) split
    ∙ add-mul-mod_self_left (v % p + p * (q % 16)) (p * 16) (q / 16)
    ∙ mod-eq_of_lt small
  where
    parts : (a q t s r : ℕ) → 16 * t + s ≡ q → a * q + r ≡ (r + a * s) + a * 16 * t
    parts a q t s r e = rw (← e) (omega arith)

    below : (a r s : ℕ) → r < a → s < 16 → r + a * s < a * 16
    below a r s l g = grind arith

sixteen-pow : (i : ℕ) → 2 ^ (i * 4) ≡ 16 ^ i
sixteen-pow zero = refl
sixteen-pow (suc i) =
    let four : suc i * 4 ≡ suc (suc (suc (suc (i * 4)))) = omega arith in
    let doubled : 2 ^ suc (suc (suc (suc (i * 4)))) ≡ 16 ^ suc i = omega (
      arith,
      pow-suc 2 (i * 4),
      pow-suc 2 (suc (i * 4)),
      pow-suc 2 (suc (suc (i * 4))),
      pow-suc 2 (suc (suc (suc (i * 4)))),
      pow-suc 16 i,
      sixteen-pow i,
    ) in
    ap (λ x. 2 ^ x) four ∙ doubled

numeral-hex_digits :
    (n value acc : ℕ) → numeral 16 (hex_digits n value) acc ≡ acc * 16 ^ n + value % 16 ^ n
unfolding numeral hex_digits
numeral-hex_digits zero value acc = omega arith
numeral-hex_digits (suc i) value acc =
    let d = value / 2 ^ (i * 4) % 16 in
    let digit : digit_value (hex_digit d) ≡ d = ground arith in
    let place : d ≡ value / 16 ^ i % 16 = ap (λ p. value / p % 16) (sixteen-pow i) in
    let top : value % 16 ^ suc i ≡ value % 16 ^ i + 16 ^ i * (value / 16 ^ i % 16) =
      ap (λ p. value % p) (pow-suc 16 i)
      ∙ mod-mul_sixteen value (16 ^ i) (one-le-pow i 16 (omega arith)) in
    numeral-hex_digits i value (acc * 16 + digit_value (hex_digit d))
    ∙ joined acc (16 ^ i) (16 ^ suc i) (digit_value (hex_digit d)) (value / 16 ^ i % 16)
        (value % 16 ^ i) (value % 16 ^ suc i) (pow-suc 16 i) (digit ∙ place) top
  where
    joined :
        (a p q c d r s : ℕ) → q ≡ p * 16 → c ≡ d → s ≡ r + p * d → (a * 16 + c) * p + r ≡ a * q + s
    joined a p q c d r s eq e es = rw (eq, e, es) (omega arith)

bound_32 : bound_after 16 32 15 ≡ 2 ^ 32 - 1
unfolding bound_after
bound_32 = refl

-- The digits found for a value.
pub hex_width : ℕ → ℕ
unfolding widen_from
hex_width value = (widen_from 32 16 value 1 15).0

-- 0 means 8, and a width that is negative as an `int` means none.
abbrev pub asked_width : ℕ → ℕ
asked_width width = if width == 0 then 8 else if leb (2 ^ 31) width then 0 else width

length-hex_digits : (n value : ℕ) → length (hex_digits n value) ≡ n
unfolding hex_digits
length-hex_digits zero value = refl
length-hex_digits (suc n) value = omega (arith, length-hex_digits n value)

-- `print_hex` of a 32-bit value writes a hexadecimal numeral of that value, as long as the larger of
-- the width asked for, for which 0 means 8 and a negative `int` none, and the width found, which is at
-- most 8.
pub print_hex-numeral :
    (value width : ℕ)
    → value < 2 ^ 32
    → (numeral 16 (print_hex value width) 0 ≡ value)
      × (length (print_hex value width) ≡ max (hex_width value) (asked_width width))
      × (hex_width value ≤ 8)
unfolding print_hex hex_width numeral bound_after
print_hex-numeral value width h =
    let found = hex_width value in
    let asked = asked_width width in
    let shown = hex_digits found value in
    let grown = widen_from-bound 32 16 value 1 15 (omega arith) (omega arith) (omega arith) in
    let ended = widen_from_end 32 16 value 1 15 h bound_32 in
    let small : value < 16 ^ found = omega arith in
    (
      numeral-append 16 (zeros (asked - found)) shown 0
          ∙ ap (λ x. numeral 16 shown x) (numeral-zeros 16 (asked - found))
          ∙ numeral-hex_digits found value 0
          ∙ omega (arith, mod-eq_of_lt small),
      omega (
        arith,
        length-append (zeros (asked - found)) shown,
        length-zeros (asked - found),
        length-hex_digits found value,
      ),
      omega (arith, widen_from-le 7 32 16 value 1 15 (omega arith) (omega arith)),
    )

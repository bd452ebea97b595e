-- ===== src/Log/Decimal.antt =====
-- `print_dec` of kernel/kernel/ui/log.c.
use comet_os.Base.{
  length-append, length, ℕ, zero, suc, ◌+◌, ◌-◌, ◌*◌, ◌/◌, ◌%◌, ◌^◌, ◌≤◌, ◌<◌, ◌≡◌, ◌↔◌, refl, ap,
  ◌∙◌, arith, List, [], ◌∷◌,
}
use Prim.Native.Nat.{max}
use native.Mathlib.Decide.{dec_lt}
use native.Mathlib.Nat.{pow-suc}
use comet_os.Base.Digits.{numeral, numeral-append, digit_value}
use comet_os.Log.Widths.{
  bound_after, widen_from-bound, widen_from_end, widen_from-le, AllBelow, lt-widen_from,
  numeral-zeros, length-zeros,
}
use comet_os.Log.{widen_from, zeros, digits_before, print_dec}

-- The digits written stand for the value, where the width holds it.
numeral-digits_before :
    (n value acc : ℕ) (written : List ℕ)
    → value < 10 ^ n
    → numeral 10 (digits_before n value written) acc ≡ numeral 10 written (acc * 10 ^ n + value)
unfolding numeral digits_before
numeral-digits_before zero value acc written h = ap (λ x. numeral 10 written x) (omega arith)
numeral-digits_before (suc n) value acc written h =
    let fits : value / 10 < 10 ^ n = omega (arith, pow-suc 10 n) in
    let joined : (acc * 10 ^ n + value / 10) * 10 + digit_value (value % 10 + b'0')
        ≡ acc * 10 ^ suc n + value =
      rw (pow-suc 10 n) (ground arith) in
    numeral-digits_before n (value / 10) acc ((value % 10 + b'0') ∷ written) fits
    ∙ ap (λ x. numeral 10 written x) joined

bound_32 : bound_after 10 32 9 ≡ 2 ^ 32 - 1
unfolding bound_after
bound_32 = refl

-- The digits found for a value: at least one, and enough to hold it.
pub dec_width : ℕ → ℕ
unfolding widen_from
dec_width value = (widen_from 32 10 value 1 9).0

dec_width_holds :
    (value : ℕ) → value < 2 ^ 32 → (value < 10 ^ dec_width value) × (0 < dec_width value)
unfolding dec_width
dec_width_holds value h =
    let b = widen_from-bound 32 10 value 1 9 (omega arith) (omega arith) (omega arith) in
    let e = widen_from_end 32 10 value 1 9 h bound_32 in (omega arith, b.1)

dec_width-le_iff : (value : ℕ) → (dec_width value ≤ 10) ↔ (value ≤ 1410065407)
unfolding dec_width bound_after AllBelow
dec_width-le_iff value = (
  λ h. elim (dec_lt 1410065407 value) [
    | yes above ↦
        absurd (omega (arith, lt-widen_from 10 32 10 value 1 9 (omega arith) (below above)))
    | no fits ↦ omega arith
  ],
  λ h. widen_from-le 9 32 10 value 1 9 (omega arith) h,
)
  where
    below : 1410065407 < value → AllBelow 10 value 10 9
    below above = (omega arith, omega arith, omega arith)

length-digits_before :
    (n value : ℕ) (written : List ℕ) → length (digits_before n value written) ≡ n + length written
unfolding digits_before
length-digits_before zero value written = omega arith
length-digits_before (suc n) value written =
    omega (arith, length-digits_before n (value / 10) ((value % 10 + b'0') ∷ written))

-- `print_dec` of a 32-bit value writes a decimal numeral of that value, as long as the larger of the
-- width asked for and the width found; the width found is at most the ten digits that a 32-bit value
-- can have just when the value is at most 1410065407, and more (zeros in front) above that.
pub print_dec-numeral :
    (value width : ℕ)
    → value < 2 ^ 32
    → (numeral 10 (print_dec value width) 0 ≡ value)
      × (length (print_dec value width) ≡ max (dec_width value) width)
      × ((dec_width value ≤ 10) ↔ (value ≤ 1410065407))
unfolding print_dec dec_width numeral
print_dec-numeral value width h =
    let found = dec_width value in
    let shown = digits_before found value [] in
    (
      numeral-append 10 (zeros (width - found)) shown 0
          ∙ ap (λ x. numeral 10 shown x) (numeral-zeros 10 (width - found))
          ∙ numeral-digits_before found value 0 [] (dec_width_holds value h).0
          ∙ read_nil (0 * 10 ^ found + value)
          ∙ omega arith,
      omega (
        arith,
        length-append (zeros (width - found)) shown,
        length-zeros (width - found),
        length-digits_before found value [],
      ),
      dec_width-le_iff value,
    )
  where
    read_nil : (n : ℕ) → numeral 10 [] n ≡ n
    read_nil n = refl

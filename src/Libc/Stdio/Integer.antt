-- ===== src/Libc/Stdio/Integer.antt =====
-- `convert_integer` of libc/stdio/printf.c.
use comet_os.Base.{
  ℕ, zero, suc, ◌+◌, ◌-◌, ◌*◌, ◌/◌, ◌%◌, ◌^◌, ◌≤◌, ◌<◌, ◌≡◌, ◌⊎◌, inl, inr, refl, ap, ◌∙◌, arith,
  Bool, true, List, [], ◌∷◌, length, leb,
}
use native.Mathlib.Decide.{dec_lt}
use native.Mathlib.Nat.{
  pow-suc, pow-zero, div-lt_iff_lt-mul, le-div_iff_mul-le, div-add-mod, mod-lt, mul-le-mul_right,
}
use comet_os.Base.Digits.{numeral, digit_value, pow_next}
use comet_os.Libc.Stdio.{digit_count, digit_of, put_digits, convert_integer}

module _ (base : ℕ) (low : 8 ≤ base) where
  half_of : (copy : ℕ) → copy / base ≤ copy / 8
  half_of copy = omega (arith, mul-le-mul_right (copy / base) low, div-add-mod copy base)

  pow_one : base ^ 1 ≡ base
  pow_one = pow-suc base 0 ∙ ap (λ x. x * base) (pow-zero base) ∙ omega arith

  le-digit_count : (f copy result : ℕ) → result ≤ digit_count f base copy result
  unfolding digit_count
  le-digit_count zero copy result = omega arith
  le-digit_count (suc f) copy result = ground (arith, le-digit_count f (copy / base) (result + 1))

  digit_count_shift :
      (f copy result : ℕ)
      → digit_count f base copy (result + 1) ≡ digit_count f base copy result + 1
  unfolding digit_count
  digit_count_shift zero copy result = refl
  digit_count_shift (suc f) copy result =
      ground (arith, digit_count_shift f (copy / base) (result + 1))

  -- The count of a value that has more than one digit.
  count_step :
      (f copy : ℕ)
      → base ≤ copy
      → digit_count (suc f) base copy 1 ≡ digit_count f base (copy / base) 1 + 1
  unfolding digit_count
  count_step f copy h =
      let more : leb base copy ≡ true = ground arith in
      rw (digit_count, more) (digit_count_shift f (copy / base) 1)

  count_last : (f copy : ℕ) → copy < base → digit_count (suc f) base copy 1 ≡ 1
  unfolding digit_count
  count_last f copy h = ground arith

  count_holds : (f copy : ℕ) → copy < 2 ^ f → copy < base ^ digit_count f base copy 1
  unfolding digit_count
  count_holds zero copy h = omega (arith, pow_one)
  count_holds (suc f) copy h = elim (dec_lt copy base) [
    | yes last ↦ rw (count_last f copy last) (omega (arith, pow_one))
    | no more ↦
        let rest = count_holds f (copy / base) (omega (arith, half_of copy, pow-suc 2 f)) in
        rw (count_step f copy (omega arith), pow_next base (digit_count f base (copy / base) 1))
          ((div-lt_iff_lt-mul (omega arith)).0 rest)
  ]

  longer :
      (n copy : ℕ)
      → 0 < n
      → base ≤ copy
      → (n ≡ 1) ⊎ (base ^ (n - 1) ≤ copy / base)
      → base ^ n ≤ copy
  longer n copy p h (inl e) = rw e (omega (arith, pow_one))
  longer n copy p h (inr l) =
      let e : n - 1 + 1 ≡ n = omega arith in
      let big : base ^ (n - 1) * base ≤ copy = (le-div_iff_mul-le (omega arith)).0 l in
      rw (← e, pow_next base (n - 1)) big

  -- All digits but the last one are needed.
  count_least :
      (f copy : ℕ)
      → (digit_count f base copy 1 ≡ 1) ⊎ (base ^ (digit_count f base copy 1 - 1) ≤ copy)
  unfolding digit_count
  count_least zero copy = inl refl
  count_least (suc f) copy = elim (dec_lt copy base) [
    | yes last ↦ inl (count_last f copy last)
    | no more ↦
        let n = digit_count f base (copy / base) 1 in
        let e : digit_count (suc f) base copy 1 - 1 ≡ n =
          omega (arith, count_step f copy (omega arith)) in
        inr (
          rw e (
            longer n copy (omega (arith, le-digit_count f (copy / base) 1)) (omega arith)
              (count_least f (copy / base))))
  ]

  count_bound : (k f copy : ℕ) → copy < 8 ^ suc k → digit_count f base copy 1 ≤ suc k
  unfolding digit_count
  count_bound k zero copy h = omega arith
  count_bound zero (suc f) copy h = omega (arith, count_last f copy (omega arith))
  count_bound (suc k) (suc f) copy h = elim (dec_lt copy base) [
    | yes last ↦ omega (arith, count_last f copy last)
    | no more ↦
        let fewer =
          count_bound k f (copy / base) (omega (arith, half_of copy, pow-suc 8 (suc k))) in
        omega (arith, count_step f copy (omega arith))
  ]

numeral-put_digits :
    (n value base : ℕ) (upper : Bool) (acc : ℕ) (written : List ℕ)
    → 0 < base
    → base ≤ 16
    → value < base ^ n
    → numeral base (put_digits n value base upper written) acc
      ≡ numeral base written (acc * base ^ n + value)
unfolding numeral put_digits
numeral-put_digits zero value base upper acc written p h l =
    ap (λ x. numeral base written x) (rw (pow-zero base) (omega (arith, pow-zero base)))
numeral-put_digits (suc n) value base upper acc written p h l =
    let d = value % base in
    let small : d < base = mod-lt value p in
    let read : digit_value (digit_of upper d) ≡ d = ground arith in
    let fits : value / base < base ^ n = (div-lt_iff_lt-mul p).1 (omega (arith, pow-suc base n)) in
    numeral-put_digits n (value / base) base upper acc (digit_of upper d ∷ written) p h fits
    ∙ ap (λ x. numeral base written x)
        (joined acc (base ^ n) (base ^ suc n) base (value / base) (digit_value (digit_of upper d)) d
          value (pow-suc base n) read (div-add-mod value base))
  where
    joined :
        (a p q b t c d v : ℕ) → q ≡ p * b → c ≡ d → b * t + d ≡ v → (a * p + t) * b + c ≡ a * q + v
    joined a p q b t c d v eq e ev = rw (eq, e, ← ev) (omega arith)

length-put_digits :
    (n value base : ℕ) (upper : Bool) (written : List ℕ)
    → length (put_digits n value base upper written) ≡ n + length written
unfolding put_digits
length-put_digits zero value base upper written = omega arith
length-put_digits (suc n) value base upper written =
    omega (
      arith,
      length-put_digits n (value / base) base upper (digit_of upper (value % base) ∷ written),
    )

-- `convert_integer` of a 64-bit value in a base from 8 to 16 writes a numeral of that value in the
-- base, with no digit more than the value takes; these are at most 22, and so fit the 24 bytes of
-- `output`.
pub convert_integer-numeral :
    (value base : ℕ) (upper : Bool)
    → value < 2 ^ 64
    → 8 ≤ base
    → base ≤ 16
    → (numeral base (convert_integer value base upper) 0 ≡ value)
      × ((length (convert_integer value base upper) ≡ 1)
          ⊎ (base ^ (length (convert_integer value base upper) - 1) ≤ value))
      × (0 < length (convert_integer value base upper))
      × (length (convert_integer value base upper) ≤ 22)
unfolding convert_integer numeral
convert_integer-numeral value base upper h lo hi =
    let n = digit_count 64 base value 1 in
    let e : length (convert_integer value base upper) ≡ n =
      omega (arith, length-put_digits n value base upper []) in
    (
      numeral-put_digits n value base upper 0 [] (omega arith) hi (count_holds base lo 64 value h)
          ∙ omega arith,
      rw e (count_least base lo 64 value),
      omega (arith, le-digit_count base lo 64 value 1),
      omega (arith, count_bound base lo 21 64 value (omega arith)),
    )

-- ===== src/Log/Widths.antt =====
-- The loop of kernel/kernel/ui/log.c that finds how many digits a number takes, and the zeros in
-- front of it.
use comet_os.Base.{
  ℕ, zero, suc, ◌+◌, ◌-◌, ◌*◌, ◌^◌, ◌≤◌, ◌<◌, ◌≡◌, refl, ap, ◌∙◌, arith, length, u32,
}
use native.Mathlib.Nat.{mul-le-mul_right}
use comet_os.Base.Digits.{numeral, pow_next}
use comet_os.Log.{widen_from, zeros}

-- One round of the loop keeps its bound below the next power.
next_bound :
    (i base power : ℕ)
    → 0 < base
    → i + 1 ≤ power
    → u32 (u32 (i * base) + (base - 1)) + 1 ≤ power * base
next_bound i base power p h =
    let more : (i + 1) * base ≤ power * base = mul-le-mul_right base h in
    let whole : (i + 1) * base ≡ i * base + base = omega arith in omega arith

-- The bound of the loop stays below the power of its width.
pub widen_from-bound :
    (f base value n_width i : ℕ)
    → 0 < base
    → i + 1 ≤ base ^ n_width
    → 0 < n_width
    → ((widen_from f base value n_width i).1 + 1 ≤ base ^ (widen_from f base value n_width i).0)
      × (0 < (widen_from f base value n_width i).0)
unfolding widen_from
widen_from-bound zero base value n_width i b h p = (h, p)
widen_from-bound (suc f) base value n_width i b h p =
    let grown : base ^ (n_width + 1) ≡ base ^ n_width * base = pow_next base n_width in
    let next = next_bound i base (base ^ n_width) b h in
    let rest =
      widen_from-bound f base value (n_width + 1) (u32 (u32 (i * base) + (base - 1))) b
        (omega arith) (omega arith) in
    ground arith

-- The bound of the loop after `f` rounds.
unfoldable pub bound_after : ℕ → ℕ → ℕ → ℕ
bound_after base zero i = i
bound_after base (suc f) i = bound_after base f (u32 (u32 (i * base) + (base - 1)))

-- The loop ends by its own test, for a fuel that lets the bound come to UINT32_MAX.
pub widen_from_end :
    (f base value n_width i : ℕ)
    → value < 2 ^ 32
    → bound_after base f i ≡ 2 ^ 32 - 1
    → value ≤ (widen_from f base value n_width i).1
unfolding widen_from bound_after
widen_from_end zero base value n_width i h e = omega arith
widen_from_end (suc f) base value n_width i h e =
    ground (arith, widen_from_end f base value (n_width + 1) (u32 (u32 (i * base) + (base - 1))))

pub widen_from-le :
    (d f base value n_width i : ℕ)
    → d ≤ f
    → value ≤ bound_after base d i
    → (widen_from f base value n_width i).0 ≤ n_width + d
unfolding widen_from bound_after
widen_from-le d zero base value n_width i h b = omega arith
widen_from-le zero (suc f) base value n_width i h b = ground arith
widen_from-le (suc d) (suc f) base value n_width i h b =
    ground (arith, widen_from-le d f base value (n_width + 1) (u32 (u32 (i * base) + (base - 1))))

pub le-widen_from : (f base value n_width i : ℕ) → n_width ≤ (widen_from f base value n_width i).0
unfolding widen_from
le-widen_from zero base value n_width i = omega arith
le-widen_from (suc f) base value n_width i =
    ground (arith, le-widen_from f base value (n_width + 1) (u32 (u32 (i * base) + (base - 1))))

-- The bounds of the first rounds are all below the value.
unfoldable pub AllBelow : ℕ → ℕ → ℕ → ℕ → Type 0
AllBelow base value zero i = Unit {0}
AllBelow base value (suc d) i =
    (i < value) × (i < 2 ^ 32 - 1) × AllBelow base value d (u32 (u32 (i * base) + (base - 1)))

pub lt-widen_from :
    (d f base value n_width i : ℕ)
    → d ≤ f
    → AllBelow base value d i
    → n_width + d ≤ (widen_from f base value n_width i).0
unfolding widen_from AllBelow
lt-widen_from zero f base value n_width i h b = omega (arith, le-widen_from f base value n_width i)
lt-widen_from (suc d) zero base value n_width i h b = omega arith
lt-widen_from (suc d) (suc f) base value n_width i h b =
    ground (arith, lt-widen_from d f base value (n_width + 1) (u32 (u32 (i * base) + (base - 1))))

pub numeral-zeros : (base n : ℕ) → numeral base (zeros n) 0 ≡ 0
unfolding numeral zeros
numeral-zeros base zero = refl
numeral-zeros base (suc n) = ap (λ x. numeral base (zeros n) x) (omega arith) ∙ numeral-zeros base n

pub length-zeros : (n : ℕ) → length (zeros n) ≡ n
unfolding zeros
length-zeros zero = refl
length-zeros (suc n) = omega (arith, length-zeros n)

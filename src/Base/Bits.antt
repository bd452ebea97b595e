-- ===== src/Base/Bits.antt =====
-- Laws of `|` at variables, from the digit recursion that the native operation stands for.
use native.Mathlib.Decide.{dec_lt}
use Prim.Native.Nat.{
  ℕ, zero, suc, ◌+◌, ◌*◌, ◌/◌, ◌%◌, ◌^◌, ◌≤◌, ◌<◌, max, bit_or, digits, bit_or-bitwise,
}
use mathlib.Core.Path.{◌∙◌, sym, ◌≡◌, refl, ap}
use native.Mathlib.Nat.{le_refl, pow-suc}
use native.Mathlib.Omega.{arith}

abbrev or_digits : ℕ → ℕ → ℕ → ℕ
or_digits n a b = digits (λ y. y) max n a b

-- A unit of fuel more than the left operand is not used.
or_digits_more : (b n a : ℕ) → a ≤ n → or_digits (suc n) a b ≡ or_digits n a b
or_digits_more b n zero le = elim n as (λ k. or_digits (suc k) 0 b ≡ or_digits k 0 b) [
  | zero ↦ refl
  | suc k ↦ refl
]
or_digits_more b (suc n) (suc a) le =
    let half : suc a / 2 ≤ n = omega arith in
    omega (arith, or_digits_more (b / 2) n (suc a / 2) half)
or_digits_more b zero (suc a) le = absurd (omega arith)

-- So any fuel from there on does.
or_digits_spare : (m n a b : ℕ) → n ≤ m → a ≤ n → or_digits m a b ≡ or_digits n a b
or_digits_spare zero n a b hm ha = let e : 0 ≡ n = omega arith in ap (λ (k : ℕ). or_digits k a b) e
or_digits_spare (suc m) n a b hm ha = elim (dec_lt n (suc m)) [
  | yes lt ↦ or_digits_more b m a (omega arith) ∙ or_digits_spare m n a b (omega arith) ha
  | no ge ↦ let e : suc m ≡ n = omega arith in ap (λ (k : ℕ). or_digits k a b) e
]

pub zero-bit_or : (y : ℕ) → bit_or 0 y ≡ y
zero-bit_or y = bit_or-bitwise 0 y

-- The law of the lowest digit.
pub bit_or-digit : (x y : ℕ) → bit_or x y ≡ max (x % 2) (y % 2) + 2 * bit_or (x / 2) (y / 2)
bit_or-digit zero y = omega (arith, zero-bit_or (y / 2), zero-bit_or y)
bit_or-digit (suc x) y =
    let shorter = or_digits_spare x (suc x / 2) (suc x / 2) (y / 2) (omega arith) (le_refl _) in
    omega (arith, shorter, bit_or-bitwise (suc x / 2) (y / 2), bit_or-bitwise (suc x) y)

bit_or-zero_below : (n a : ℕ) → a < n → bit_or a 0 ≡ a
bit_or-zero_below zero a h = absurd (omega arith)
bit_or-zero_below (suc n) a h = elim (dec_lt 0 a) [
  | yes pos ↦
      let half : a / 2 < n = omega arith in
      omega (arith, bit_or-zero_below n (a / 2) half, bit_or-digit a 0)
  | no none_left ↦
      let e : a ≡ 0 = omega arith in ap (λ (t : ℕ). bit_or t 0) e ∙ zero-bit_or 0 ∙ sym e
]

pub bit_or-zero : (a : ℕ) → bit_or a 0 ≡ a
bit_or-zero a = bit_or-zero_below (a + 1) a (omega arith)

bit_or-half : (a b : ℕ) → bit_or a b / 2 ≡ bit_or (a / 2) (b / 2)
bit_or-half a b = omega (arith, bit_or-digit a b)

pub bit_or-mod_two : (a b : ℕ) → bit_or a b % 2 ≡ max (a % 2) (b % 2)
bit_or-mod_two a b = omega (arith, bit_or-digit a b)

abbrev halves : ℕ → ℕ → ℕ
halves zero a = a
halves (suc k) a = halves k (a / 2)

halves-bit_or : (k a b : ℕ) → halves k (bit_or a b) ≡ bit_or (halves k a) (halves k b)
halves-bit_or zero a b = refl
halves-bit_or (suc k) a b = rw (bit_or-half a b) (halves-bit_or k (a / 2) (b / 2))

halves_page : (a : ℕ) → halves 12 a ≡ a / 4096
halves_page a = omega arith

-- `|` acts on the page number and on the twelve low bits apart.
pub bit_or-page : (a b : ℕ) → bit_or a b / 4096 ≡ bit_or (a / 4096) (b / 4096)
bit_or-page a b =
    rw (← halves_page (bit_or a b), ← halves_page a, ← halves_page b) (halves-bit_or 12 a b)

bit_or-even : (lo hi : ℕ) → bit_or lo (hi * 2) ≡ lo % 2 + 2 * bit_or (lo / 2) hi
bit_or-even lo hi =
    let half : hi * 2 / 2 ≡ hi = omega arith in
    bit_or-digit lo (hi * 2)
    ∙ ap (λ x. max (lo % 2) (hi * 2 % 2) + 2 * bit_or (lo / 2) x) half
    ∙ omega arith

-- `|` with what stands above the lower `k` bits is a sum.
pub bit_or-above : (k lo hi : ℕ) → lo < 2 ^ k → bit_or lo (hi * 2 ^ k) ≡ lo + hi * 2 ^ k
bit_or-above zero lo hi h =
    let nothing : lo ≡ 0 = omega arith in
    ap (λ x. bit_or x (hi * 2 ^ 0)) nothing ∙ zero-bit_or (hi * 2 ^ 0) ∙ omega arith
bit_or-above (suc k) lo hi h =
    let doubled : hi * 2 ^ suc k ≡ hi * 2 ^ k * 2 = ap (λ x. hi * x) (pow-suc 2 k) ∙ omega arith in
    let rest = bit_or-above k (lo / 2) hi (omega (arith, pow-suc 2 k)) in
    ap (bit_or lo) doubled ∙ bit_or-even lo (hi * 2 ^ k) ∙ omega (arith, rest, doubled)

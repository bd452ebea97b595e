-- ===== src/Base/Digits.antt =====
-- Reading numerals back: what a printed number stands for.
use Prim.Native.Nat.{ℕ, suc, ◌+◌, ◌-◌, ◌*◌, ◌^◌}
use mathlib.Core.List.{List, [], ◌∷◌, ◌++◌}
use mathlib.Core.Path.{◌≡◌, refl, ap, ◌∙◌}
use native.Mathlib.Nat.{pow-suc}
use native.Mathlib.Omega.{arith}
use comet_os.Base.Tests.{leb, if◌then◌else◌}

-- The value of a digit 0 to 9, A to F or a to f.
abbrev pub digit_value : ℕ → ℕ
digit_value c = if leb c b'9' then c - b'0' else if leb c b'F' then c - b'A' + 10 else c - b'a' + 10

-- The number that the digits stand for, most significant first, behind what `acc` stands for.
unfoldable pub numeral : ℕ → List ℕ → ℕ → ℕ
numeral base [] acc = acc
numeral base (c ∷ cs) acc = numeral base cs (acc * base + digit_value c)

pub numeral-append :
    (base : ℕ) (xs ys : List ℕ) (acc : ℕ)
    → numeral base (xs ++ ys) acc ≡ numeral base ys (numeral base xs acc)
unfolding numeral
numeral-append base [] ys acc = refl
numeral-append base (x ∷ xs) ys acc = numeral-append base xs ys (acc * base + digit_value x)

pub pow_next : (b n : ℕ) → b ^ (n + 1) ≡ b ^ n * b
pow_next b n = let e : n + 1 ≡ suc n = omega arith in ap (λ x. b ^ x) e ∙ pow-suc b n

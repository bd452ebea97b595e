-- ===== src/Base/Ranges.antt =====
-- Facts about every index of a range, one index at a time.
use Prim.Native.Nat.{ℕ, ◌+◌, ◌≤◌, ◌<◌}
use mathlib.Core.Path.{◌≡◌, subst}
use native.Mathlib.Decide.{dec_lt}
use native.Mathlib.Omega.{arith}

-- What holds at `i`, and from `i + 1` to below `r`, holds from `i` to below `r`.
pub widen {ℓ} :
    (P : ℕ → Type ℓ) (i r : ℕ)
    → P i
    → ((j : ℕ) → i + 1 ≤ j → j < r → P j)
    → (j : ℕ) → i ≤ j
    → j < r
    → P j
widen P i r here rest j lo hi = elim (dec_lt i j) [
  | yes later ↦ rest j (omega arith) hi
  | no first ↦ let e : i ≡ j = omega arith in subst P e here
]

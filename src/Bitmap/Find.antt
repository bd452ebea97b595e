-- ===== src/Bitmap/Find.antt =====
-- `bitmap_entrie_find` of kernel/kernel/array.c against the first run of equal entries.
use Prim.Native.Nat.{max}
use comet_os.Base.{
  ℕ, zero, suc, ◌+◌, ◌-◌, ◌≤◌, ◌<◌, ◌^◌, ◌≡◌, refl, ◌⊎◌, inl, inr, true, some, ap, ◌∙◌, arith, u32,
  Bool-cases,
}
use mathlib.Core.Path.{subst}
use native.Mathlib.Nat.{le_refl}
use native.Mathlib.Decide.{dec_lt}
use comet_os.Bitmap.{Bitmap, run_found, find_from, entrie_find}

-- From `i` on stand `max 1 size` entries that are `value`.
abbrev pub IsRun : Bitmap → ℕ → ℕ → ℕ → Type 0
IsRun b size value i = (y : ℕ) → y < max 1 size → b.entries (i + y) ≡ value

module _ (size value : ℕ) (b : Bitmap) (i : ℕ) (fits : i + max 1 size < 2 ^ 32) where
  run_found_sound :
      (f x y : ℕ)
      → x + f ≡ max 1 size
      → run_found f size value b i x ≡ true
      → x ≤ y
      → y < max 1 size
      → b.entries (i + y) ≡ value
  unfolding run_found
  run_found_sound zero x y e h lo hi = cc
  run_found_sound (suc f) x y e h lo hi =
      ground
        (arith, here, run_found_sound f (x + 1) y, ap {B = ℕ} b.entries {x = i + x} {y = i + y})
    where
      here : u32 (i + x) ≡ i + x
      here = omega arith

  run_found_complete :
      (f x : ℕ)
      → x + f ≡ max 1 size
      → x < max 1 size
      → IsRun b size value i
      → run_found f size value b i x ≡ true
  unfolding run_found
  run_found_complete zero x e lt run = absurd (omega arith)
  run_found_complete (suc f) x e lt run =
      ground (arith, within, run x lt, run_found_complete f (x + 1))
    where
      within : u32 (i + x) ≡ i + x
      within = omega arith

-- The starts that the outer loop tries from `i` on: the first run among them, or none.
abbrev pub First : Bitmap → ℕ → ℕ → ℕ → ℕ → Type 0
First b size value i r =
    ((i ≤ r)
      × (r ≤ b.size)
      × IsRun b size value r
      × ((j : ℕ) → i ≤ j → j < r → ¬ IsRun b size value j))
    ⊎ ((r ≡ 2 ^ 32 - 1) × ((j : ℕ) → i ≤ j → j ≤ b.size → ¬ IsRun b size value j))

module _ (size value : ℕ) (b : Bitmap) (fits : b.size + max 1 size < 2 ^ 32) where
  -- A round at `i` returns when a run starts there.
  here-First :
      (f i : ℕ) → i ≤ b.size → IsRun b size value i → find_from (suc f) size value b i ≡ some i
  unfolding find_from
  here-First f i le run = ground (
    arith,
    run 0 (omega arith),
    ap {B = ℕ} b.entries {x = i + 0} {y = i},
    run_found_complete size value b i (omega arith) (max 1 size) 0 (omega arith) (omega arith) run,
  )

  -- Otherwise it goes on.
  next-First :
      (f i : ℕ)
      → i ≤ b.size
      → ¬ IsRun b size value i
      → find_from (suc f) size value b i ≡ find_from f size value b (i + 1)
  unfolding find_from
  next-First f i le miss = rw wraps (elim (Bool-cases (run_found (max 1 size) size value b i 0)) [
    | inl found ↦ absurd (
        miss (λ y.
          run_found_sound size value b i (omega arith) (max 1 size) 0 y (omega arith) found
            (omega arith)))
    | inr lost ↦ ground (arith, lost)
  ])
    where
      wraps : u32 (i + 1) ≡ i + 1
      wraps = omega arith

  IsRun-dec : (i : ℕ) → i ≤ b.size → IsRun b size value i ⊎ ¬ IsRun b size value i
  IsRun-dec i le = elim (Bool-cases (run_found (max 1 size) size value b i 0)) [
    | inl found ↦ inl (λ y.
        run_found_sound size value b i (omega arith) (max 1 size) 0 y (omega arith) found
          (omega arith))
    | inr lost ↦ inr (λ run. cc (
        run_found_complete size value b i (omega arith) (max 1 size) 0 (omega arith) (omega arith)
          run))
  ]

  end-First : (f i : ℕ) → b.size < i → find_from (suc f) size value b i ≡ some (2 ^ 32 - 1)
  unfolding find_from
  end-First f i out = ground arith

  -- A miss at `i` before the answer.
  First-miss :
      (i r : ℕ) → ¬ IsRun b size value i → First b size value (i + 1) r → First b size value i r
  First-miss i r miss (inl (lo, hi, run, least)) = inl (
    omega arith,
    hi,
    run,
    λ j p q. elim (dec_lt i j) [
      | yes later ↦ least j (omega arith) q
      | no here ↦ λ h. miss (subst (IsRun b size value) (omega arith) h)
    ],
  )
  First-miss i r miss (inr (e, never)) = inr (
    e,
    λ j p q. elim (dec_lt i j) [
      | yes later ↦ never j (omega arith) q
      | no here ↦ λ h. miss (subst (IsRun b size value) (omega arith) h)
    ],
  )

  find_from-First :
      (f i : ℕ)
      → b.size + 2 ≤ f + i
      → i ≤ b.size + 1
      → (r : ℕ) × (find_from f size value b i ≡ some r) × First b size value i r
  find_from-First zero i fuel le = absurd (omega arith)
  find_from-First (suc f) i fuel le = elim (dec_lt b.size i) [
    | yes out ↦ (2 ^ 32 - 1, end-First f i out, inr (refl, λ j p q. absurd (omega arith)))
    | no in_range ↦ elim (IsRun-dec i (omega arith)) [
      | inl run ↦ (
        i,
        here-First f i (omega arith) run,
        inl (le_refl i, omega arith, run, λ j p q. absurd (omega arith)),
      )
      | inr miss ↦
          let (r, e, first) = find_from-First f (i + 1) (omega arith) (omega arith) in
          (r, next-First f i (omega arith) miss ∙ e, First-miss i r miss first)
    ]
  ]

-- If the bitmap's size and the length asked for stay below 2 ^ 32 together, `bitmap_entrie_find`
-- ends, and returns the least start up to the size (inclusive) of `max 1 size` entries equal to
-- `value`, or 2 ^ 32 - 1 where no start up to the size has them.
pub entrie_find-First :
    (size value : ℕ) (b : Bitmap)
    → b.size + max 1 size < 2 ^ 32
    → (r : ℕ) × (entrie_find size value b ≡ some r) × First b size value 0 r
unfolding entrie_find
entrie_find-First size value b fits =
    find_from-First size value b fits (b.size + 2) 0 (omega arith) (omega arith)

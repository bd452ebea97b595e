-- ===== src/Libc/Mem/Compare.antt =====
-- memcmp of libc/string against the first byte in which two objects differ.
use comet_os.Base.{
  widen, ltb→lt, ltb, Bool-cases, ℕ, zero, suc, ◌+◌, ◌≤◌, ◌<◌, ◌≡◌, refl, ◌⊎◌, inl, inr, arith,
}
use comet_os.Libc.Mem.{Bytes, minus_one, compare_up, memcmp}

-- From index `i` on, `n` bytes are compared: they agree, or first differ at `k`.
abbrev pub Compares : Bytes → ℕ → ℕ → ℕ → ℕ → ℕ → Type 0
Compares m a b i n r =
    ((r ≡ 0) × ((j : ℕ) → i ≤ j → j < i + n → m (a + j) ≡ m (b + j)))
    ⊎ ((k : ℕ) × (i ≤ k)
        × (k < i + n)
        × ((j : ℕ) → i ≤ j → j < k → m (a + j) ≡ m (b + j))
        × (((r ≡ minus_one) × (m (a + k) < m (b + k))) ⊎ ((r ≡ 1) × (m (b + k) < m (a + k)))))

-- One more equal byte in front.
module _ (a b i : ℕ) (m : Bytes) (same : m (a + i) ≡ m (b + i)) where
  agree :
      (k : ℕ)
      → ((j : ℕ) → i + 1 ≤ j → j < k → m (a + j) ≡ m (b + j))
      → (j : ℕ) → i ≤ j
      → j < k
      → m (a + j) ≡ m (b + j)
  agree k rest = widen (λ j. m (a + j) ≡ m (b + j)) i k same rest

  Compares-cons : (n r : ℕ) → Compares m a b (i + 1) n r → Compares m a b i (suc n) r
  Compares-cons n r (inl (e, all)) = inl (e, λ j lo hi. agree (i + 1 + n) all j lo (omega arith))
  Compares-cons n r (inr (k, lo, hi, all, sign)) =
      inr (k, omega arith, omega arith, agree k all, sign)

compare_up-Compares : (n i a b : ℕ) (m : Bytes) → Compares m a b i n (compare_up n i a b m)
unfolding compare_up
compare_up-Compares zero i a b m = inl (refl, λ j lo hi. absurd (omega arith))
compare_up-Compares (suc n) i a b m = elim (Bool-cases (ltb (m (a + i)) (m (b + i)))) [
  | inl below ↦ rw below (
      inr (
        i,
        omega arith,
        omega arith,
        λ j lo hi. absurd (omega arith),
        inl (refl, ltb→lt _ _ below),
      ))
  | inr here ↦ elim (Bool-cases (ltb (m (b + i)) (m (a + i)))) [
    | inl above ↦
        rw (here, above)
          (inr (
            i,
            omega arith,
            omega arith,
            λ j lo hi. absurd (omega arith),
            inr (refl, ltb→lt _ _ above),
          ))
    | inr there ↦
        rw (here, there)
          (Compares-cons a b i m (ground arith) n _ (compare_up-Compares n (i + 1) a b m))
  ]
]

-- `memcmp` returns 0 if the `size` bytes agree; else they first differ at some index, and it
-- returns -1 (as its bit pattern) where the byte of `a` is the smaller there, 1 where it is larger.
memcmp-Compares : (a b size : ℕ) (m : Bytes) → Compares m a b 0 size (memcmp a b size m)
unfolding memcmp
memcmp-Compares a b size m = compare_up-Compares size 0 a b m

-- ===== src/Libc/Text/Scan.antt =====
-- strlen, strcmp and strcpy of libc/string.
use mathlib.Core.Path.{subst}
use comet_os.Base.{ap, ◌∙◌, ℕ, zero, suc, ◌+◌, ◌≤◌, ◌<◌, ◌≡◌, ◌⊎◌, some, arith}
use comet_os.Libc.Mem.{Bytes, memcpy}
use comet_os.Libc.Mem.Move.{copied, memcpy-copied}
use comet_os.Libc.Text.{length_from, strlen, compare_from, strcmp, strcpy}
use comet_os.Libc.Text.Spec.{IsString}

module _ {m : Bytes} {s n : ℕ} (string : IsString m s n) where
  at_end : (i : ℕ) → n ≡ i → m (s + i) ≡ 0
  at_end i e = subst (λ t. m (s + t) ≡ 0) e string.stop

  length_from-IsString : (f i : ℕ) → i ≤ n → n < i + f → length_from f s m i ≡ some n
  unfolding length_from
  length_from-IsString zero i le h = absurd (omega arith)
  length_from-IsString (suc f) i le h =
      ground (arith, length_from-IsString f (i + 1), string.full i, at_end i)

  -- `strlen` of a string returns its length, with any fuel above that.
  pub strlen-IsString : (fuel : ℕ) → n < fuel → strlen fuel s m ≡ some n
  unfolding strlen
  strlen-IsString fuel h = length_from-IsString fuel 0 (omega arith) (omega arith)

  compare_from_zero : (b f i : ℕ) → i ≤ n → n < i + f → compare_from f s b m i ≡ some 0
  unfolding compare_from
  compare_from_zero b zero i le h = absurd (omega arith)
  compare_from_zero b (suc f) i le h = ground (arith, compare_from_zero b f (i + 1), at_end i)

  -- `strcmp` returns 0 for a string and any other pointer whatever: it ends at the first
  -- difference as it ends at equal strings.
  strcmp_zero : (b fuel : ℕ) → n < fuel → strcmp fuel s b m ≡ some 0
  unfolding strcmp
  strcmp_zero b fuel h = compare_from_zero b fuel 0 (omega arith) (omega arith)

  compare_from_second : (a f i : ℕ) → i ≤ n → n < i + f → compare_from f a s m i ≡ some 0
  unfolding compare_from
  compare_from_second a zero i le h = absurd (omega arith)
  compare_from_second a (suc f) i le h = ground (arith, compare_from_second a f (i + 1), at_end i)

  -- The same where the second pointer has the string.
  pub strcmp_second : (a fuel : ℕ) → n < fuel → strcmp fuel a s m ≡ some 0
  unfolding strcmp
  strcmp_second a fuel h = compare_from_second a fuel 0 (omega arith) (omega arith)

  -- `strcpy` of a string to a target that does not overlap it copies the string's bytes, and no
  -- zero: the byte behind the copy keeps the value that it had, as does all else.
  strcpy_lem :
      (dst fuel : ℕ)
      → n < fuel
      → (dst ≤ s) ⊎ (s + n ≤ dst)
      → (m' : Bytes) × (strcpy fuel dst s m ≡ some (dst, m'))
        × ((a : ℕ) → m' a ≡ copied dst s n m a)
        × (m' (dst + n) ≡ m (dst + n))
  unfolding strcpy
  strcpy_lem dst fuel h apart =
      let whole = memcpy-copied dst s n m in
      (
        (memcpy dst s n m).1,
        rw (strlen-IsString fuel h) (ap (λ t. some (t, (memcpy dst s n m).1)) (whole 0 apart).0),
        λ a. (whole a apart).1,
        (whole (dst + n) apart).1 ∙ ground arith,
      )

-- ===== src/Libc/Text/Tests.antt =====
-- The string functions at two words, and their theorems there.
use comet_os.Base.{
  ◌&&◌, ℕ, zero, suc, ◌+◌, ◌-◌, ◌<◌, ◌≡◌, ◌≢◌, refl, ◌⊎◌, some, arith, ◌==◌, if◌then◌else◌, List,
  [], ◌∷◌, get_or, leb, ltb,
}
use comet_os.Libc.Mem.{Bytes}
use comet_os.Libc.Text.{Token, strlen, strcmp, strtok_r}
use comet_os.Libc.Text.Spec.{IsString}
use comet_os.Libc.Text.Scan.{strlen-IsString}
use comet_os.Libc.Text.Strtok.{IsDone, IsToken, strtok_r-IsToken}

-- " ab c" at 100, and the delimiter " " at 200.
abbrev line : List ℕ
line = b' ' ∷ b'a' ∷ b'b' ∷ b' ' ∷ b'c' ∷ []

abbrev memory : Bytes
memory a = if a == 200 then b' ' else if leb 100 a && ltb a 105 then get_or line (a - 100) 0 else 0

line-IsString : IsString memory 100 5
line-IsString = record { full = full; stop = refl }
  where
    full : (i : ℕ) → i < 5 → memory (100 + i) ≢ 0
    full zero h = ground arith
    full (suc zero) h = ground arith
    full (suc (suc zero)) h = ground arith
    full (suc (suc (suc zero))) h = ground arith
    full (suc (suc (suc (suc zero)))) h = ground arith
    full (suc (suc (suc (suc (suc n))))) h = absurd (omega arith)

set-IsString : IsString memory 200 1
set-IsString = record { full = full; stop = refl }
  where
    full : (i : ℕ) → i < 1 → memory (200 + i) ≢ 0
    full zero h = ground arith
    full (suc n) h = absurd (omega arith)

-- "ab" and "c" have different lengths and bytes, and still compare equal.
compare_words : strcmp 10 101 104 memory ≡ some 0
unfolding strcmp
compare_words = refl

strlen-IsString_example : strlen 9 100 memory ≡ some 5
strlen-IsString_example = strlen-IsString line-IsString 9 (omega arith)

strtok_r-IsToken_example :
    (r : Token) × (strtok_r 9 100 200 0 memory ≡ some r)
    × (IsDone memory 100 5 200 1 r ⊎ ((i : ℕ) × (t : ℕ) × IsToken memory 100 5 200 1 i t r))
strtok_r-IsToken_example =
    strtok_r-IsToken 9 line-IsString set-IsString (omega arith) (omega arith) (omega arith) 100 0
      refl

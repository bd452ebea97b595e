-- ===== src/Libc/Stdio/Tests.antt =====
-- The theorems of the printing functions at small inputs.
use comet_os.Base.{ℕ, ◌-◌, ◌^◌, ◌≤◌, ◌<◌, ◌≡◌, ◌≢◌, ◌⊎◌, arith, refl, true, List, [], ◌∷◌, length}
use comet_os.Base.Digits.{numeral}
use comet_os.Libc.Stdio.{word, printed, no_fuel, convert_integer, printf}
use comet_os.Libc.Stdio.Integer.{convert_integer-numeral}
use comet_os.Libc.Stdio.Ends.{printf_ends}

-- `printf("a%d %hhX", -5, 0xab)`, and an unknown conversion.
negative :
    printf
      (b'a' ∷ b'%' ∷ b'd' ∷ b' ' ∷ b'%' ∷ b'h' ∷ b'h' ∷ b'X' ∷ [])
      (word (2 ^ 32 - 5) ∷ word 0xab ∷ [])
    ≡ printed (b'a' ∷ b'-' ∷ b'5' ∷ b' ' ∷ b'A' ∷ b'B' ∷ []) 2
unfolding printf convert_integer
negative = refl

unknown :
    printf (b'%' ∷ b'y' ∷ b'%' ∷ b'd' ∷ []) (word 1 ∷ [])
    ≡ printed (b'%' ∷ b'y' ∷ b'%' ∷ b'd' ∷ []) 4
unfolding printf convert_integer
unknown = refl

convert_integer-numeral_example :
    (numeral 16 (convert_integer 0xbeef 16 true) 0 ≡ 0xbeef)
    × ((length (convert_integer 0xbeef 16 true) ≡ 1)
        ⊎ (16 ^ (length (convert_integer 0xbeef 16 true) - 1) ≤ 0xbeef))
    × (0 < length (convert_integer 0xbeef 16 true))
    × (length (convert_integer 0xbeef 16 true) ≤ 22)
convert_integer-numeral_example =
    convert_integer-numeral 0xbeef 16 true (omega arith) (omega arith) (omega arith)

abbrev lone_percent : List ℕ
lone_percent = b'%' ∷ []

printf_ends_example : printf lone_percent [] ≢ no_fuel
printf_ends_example = printf_ends lone_percent []

abbrev hi : List ℕ
hi = b'h' ∷ b'i' ∷ []

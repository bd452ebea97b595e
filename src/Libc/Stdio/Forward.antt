-- ===== src/Libc/Stdio/Forward.antt =====
-- Bytes that move the cursor on: what `convert_integer` of libc/stdio/printf.c writes has no backspace.
use comet_os.Base.{
  inr, inl, Bool-cases, ℕ, zero, suc, ◌-◌, ◌/◌, ◌^◌, ◌≡◌, refl, arith, List, [], ◌∷◌, ◌++◌, Bool,
  true, false, ◌!=◌, ◌&&◌, leb, if◌then◌else◌,
}
use comet_os.Libc.Stdio.{digit_count, put_digits, convert_integer}

-- Whether no byte is a backspace.
abbrev pub forward : List ℕ → Bool
forward [] = true
forward (c ∷ cs) = (c != 8) && forward cs

pub forward-append : (xs ys : List ℕ) → forward xs ≡ true → forward (xs ++ ys) ≡ forward ys
forward-append [] ys h = refl
forward-append (x ∷ xs) ys h = ground (arith, forward-append xs ys)

put_digits-forward :
    (i value base : ℕ) (out : List ℕ)
    → forward out ≡ true
    → forward (put_digits i value base false out) ≡ true
unfolding put_digits
put_digits-forward zero value base out h = h
put_digits-forward (suc i) value base out h =
    put_digits-forward i (value / base) base _ (ground arith)

pub convert_integer-forward : (value base : ℕ) → forward (convert_integer value base false) ≡ true
unfolding convert_integer
convert_integer-forward value base =
    put_digits-forward (digit_count 64 base value 1) value base [] refl

-- A signed number in front of other bytes.
pub signed-forward :
    (v : ℕ) (rest : List ℕ)
    → let number : List ℕ × ℕ = if leb (2 ^ 31) v then (b'-' ∷ [], 2 ^ 32 - v) else ([], v) in
      forward ((number.0 ++ convert_integer number.1 10 false) ++ rest) ≡ forward rest
signed-forward v rest = elim (Bool-cases (leb (2 ^ 31) v)) [
  | inl negative ↦ rw (negative) (
      forward-append (b'-' ∷ convert_integer (2 ^ 32 - v) 10 false) rest
        (convert_integer-forward (2 ^ 32 - v) 10))
  | inr positive ↦
      rw (positive)
        (forward-append (convert_integer v 10 false) rest (convert_integer-forward v 10))
]

-- An unsigned number in base 16 in front of other bytes.
pub hexadecimal-forward :
    (v : ℕ) (rest : List ℕ) → forward (convert_integer v 16 false ++ rest) ≡ forward rest
hexadecimal-forward v rest =
    forward-append (convert_integer v 16 false) rest (convert_integer-forward v 16)

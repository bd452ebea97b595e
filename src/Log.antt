-- ===== src/Log.antt =====
-- The log, kernel/kernel/ui/log.c and kernel/include/kernel/ui/log.h. A C string is the list of its
-- bytes, without the zero; `buf` is the list of the bytes that stand before `*ptr`, and so what a
-- function appends is its result.
mod Widths
pub mod Decimal
pub mod Hexadecimal
pub mod Figures
pub mod Format
mod Tests
use comet_os.Base.{
  ℕ, zero, suc, ◌+◌, ◌-◌, ◌*◌, ◌/◌, ◌%◌, ◌^◌, List, [], ◌∷◌, ◌++◌, Option, none, some, Bool, true,
  false, leb, ltb, ◌==◌, ◌!=◌, ◌&&◌, u8, u32, if◌then◌else◌,
}

-- The first loop of `print_dec` and of `print_hex`: `n_width`, and the bound `i` or `j`, which
-- grows in each round to `i * base + (base - 1)`.
pub widen_from : ℕ → ℕ → ℕ → ℕ → ℕ → ℕ × ℕ
widen_from zero base value n_width i = (n_width, i)
widen_from (suc f) base value n_width i =
    let rest = widen_from f base value (n_width + 1) (u32 (u32 (i * base) + (base - 1))) in
    if ltb i value && ltb i (2 ^ 32 - 1) then rest else (n_width, i)

-- The `n` zeros of the padding loops.
pub zeros : ℕ → List ℕ
zeros zero = []
zeros (suc n) = b'0' ∷ zeros n

-- The last loop of `print_dec` writes from the end on: `written` stands behind.
digits_before : ℕ → ℕ → List ℕ → List ℕ
digits_before zero value written = written
digits_before (suc i) value written = digits_before i (value / 10) ((value % 10 + b'0') ∷ written)

-- 32 rounds are more than the bound takes to come to UINT32_MAX.
unfoldable pub print_dec : ℕ → ℕ → List ℕ
unfolding widen_from zeros digits_before
print_dec value width =
    let n_width = (widen_from 32 10 value 1 9).0 in
    zeros (width - n_width) ++ digits_before n_width value []

-- `"0123456789abcdef"[d]`.
abbrev pub hex_digit : ℕ → ℕ
hex_digit d = if ltb d 10 then b'0' + d else b'a' + (d - 10)

hex_digits : ℕ → ℕ → List ℕ
hex_digits zero value = []
hex_digits (suc i) value = hex_digit (value / 2 ^ (i * 4) % 16) ∷ hex_digits i value

-- `i` is an `int`, negative for a width from 2^31 on.
unfoldable pub print_hex : ℕ → ℕ → List ℕ
unfolding widen_from zeros hex_digits
print_hex value width =
    let n_width = (widen_from 32 16 value 1 15).0 in
    let i = if width == 0 then 8 else if leb (2 ^ 31) width then 0 else width in
    zeros (i - n_width) ++ hex_digits n_width value

-- What `va_arg` finds: a number, a string, or the null pointer.
pub data Arg : Type 0 where
  number : ℕ → Arg
  string : List ℕ → Arg
  null : Arg

abbrev pub null_text : List ℕ
null_text = b'(' ∷ b'n' ∷ b'u' ∷ b'l' ∷ b'l' ∷ b')' ∷ []

-- `va_arg` at each of the types. An argument of another type, or none, is undefined in C: `none`.
take_string : List Arg → Option (List ℕ × List Arg)
take_string [] = none
take_string (number v ∷ rest) = none
take_string (string s ∷ rest) = some (s, rest)
take_string (null ∷ rest) = some (null_text, rest)

take_number : (ℕ → List ℕ) → List Arg → Option (List ℕ × List Arg)
take_number print [] = none
take_number print (number v ∷ rest) = some (print v, rest)
take_number print (string s ∷ rest) = none
take_number print (null ∷ rest) = none

-- What stands in the format's loop behind a `%` and its width `w`: the bytes written, and the
-- arguments left.
convert : ℕ → ℕ → List Arg → Option (List ℕ × List Arg)
unfolding take_string take_number print_hex print_dec
convert c w args =
    if c == b's'
    then take_string args
    else if c == b'c'
    then take_number (λ v. u8 v ∷ []) args
    else if c == b'x'
    then take_number (λ v. print_hex (u32 v) w) args
    else if c == b'd'
    then take_number (λ v. print_dec (u32 v) w) args
    else some (c ∷ [], args)

prepend : List ℕ → Option (List ℕ) → Option (List ℕ)
prepend out none = none
prepend out (some rest) = some (out ++ rest)

-- The loop over the format, a byte at a time: `width` is `none` outside of a conversion, and
-- `arg_width` behind a `%`. Where the format ends behind a `%`, the zero at its end is written.
format_from : List ℕ → Option ℕ → List Arg → Option (List ℕ)
unfolding convert prepend
format_from [] none args = some []
format_from [] (some w) args = some (0 ∷ [])
format_from (c ∷ fmt) none args = elim (c == b'%') [
  | true ↦ format_from fmt (some 0) args
  | false ↦ prepend (c ∷ []) (format_from fmt none args)
]
format_from (c ∷ fmt) (some w) args = elim (leb b'0' c && leb c b'9') [
  | true ↦ format_from fmt (some (u32 (u32 (w * 10) + (c - b'0')))) args
  | false ↦ elim (convert c w args) [
    | none ↦ none
    | some (out, args_left) ↦ prepend out (format_from fmt none args_left)
  ]
]

-- The bytes in the buffer before the final zero; `vasprintf` returns their number.
unfoldable pub vasprintf : List ℕ → List Arg → Option (List ℕ)
unfolding format_from
vasprintf fmt args = format_from fmt none args

-- The bytes that `log_print` writes from the start of `buffer` on, with the zero, whatever the status
-- is; what it shows in a debug build is not part of this.
unfoldable pub log_print : ℕ → List ℕ → List Arg → Option (List ℕ)
unfolding vasprintf
log_print status format args = elim (vasprintf format args) [
  | none ↦ none
  | some out ↦ some (out ++ 0 ∷ [])
]

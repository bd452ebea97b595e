-- ===== src/Libc/Stdio.antt =====
-- libc/stdio/printf.c. A format and a string argument are lists of bytes without their zero, and
-- what is written is the list of the bytes handed to `putchar`, in order. An `int`, a `long`, a
-- `size_t` and a pointer have 32 bits, a `long long` and an `intmax_t` 64.
pub mod Integer
pub mod Ends
pub mod Literal
pub mod Forward
mod Tests
use comet_os.Base.{
  ℕ, zero, suc, ◌+◌, ◌-◌, ◌*◌, ◌/◌, ◌%◌, ◌^◌, List, [], ◌∷◌, ◌++◌, Option, none, some, Bool, true,
  false, leb, ltb, ◌==◌, ◌&&◌, ◌||◌, u8, length, if◌then◌else◌,
}

-- What `va_arg` finds.
pub data Arg : Type 0 where
  word : ℕ → Arg
  double_word : ℕ → Arg
  string : List ℕ → Arg

-- `enum length`.
pub data Length : Type 0 where
  short_short : Length
  short : Length
  plain : Length
  long : Length
  long_long : Length
  long_double : Length
  intmax : Length
  size : Length
  ptrdiff : Length

abbrev pub length_modifiers : List (List ℕ × Length)
length_modifiers =
    (b'h' ∷ b'h' ∷ [], short_short)
    ∷ (b'h' ∷ [], short)
    ∷ ([], plain)
    ∷ (b'l' ∷ [], long)
    ∷ (b'l' ∷ b'l' ∷ [], long_long)
    ∷ (b'L' ∷ [], long_double)
    ∷ (b'j' ∷ [], intmax)
    ∷ (b'z' ∷ [], size)
    ∷ (b't' ∷ [], ptrdiff)
    ∷ []

starts_with : List ℕ → List ℕ → Bool
starts_with [] format = true
starts_with (n ∷ name) [] = false
starts_with (n ∷ name) (c ∷ format) = (c == n) && starts_with name format

-- The loop over the modifiers: `found` is `length`, and `found_length` is `length_length`.
find_modifier : List (List ℕ × Length) → List ℕ → Length → ℕ → Length × ℕ
unfolding starts_with
find_modifier [] format found found_length = (found, found_length)
find_modifier ((name, len) ∷ modifiers) format found found_length =
    let better = starts_with name format && leb found_length (length name) in
    find_modifier modifiers format (if better then len else found)
      (if better then length name else found_length)

-- `format += n`.
skip : ℕ → List ℕ → List ℕ
skip zero format = format
skip (suc n) [] = []
skip (suc n) (c ∷ format) = skip n format

-- The two loops of `convert_integer`: the number of digits, for which 64 rounds are enough, and the
-- digits from the last on; `written` stands behind.
digit_count : ℕ → ℕ → ℕ → ℕ → ℕ
digit_count zero base copy result = result
digit_count (suc f) base copy result =
    let rest = digit_count f base (copy / base) (result + 1) in
    if leb base copy then rest else result

abbrev pub digit_of : Bool → ℕ → ℕ
digit_of upper d = if ltb d 10 then b'0' + d else (if upper then b'A' else b'a') + (d - 10)

put_digits : ℕ → ℕ → ℕ → Bool → List ℕ → List ℕ
put_digits zero value base upper written = written
put_digits (suc i) value base upper written =
    put_digits i (value / base) base upper (digit_of upper (value % base) ∷ written)

unfoldable pub convert_integer : ℕ → ℕ → Bool → List ℕ
unfolding digit_count put_digits
convert_integer value base upper = put_digits (digit_count 64 base value 1) value base upper []

-- What the code does with the bytes behind a `%`: it writes, leaving a format and arguments; it
-- does not know the conversion; or an argument is missing or of another type.
pub data Step : Type 0 where
  wrote : List ℕ → List ℕ → List Arg → Step
  rejected : Step
  undefined : Step

-- A signed value: the sign, and its magnitude.
abbrev signed : ℕ → ℕ → List ℕ × ℕ
signed bits v = if leb (2 ^ (bits - 1)) v then (b'-' ∷ [], 2 ^ bits - v) else ([], v)

number_step : Bool → ℕ → ℕ → Bool → List ℕ → List Arg → Step
number_step is_signed bits base upper format [] = undefined
number_step is_signed bits base upper format (string s ∷ args) = undefined
number_step is_signed bits base upper format (word v ∷ args) =
    let (sign, value) = if is_signed then signed 32 v else ([], v) in
    if bits == 32 then wrote (sign ++ convert_integer value base upper) format args else undefined
number_step is_signed bits base upper format (double_word v ∷ args) =
    let (sign, value) = if is_signed then signed 64 v else ([], v) in
    if bits == 64 then wrote (sign ++ convert_integer value base upper) format args else undefined

-- The width of the argument; `none` goes to `incomprehensible_conversion`.
argument_bits : Bool → Length → Option ℕ
argument_bits is_signed short_short = some 32
argument_bits is_signed short = some 32
argument_bits is_signed plain = some 32
argument_bits is_signed long = some 32
argument_bits is_signed long_long = some 64
argument_bits is_signed long_double = none
argument_bits is_signed intmax = some 64
argument_bits is_signed size = if is_signed then none else some 32
argument_bits is_signed ptrdiff = some 32

char_step : List ℕ → List Arg → Step
char_step format (word v ∷ args) = wrote (u8 v ∷ []) format args
char_step format [] = undefined
char_step format (double_word v ∷ args) = undefined
char_step format (string s ∷ args) = undefined

string_step : List ℕ → List Arg → Step
string_step format (string s ∷ args) = wrote s format args
string_step format [] = undefined
string_step format (double_word v ∷ args) = undefined
string_step format (word v ∷ args) = undefined

abbrev is_signed_letter : ℕ → Bool
is_signed_letter c = (c == b'd') || (c == b'i')

abbrev is_number_letter : ℕ → Bool
is_number_letter c =
    is_signed_letter c
    || ((c == b'o') || ((c == b'u') || ((c == b'x') || ((c == b'X') || (c == b'p')))))

abbrev base_of : ℕ → ℕ
base_of c = if (c == b'x') || (c == b'X') then 16 else if c == b'o' then 8 else 10

-- The letter and the format behind it, where the length modifiers have been skipped.
letter_step : Length → List ℕ → List Arg → Step
unfolding argument_bits number_step char_step string_step
letter_step len [] args = rejected
letter_step len (c ∷ format) args =
    if is_number_letter c
    then elim (argument_bits (is_signed_letter c) len) [
      | none ↦ rejected
      | some bits ↦ number_step (is_signed_letter c) bits (base_of c) (c == b'X') format args
    ]
    else if c == b'c'
    then char_step format args
    else if c == b's'
    then string_step format args
    else rejected

conversion_step : List ℕ → List Arg → Step
unfolding find_modifier skip letter_step
conversion_step format args =
    let (len, n) = find_modifier length_modifiers format plain 0 in
    letter_step len (skip n format) args

-- The bytes up to the next `%` or the end, and what follows them.
literal_run : List ℕ → List ℕ × List ℕ
literal_run [] = ([], [])
literal_run (c ∷ format) =
    let (run, rest) = literal_run format in if c == b'%' then ([], c ∷ format) else (c ∷ run, rest)

-- A round of the loop of `printf`: the bytes written and the amount added to `written`, and the
-- format, `rejected_bad_specifier` and the arguments that are left; or an undefined argument.
pub data Round : Type 0 where
  goes : List ℕ → ℕ → List ℕ → Bool → List Arg → Round
  bad_argument : Round

-- What stands behind `print_c`: the byte at the format and those up to the next `%`.
print_c : ℕ → List ℕ → Bool → List Arg → Round
unfolding literal_run
print_c c format rejected_bad args =
    let (run, left) = literal_run format in goes (c ∷ run) (length run + 1) left rejected_bad args

-- The format is the one behind the `%`.
percent_round : List ℕ → Bool → List Arg → Round
unfolding print_c conversion_step starts_with skip
percent_round format rejected_bad args =
    if starts_with (b'%' ∷ []) format
    then print_c b'%' (skip 1 format) rejected_bad args
    else if rejected_bad
    then print_c b'%' format true args
    else elim (conversion_step format args) [
      | wrote out left args_left ↦ goes out 0 left rejected_bad args_left
      | rejected ↦ print_c b'%' format true args
      | undefined ↦ bad_argument
    ]

round : ℕ → List ℕ → Bool → List Arg → Round
unfolding percent_round print_c
round c format rejected_bad args =
    if c == b'%' then percent_round format rejected_bad args else print_c c format rejected_bad args

-- The bytes written and the value returned; `no_fuel` is the want of fuel.
pub data Outcome : Type 0 where
  printed : List ℕ → ℕ → Outcome
  unspecified : Outcome
  no_fuel : Outcome

pub after : List ℕ → ℕ → Outcome → Outcome
after out amount (printed rest written) = printed (out ++ rest) (amount + written)
after out amount unspecified = unspecified
after out amount no_fuel = no_fuel

printf_from : ℕ → List ℕ → Bool → List Arg → Outcome
unfolding round after
printf_from zero format rejected_bad args = no_fuel
printf_from (suc f) [] rejected_bad args = printed [] 0
printf_from (suc f) (c ∷ format) rejected_bad args = elim (round c format rejected_bad args) [
  | goes out amount left rejected_now args_left ↦
      after out amount (printf_from f left rejected_now args_left)
  | bad_argument ↦ unspecified
]

-- A round takes at least one byte of the format.
unfoldable pub printf : List ℕ → List Arg → Outcome
unfolding printf_from
printf format args = printf_from (length format + 1) format false args

-- `puts`.
unfoldable pub puts : List ℕ → Outcome
unfolding printf
puts text = printf (b'%' ∷ b's' ∷ 10 ∷ []) (string text ∷ [])

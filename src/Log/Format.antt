-- ===== src/Log/Format.antt =====
-- What the format language of `vasprintf` in kernel/kernel/ui/log.c means: a format is a sequence
-- of plain bytes and of conversions, each with the digits of its width.
use comet_os.Base.{
  length, ◌⊎◌, ℕ, ◌+◌, ◌-◌, ◌*◌, ◌≤◌, ◌<◌, ◌≡◌, ◌≢◌, refl, ap, ◌∙◌, arith, List, [], ◌∷◌, ◌++◌,
  none, some, true, false, leb, ◌==◌, ◌&&◌, u8, u32,
}
use Prim.Native.Nat.{max}
use comet_os.Base.Digits.{numeral}
use comet_os.Log.Figures.{Each, IsFigure, IsHexFigure, print_dec-Each, print_hex-Each}
use comet_os.Log.Decimal.{print_dec-numeral}
use comet_os.Log.Hexadecimal.{asked_width, print_hex-numeral}
use comet_os.Log.{
  Arg, number, string, null, null_text, print_dec, print_hex, convert, take_string, take_number,
  prepend, format_from, vasprintf,
}

pub data Conversion : Type 0 where
  text : List ℕ → Conversion
  no_text : Conversion
  char : ℕ → Conversion
  hex : ℕ → Conversion
  dec : ℕ → Conversion
  other : ℕ → Conversion

pub data Piece : Type 0 where
  plain : ℕ → Piece
  converted : List ℕ → Conversion → Piece

-- The letter, the arguments, and the bytes of a conversion with a width.
pub letter : Conversion → ℕ
letter (text s) = b's'
letter no_text = b's'
letter (char v) = b'c'
letter (hex v) = b'x'
letter (dec v) = b'd'
letter (other c) = c

pub arguments : Conversion → List Arg → List Arg
arguments (text s) rest = string s ∷ rest
arguments no_text rest = null ∷ rest
arguments (char v) rest = number v ∷ rest
arguments (hex v) rest = number v ∷ rest
arguments (dec v) rest = number v ∷ rest
arguments (other c) rest = rest

rendered : Conversion → ℕ → List ℕ
rendered (text s) w = s
rendered no_text w = null_text
rendered (char v) w = u8 v ∷ []
rendered (hex v) w = print_hex (u32 v) w
rendered (dec v) w = print_dec (u32 v) w
rendered (other c) w = c ∷ []

-- The number that the digits of a width stand for, in 32 bits.
pub width_of : List ℕ → ℕ → ℕ
width_of [] w = w
width_of (c ∷ cs) w = width_of cs (u32 (u32 (w * 10) + (c - b'0')))

-- The format, the arguments and the text of a sequence.
pub format_of : List Piece → List ℕ
unfolding letter
format_of [] = []
format_of (plain c ∷ ps) = c ∷ format_of ps
format_of (converted ds k ∷ ps) = b'%' ∷ ds ++ (letter k ∷ format_of ps)

pub args_of : List Piece → List Arg
unfolding arguments
args_of [] = []
args_of (plain c ∷ ps) = args_of ps
args_of (converted ds k ∷ ps) = arguments k (args_of ps)

text_of : List Piece → List ℕ
unfolding rendered width_of
text_of [] = []
text_of (plain c ∷ ps) = c ∷ text_of ps
text_of (converted ds k ∷ ps) = rendered k (width_of ds 0) ++ text_of ps

abbrev pub Digits : List ℕ → Type 0
Digits [] = Unit {0}
Digits (c ∷ cs) = (b'0' ≤ c) × (c ≤ b'9') × Digits cs

-- A byte behind `%` that is no conversion's letter and no digit.
abbrev pub OtherLetter : Conversion → Type 0
OtherLetter (other c) =
    ((c < b'0') ⊎ (b'9' < c)) × (c ≢ b's') × (c ≢ b'c') × (c ≢ b'x') × (c ≢ b'd')
OtherLetter _ = Unit {0}

abbrev pub Formed : List Piece → Type 0
Formed [] = Unit {0}
Formed (plain c ∷ ps) = (c ≢ b'%') × Formed ps
Formed (converted ds k ∷ ps) = Digits ds × OtherLetter k × Formed ps

Digits-run :
    (ds rest : List ℕ) (w : ℕ) (args : List Arg)
    → Digits ds
    → format_from (ds ++ rest) (some w) args ≡ format_from rest (some (width_of ds w)) args
unfolding format_from width_of
Digits-run [] rest w args h = refl
Digits-run (c ∷ ds) rest w args (lo, hi, h) =
    let digit : (leb b'0' c && leb c b'9') ≡ true = ground arith in
    rw (format_from, digit) (Digits-run ds rest (u32 (u32 (w * 10) + (c - b'0'))) args h)

letter_ends :
    (k : Conversion) → OtherLetter k → (leb b'0' (letter k) && leb (letter k) b'9') ≡ false
unfolding letter
letter_ends (text s) h = refl
letter_ends no_text h = refl
letter_ends (char v) h = refl
letter_ends (hex v) h = refl
letter_ends (dec v) h = refl
letter_ends (other c) h = ground arith

convert-rendered :
    (k : Conversion) (w : ℕ) (rest : List Arg)
    → OtherLetter k
    → convert (letter k) w (arguments k rest) ≡ some (rendered k w, rest)
unfolding convert letter arguments rendered take_string take_number
convert-rendered (text s) w rest h = refl
convert-rendered no_text w rest h = refl
convert-rendered (char v) w rest h = refl
convert-rendered (hex v) w rest h = refl
convert-rendered (dec v) w rest h = refl
convert-rendered (other c) w rest h = ground arith

-- The loop behind a `%` and its digits.
conversion_step :
    (k : Conversion) (w : ℕ) (fmt : List ℕ) (args : List Arg)
    → OtherLetter k
    → format_from (letter k ∷ fmt) (some w) (arguments k args)
      ≡ prepend (rendered k w) (format_from fmt none args)
unfolding format_from
conversion_step k w fmt args h = rw (format_from, letter_ends k h, convert-rendered k w args h) refl

pieces :
    (ps : List Piece) → Formed ps → format_from (format_of ps) none (args_of ps) ≡ some (text_of ps)
unfolding format_from format_of args_of text_of prepend
pieces [] h = refl
pieces (plain c ∷ ps) (n, h) =
    let byte : (c == b'%') ≡ false = ground arith in rw (format_from, byte, pieces ps h) refl
pieces (converted ds k ∷ ps) (d, o, h) =
    Digits-run ds (letter k ∷ format_of ps) 0 (arguments k (args_of ps)) d
    ∙ conversion_step k (width_of ds 0) (format_of ps) (args_of ps) o
    ∙ ap (prepend (rendered k (width_of ds 0))) (pieces ps h)

-- What a conversion of a width shows: a numeral of the number, in digits and small letters, as long as
-- the width asks for or as its digits need, which are at most 8 hexadecimal ones, and at most 10 decimal ones up to 1410065407.
abbrev pub Shows : Conversion → ℕ → List ℕ → Type 0
Shows (text s) w out = out ≡ s
Shows no_text w out = out ≡ null_text
Shows (char v) w out = out ≡ u8 v ∷ []
Shows (hex v) w out =
    Each IsHexFigure out
    × (numeral 16 out 0 ≡ u32 v)
    × (asked_width w ≤ length out)
    × (length out ≤ max 8 (asked_width w))
Shows (dec v) w out =
    Each IsFigure out
    × (numeral 10 out 0 ≡ u32 v)
    × (w ≤ length out)
    × (u32 v ≤ 1410065407 → length out ≤ max 10 w)
Shows (other c) w out = out ≡ c ∷ []

-- The text is what the pieces show, one behind the other.
abbrev pub Reads : List Piece → List ℕ → Type 0
Reads [] out = out ≡ []
Reads (plain c ∷ ps) out = (rest : List ℕ) × (out ≡ c ∷ rest) × Reads ps rest
Reads (converted ds k ∷ ps) out =
    (first : List ℕ) × (rest : List ℕ) × (out ≡ first ++ rest)
    × Shows k (width_of ds 0) first
    × Reads ps rest

rendered-Shows : (k : Conversion) (w : ℕ) → Shows k w (rendered k w)
unfolding rendered
rendered-Shows (text s) w = refl
rendered-Shows no_text w = refl
rendered-Shows (char v) w = refl
rendered-Shows (hex v) w =
    let (value, long, few) = print_hex-numeral (u32 v) w (omega arith) in
    (print_hex-Each (u32 v) w, value, omega (arith, long), omega (arith, long, few))
rendered-Shows (dec v) w =
    let (value, long, few) = print_dec-numeral (u32 v) w (omega arith) in
    (
      print_dec-Each (u32 v) w,
      value,
      omega (arith, long),
      λ small. omega (arith, long, few.1 small),
    )
rendered-Shows (other c) w = refl

text_of-Reads : (ps : List Piece) → Reads ps (text_of ps)
unfolding text_of
text_of-Reads [] = refl
text_of-Reads (plain c ∷ ps) = (text_of ps, refl, text_of-Reads ps)
text_of-Reads (converted ds k ∷ ps) = (
  rendered k (width_of ds 0),
  text_of ps,
  refl,
  rendered-Shows k (width_of ds 0),
  text_of-Reads ps,
)

-- `vasprintf` of a well-formed format with the arguments that it asks for fills the buffer with what
-- each piece shows, in order: plain bytes as they are, strings, `(null)` for the null pointer, a
-- character, any other byte behind a `%` as it is, and numerals of the numbers as 32 bits, in digits
-- and small letters. A hexadecimal numeral has at least the digits of the width, for which 0 means 8
-- and a negative `int` none, and otherwise at most 8; a decimal one has at least the digits of the
-- width, and otherwise at most 10 if the number is at most 1410065407.
pub vasprintf-Reads :
    (ps : List Piece)
    → Formed ps
    → (out : List ℕ) × (vasprintf (format_of ps) (args_of ps) ≡ some out) × Reads ps out
unfolding vasprintf
vasprintf-Reads ps h = (text_of ps, pieces ps h, text_of-Reads ps)

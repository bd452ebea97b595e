-- ===== src/Libc/Text.antt =====
-- libc/string: strlen.c, strcmp.c, strcpy.c, strspn.c, strpbrk.c and strtok.c, and
-- libc/stdlib/find.c, over a flat memory of bytes. Each loop runs on fuel, `none` when that is not
-- enough: a string that ends before the fuel does is walked to its end. 0 is the null pointer.
pub mod Spec
pub mod Scan
pub mod Tokens
pub mod Strtok
mod Tests
use comet_os.Base.{
  ℕ, zero, suc, ◌+◌, Option, none, some, Bool, true, false, ◌==◌, ◌!=◌, ◌&&◌, ◌||◌, if◌then◌else◌,
}
use comet_os.Libc.Mem.{Bytes, write, memcpy}

-- `do` over the want of fuel.
infixl 5 ◌>>=◌
abbrev pub ◌>>=◌ {ℓ κ} : {A : Type ℓ} {B : Type κ} → Option A → (A → Option B) → Option B
none >>= f = none
some a >>= f = f a

length_from : ℕ → ℕ → Bytes → ℕ → Option ℕ
length_from zero string m result = none
length_from (suc f) string m result =
    let rest = length_from f string m (result + 1) in
    if m (string + result) != 0 then rest else some result

unfoldable pub strlen : ℕ → ℕ → Bytes → Option ℕ
unfolding length_from
strlen fuel string m = length_from fuel string m 0

-- The `if` inside the loop's `if(a[i] != b[i])` is kept as it is written.
compare_from : ℕ → ℕ → ℕ → Bytes → ℕ → Option ℕ
compare_from zero a b m i = none
compare_from (suc f) a b m i =
    let rest = compare_from f a b m (i + 1) in
    let x = m (a + i) in
    let y = m (b + i) in
    if (x != 0) && (y != 0)
    then (if x != y
        then (if ((x == 0) && (y != 0)) || ((x != 0) && (y == 0)) then some 1 else some 0)
        else rest)
    else some 0

unfoldable pub strcmp : ℕ → ℕ → ℕ → Bytes → Option ℕ
unfolding compare_from
strcmp fuel a b m = compare_from fuel a b m 0

-- The copying loop is that of `memcpy`, over the length of the source without its final zero.
unfoldable pub strcpy : ℕ → ℕ → ℕ → Bytes → Option (ℕ × Bytes)
unfolding strlen
strcpy fuel dst src m = do size ← strlen fuel src m; some (memcpy dst src size m)

-- The inner loop of `strspn` and `strpbrk`: whether the string at `set` has the byte `c`.
has_byte : ℕ → ℕ → ℕ → Bytes → Option Bool
has_byte zero set c m = none
has_byte (suc f) set c m =
    let rest = has_byte f (set + 1) c m in
    if m set == 0 then some false else if m set == c then some true else rest

span_from : ℕ → ℕ → ℕ → ℕ → Bytes → ℕ → Option ℕ
unfolding has_byte
span_from fuel zero ptr str2 m size = none
span_from fuel (suc f) ptr str2 m size =
    let rest = span_from fuel f (ptr + 1) str2 m (size + 1) in
    if m ptr == 0
    then some size
    else (has_byte fuel str2 (m ptr) m >>= λ found. if found then rest else some size)

unfoldable pub strspn : ℕ → ℕ → ℕ → Bytes → Option ℕ
unfolding span_from
strspn fuel str1 str2 m = span_from fuel fuel str1 str2 m 0

break_from : ℕ → ℕ → ℕ → ℕ → Bytes → Option ℕ
unfolding has_byte
break_from fuel zero str1 str2 m = none
break_from fuel (suc f) str1 str2 m =
    let rest = break_from fuel f (str1 + 1) str2 m in
    if m str1 == 0
    then some 0
    else (has_byte fuel str2 (m str1) m >>= λ found. if found then some str1 else rest)

unfoldable pub strpbrk : ℕ → ℕ → ℕ → Bytes → Option ℕ
unfolding break_from
strpbrk fuel str1 str2 m = break_from fuel fuel str1 str2 m

find_from : ℕ → ℕ → ℕ → Bytes → ℕ → Option ℕ
find_from zero str1 str2 m i = none
find_from (suc f) str1 str2 m i =
    let rest = find_from f str1 str2 m (i + 1) in
    if m (str1 + i) != str2 then rest else some (str1 + i)

unfoldable pub lfind : ℕ → ℕ → ℕ → Bytes → Option ℕ
unfolding find_from
lfind fuel str1 str2 m = find_from fuel str1 str2 m 0

-- What `strtok_r` returns, what it leaves in `*saveptr`, and the memory.
pub record Token : Type 0 where
  pub token : ℕ
  pub saveptr : ℕ
  pub memory : Bytes

-- The end of the token: the next delimiter, which is overwritten, or the end of the string.
cut : ℕ → ℕ → ℕ → Bytes → Option Token
unfolding write lfind
cut fuel token found m =
    if found == 0
    then (do end ← lfind fuel token 0 m; some (record { token = token; saveptr = end; memory = m }))
    else some (record { token = token; saveptr = found + 1; memory = write found 0 m })

unfoldable pub strtok_r : ℕ → ℕ → ℕ → ℕ → Bytes → Option Token
unfolding strspn strpbrk cut
strtok_r fuel str delim saveptr m = do
  let start = if str == 0 then saveptr else str
  skip ← strspn fuel start delim m
  let token = start + skip
  if m token == 0
      then some (record { token = 0; saveptr = token; memory = m })
      else (strpbrk fuel token delim m >>= λ found. cut fuel token found m)

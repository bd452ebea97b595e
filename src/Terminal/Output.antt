-- ===== src/Terminal/Output.antt =====
-- What `terminal_putchar` and `terminal_write` of kernel/kernel/ui/tty.c keep and show.
use comet_os.Base.{
  inr, ◌^◌, inl, ◌∙◌, Bool-cases, ==_iff, ==_of_ne, sub32, ℕ, suc, ◌+◌, ◌-◌, ◌*◌, ◌≤◌, ◌<◌, ◌≡◌,
  refl, ◌≢◌, arith, leb, ltb, ◌==◌, ◌&&◌, ap, if◌then◌else◌, List, [], ◌∷◌, get_or, length,
}
use native.Mathlib.Decide.{dec_lt}
use comet_os.Terminal.{
  put_at, Terminal, make_vgaentry, newline, put_plain, putchar, write, backspace,
}
use comet_os.Terminal.Scroll.{scroll_cell}

-- The cursor is on the screen, or behind the last column of a row.
pub record IsValid (t : Terminal) : Type 0 where
  pub row : t.row < 25
  pub column : t.column ≤ 80

newline_lem :
    (t : Terminal)
    → IsValid t
    → IsValid (newline t)
      × ((newline t).column ≡ 0)
      × ((newline t).color ≡ t.color)
      × ((j : ℕ) → 2000 ≤ j → (newline t).buffer j ≡ t.buffer j)
unfolding newline
newline_lem t v = (
  ground arith,
  ground arith,
  ground arith,
  λ j h. ground (arith, scroll_cell (record t { column = 0 }) j),
)

-- Where there is room the byte goes to the cursor's cell, and the cursor moves on.
pub put_at_lem :
    (c : ℕ) (t : Terminal)
    → t.row < 25
    → t.column < 80
    → ((put_at c t).row ≡ t.row)
      × ((put_at c t).column ≡ t.column + 1)
      × ((put_at c t).color ≡ t.color)
      × ((j : ℕ)
          → (put_at c t).buffer j
            ≡ (if j == t.row * 80 + t.column then make_vgaentry c t.color else t.buffer j))
unfolding put_at
put_at_lem c t hr hc = (ground arith, ground arith, ground arith, λ j. ground arith)

put_plain_room : (c : ℕ) (t : Terminal) → t.column < 80 → put_plain c t ≡ put_at c t
unfolding put_plain
put_plain_room c t h = rw (==_of_ne t.column 80 (omega arith))

put_plain_wrap : (c : ℕ) (t : Terminal) → t.column ≡ 80 → put_plain c t ≡ put_at c (newline t)
unfolding put_plain
put_plain_wrap c t e = rw ((==_iff t.column 80).1 e)

-- The state is valid, and the cells behind the screen are those of `t`.
pub record Keeps (t u : Terminal) : Type 0 where
  pub valid : IsValid u
  pub behind : (j : ℕ) → 2000 ≤ j → u.buffer j ≡ t.buffer j

put_at-Keeps : (c : ℕ) (t : Terminal) → IsValid t → t.column < 80 → Keeps t (put_at c t)
put_at-Keeps c t v room =
    let (row, column, color, cell) = put_at_lem c t v.row room in
    record {
      valid = record { row = omega (arith, v.row); column = omega arith };
      behind = λ j h. ground (arith, cell j, v.row);
    }

put_plain-Keeps : (c : ℕ) (t : Terminal) → IsValid t → Keeps t (put_plain c t)
put_plain-Keeps c t v = elim (dec_lt t.column 80) [
  | yes room ↦ rw (put_plain_room c t room) (put_at-Keeps c t v room)
  | no full ↦
      let (valid, column, color, behind) = newline_lem t v in
      let rest = put_at-Keeps c (newline t) valid (omega arith) in
      rw (put_plain_wrap c t (omega (arith, v.column)))
        (record { valid = rest.valid; behind = λ j h. rest.behind j h ∙ behind j h })
]

backspace-Keeps : (t : Terminal) → IsValid t → 1 ≤ t.column → Keeps t (backspace t)
unfolding backspace
backspace-Keeps t v h =
    let back = record t { column = sub32 t.column 1 } in
    let room : back.column < 80 = omega (arith, v.column) in
    let (row, column, color, cell) = put_at_lem b' ' back v.row room in
    rw (put_plain_room b' ' back room) (record {
      valid = record { row = omega (arith, v.row); column = omega (arith, v.column) };
      behind = λ j g. ground (arith, cell j, v.row);
    })

-- From a valid state `terminal_putchar` of any byte leads to a valid state and writes no cell
-- behind the screen, except a backspace in column 0, which is left out here.
pub putchar-Keeps :
    (c : ℕ) (t : Terminal) → IsValid t → (c ≡ 8 → 1 ≤ t.column) → Keeps t (putchar c t)
unfolding putchar
putchar-Keeps c t v h = elim (Bool-cases (c == 10)) [
  | inl line ↦
      let (valid, column, color, behind) = newline_lem t v in
      rw line (record { valid = valid; behind = behind })
  | inr n1 ↦ elim (Bool-cases (c == 13)) [
    | inl home ↦ rw (n1, home) (record { valid = omega (arith, v.row); behind = λ j g. refl })
    | inr n2 ↦ elim (Bool-cases (c == 8)) [
      | inl back ↦ rw (n1, n2, back) (backspace-Keeps t v (h ((==_iff c 8).0 back)))
      | inr plain ↦ rw (n1, n2, plain) (put_plain-Keeps c t v)
    ]
  ]
]

pub putchar_color : (c : ℕ) (t : Terminal) → (putchar c t).color ≡ t.color
unfolding putchar newline backspace put_plain put_at
putchar_color c t = ground arith

-- A backspace in column 0 of a row on the screen leaves the column at 2 ^ 32 - 1, and writes a
-- blank to the cell before the row, which for row 0 is the one at index 2 ^ 32 - 1.
putchar_backspace_home :
    (t : Terminal)
    → t.row < 25
    → t.column ≡ 0
    → ((putchar 8 t).column ≡ 2 ^ 32 - 1)
      × ((putchar 8 t).buffer (if t.row == 0 then 2 ^ 32 - 1 else t.row * 80 - 1)
          ≡ make_vgaentry b' ' t.color)
unfolding putchar backspace put_plain put_at
putchar_backspace_home t h e = (ground arith, ground arith)

-- The byte is one that `terminal_putchar` shows.
abbrev pub IsPlain : ℕ → Type 0
IsPlain c = (c ≢ 10) × (c ≢ 13) × (c ≢ 8)

abbrev pub AllPlain : List ℕ → Type 0
AllPlain [] = Unit {0}
AllPlain (c ∷ cs) = IsPlain c × AllPlain cs

pub putchar_plain : (c : ℕ) (t : Terminal) → IsPlain c → t.column < 80 → putchar c t ≡ put_at c t
unfolding putchar
putchar_plain c t (n1, n2, n3) room =
    rw (==_of_ne c 10 n1, ==_of_ne c 13 n2, ==_of_ne c 8 n3) (put_plain_room c t room)

write-cons :
    (c : ℕ) (cs : List ℕ) (t : Terminal)
    → IsPlain c
    → t.column < 80
    → write (c ∷ cs) t ≡ write cs (put_at c t)
unfolding write
write-cons c cs t plain room = ap (write cs) (putchar_plain c t plain room)

get_or_here :
    (c : ℕ) (cs : List ℕ) (t : Terminal) (j : ℕ)
    → j ≡ t.row * 80 + t.column
    → get_or (c ∷ cs) (j - (t.row * 80 + t.column)) 0 ≡ c
get_or_here c cs t j e = ap (λ (i : ℕ). get_or (c ∷ cs) i 0) {y = 0} (omega arith)

get_or_later : (c : ℕ) (cs : List ℕ) (i k : ℕ) → k ≡ suc i → get_or (c ∷ cs) k 0 ≡ get_or cs i 0
get_or_later c cs i k e = ap (λ (n : ℕ). get_or (c ∷ cs) n 0) e

-- `terminal_write` of plain bytes that fit the rest of the row puts them, in order and in the
-- current colour, from the cursor's cell on, writes no other cell, and moves the cursor behind
-- them; row and colour stay.
pub write_text :
    (cs : List ℕ) (t : Terminal)
    → AllPlain cs
    → t.row < 25
    → t.column + length cs ≤ 80
    → ((write cs t).row ≡ t.row)
      × ((write cs t).column ≡ t.column + length cs)
      × ((write cs t).color ≡ t.color)
      × ((j : ℕ)
          → (write cs t).buffer j ≡ (
              let start = t.row * 80 + t.column in
              if leb start j && ltb j (start + length cs)
              then make_vgaentry (get_or cs (j - start) 0) t.color
              else t.buffer j))
unfolding write
write_text [] t plain hr fits = (refl, omega arith, refl, λ j. ground arith)
write_text (c ∷ cs) t plain hr fits =
    let (row, column, color, cell) = put_at_lem c t hr (omega arith) in
    let (row', column', color', cell') =
      write_text cs (put_at c t) plain.1 (omega arith) (omega arith) in
    rw (write-cons c cs t plain.0 (omega arith)) (
      row' ∙ row,
      omega arith,
      color' ∙ color,
      λ j. ground (
        arith,
        cell j,
        cell' j,
        row,
        column,
        color,
        get_or_here c cs t j,
        get_or_later c cs (j - ((put_at c t).row * 80 + (put_at c t).column))
            (j - (t.row * 80 + t.column)),
      ),
    )

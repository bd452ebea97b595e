-- ===== src/Terminal.antt =====
-- The text terminal, kernel/kernel/ui/tty.c and kernel/include/kernel/vga.h. `buffer` is what the
-- `uint16_t` cells from 0xB8000 on hold, those behind the screen's 2000 included; `size_t` has 32
-- bits, and a `char` is its byte, which is signed where it is widened.
pub mod Scroll
pub mod Output
pub mod Cursor
mod Tests
use comet_os.Base.{
  ℕ, zero, suc, ◌+◌, ◌-◌, ◌*◌, ◌/◌, ◌^◌, bit_or, List, [], ◌∷◌, leb, ◌==◌, u8, u16, u32, sub32,
  if◌then◌else◌,
}
use comet_os.Base.Bus.{Bus, outport8}

abbrev pub Cells : Type 0
Cells = ℕ → ℕ

pub record Terminal : Type 0 where
  pub row : ℕ
  pub column : ℕ
  pub color : ℕ
  pub buffer : Cells
  pub bus : Bus

abbrev pub vga_width : ℕ
vga_width = 80

abbrev pub vga_height : ℕ
vga_height = 25

abbrev pub make_color : ℕ → ℕ → ℕ
make_color fg bg = u8 (bit_or fg (bg * 2 ^ 4))

-- `uint16_t c16 = c` extends the sign of the `char`.
abbrev pub make_vgaentry : ℕ → ℕ → ℕ
make_vgaentry c color = u16 (bit_or (if leb 128 c then c + 0xff00 else c) (color * 2 ^ 8))

abbrev pub put_cell : ℕ → ℕ → Cells → Cells
put_cell index v b j = if j == index then v else b j

-- The loops stay shut in what calls them, so that their 80 and 25 rounds are not run in a proof.
-- A row of the initial loops, from `x` on with `n` rounds left, and all rows from `y` on.
fill_row : ℕ → ℕ → ℕ → ℕ → Cells → Cells
fill_row zero x y v b = b
fill_row (suc n) x y v b = fill_row n (x + 1) y v (put_cell (y * vga_width + x) v b)

fill_rows : ℕ → ℕ → ℕ → Cells → Cells
fill_rows zero y v b = b
fill_rows (suc n) y v b = fill_rows n (y + 1) v (fill_row vga_width 0 y v b)

-- COLOR_LIGHT_GREY on COLOR_BLACK.
pub initialize : Terminal → Terminal
initialize t = record t {
  row = 0;
  column = 0;
  color = make_color 7 0;
  buffer = fill_rows vga_height 0 (make_vgaentry b' ' (make_color 7 0)) t.buffer;
}

unfoldable pub setcolor : ℕ → Terminal → Terminal
setcolor color t = record t { color = u8 color }

pub putentryat : ℕ → ℕ → ℕ → ℕ → Terminal → Terminal
putentryat c color x y t = record t {
  buffer = put_cell (u32 (y * vga_width + x)) (make_vgaentry c color) t.buffer;
}

-- `buf[(y-1) * VGA_WIDTH + x] = buf[y * VGA_WIDTH + x]` along a row, and for all rows from `y` on.
copy_row : ℕ → ℕ → ℕ → Cells → Cells
copy_row zero x y b = b
copy_row (suc n) x y b =
    copy_row n (x + 1) y (put_cell ((y - 1) * vga_width + x) (b (y * vga_width + x)) b)

copy_rows : ℕ → ℕ → Cells → Cells
copy_rows zero y b = b
copy_rows (suc n) y b = copy_rows n (y + 1) (copy_row vga_width 0 y b)

pub scroll : Terminal → Terminal
scroll t = record t {
  buffer =
      fill_row vga_width 0 (vga_height - 1) (make_vgaentry b' ' t.color)
        (copy_rows (vga_height - 1) 1 t.buffer);
}

pub newline : Terminal → Terminal
unfolding scroll
newline t =
    let home = record t { column = 0 } in
    if u32 (t.row + 1) == vga_height then scroll home else record home { row = u32 (t.row + 1) }

-- The index and data registers of the cursor, high byte first.
pub drawcursor : ℕ → ℕ → Terminal → Terminal
drawcursor row column t =
    let location = u16 (row * 80 + column) in
    record t {
      bus =
          outport8 0x3d5 location
            (outport8 0x3d4 15 (outport8 0x3d5 (location / 2 ^ 8) (outport8 0x3d4 14 t.bus)));
    }

-- The last branch of `terminal_putchar`, behind its `if` and whole.
pub put_at : ℕ → Terminal → Terminal
unfolding putentryat drawcursor
put_at c t =
    let u = putentryat c t.color t.column t.row t in
    drawcursor u.row (u32 (u.column + 1)) (record u { column = u32 (u.column + 1) })

put_plain : ℕ → Terminal → Terminal
put_plain c t = put_at c (if t.column == vga_width then newline t else t)

-- Under `\b` the call `terminal_writestring(" ")` is `terminal_putchar(' ')`, the last branch.
backspace : Terminal → Terminal
unfolding drawcursor
backspace t =
    let u = put_plain b' ' (record t { column = sub32 t.column 1 }) in
    let column = sub32 u.column 1 in drawcursor u.row column (record u { column = column })

pub putchar : ℕ → Terminal → Terminal
putchar c t =
    if c == 10
    then newline t
    else if c == 13
    then record t { column = 0 }
    else if c == 8
    then backspace t
    else put_plain c t

-- `terminal_write` of the bytes `data[0]` to `data[size - 1]`. `terminal_writestring` is this for
-- the bytes of a string.
unfoldable pub write : List ℕ → Terminal → Terminal
write [] t = t
write (c ∷ data_left) t = write data_left (putchar c t)

-- `!row` is 0 or 1, and is compared with -1, here its bit pattern.
not_int : ℕ → ℕ
not_int n = if n == 0 then 1 else 0

pub cursorpos : ℕ → ℕ → Terminal → Terminal
unfolding not_int
cursorpos row column t =
    let t1 = if not_int row == 2 ^ 32 - 1 then record t { row = row } else t in
    if not_int column == 2 ^ 32 - 1 then record t1 { column = column } else t1

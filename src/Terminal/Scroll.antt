-- ===== src/Terminal/Scroll.antt =====
-- `terminal_scroll` and the loops of `terminal_initialize`, in kernel/kernel/ui/tty.c.
use comet_os.Base.{
  ℕ, zero, suc, ◌+◌, ◌-◌, ◌*◌, ◌≤◌, ◌≡◌, refl, arith, leb, ltb, ◌&&◌, ap, if◌then◌else◌,
}
use comet_os.Terminal.{
  Cells, Terminal, make_vgaentry, fill_row, fill_rows, copy_row, copy_rows, scroll, initialize,
  put_cell,
}

fill_row_lem :
    (n x y v : ℕ) (b : Cells) (j : ℕ)
    → fill_row n x y v b j ≡ (if leb (y * 80 + x) j && ltb j (y * 80 + x + n) then v else b j)
unfolding fill_row
fill_row_lem zero x y v b j = ground arith
fill_row_lem (suc n) x y v b j =
    ground (arith, fill_row_lem n (x + 1) y v (put_cell (y * 80 + x) v b) j)

fill_rows_lem :
    (n y v : ℕ) (b : Cells) (j : ℕ)
    → fill_rows n y v b j ≡ (if leb (y * 80) j && ltb j ((y + n) * 80) then v else b j)
unfolding fill_rows
fill_rows_lem zero y v b j = ground arith
fill_rows_lem (suc n) y v b j =
    ground (arith, fill_rows_lem n (y + 1) v (fill_row 80 0 y v b) j, fill_row_lem 80 0 y v b j)

copy_row_lem :
    (n x y : ℕ) (b : Cells) (j : ℕ)
    → 1 ≤ y
    → x + n ≤ 80
    → copy_row n x y b j
      ≡ (if leb ((y - 1) * 80 + x) j && ltb j ((y - 1) * 80 + x + n) then b (j + 80) else b j)
unfolding copy_row
copy_row_lem zero x y b j h fits = ground arith
copy_row_lem (suc n) x y b j h fits = ground (
  arith,
  copy_row_lem n (x + 1) y (put_cell ((y - 1) * 80 + x) (b (y * 80 + x)) b) j,
  ap {B = ℕ} b {x = j + 80} {y = y * 80 + x},
)

copy_rows_lem :
    (n y : ℕ) (b : Cells) (j : ℕ)
    → 1 ≤ y
    → copy_rows n y b j
      ≡ (if leb ((y - 1) * 80) j && ltb j ((y - 1 + n) * 80) then b (j + 80) else b j)
unfolding copy_rows
copy_rows_lem zero y b j h = ground arith
copy_rows_lem (suc n) y b j h = ground (
  arith,
  copy_rows_lem n (y + 1) (copy_row 80 0 y b) j,
  copy_row_lem 80 0 y b j,
  copy_row_lem 80 0 y b (j + 80),
)

-- `terminal_scroll` moves each cell of the rows 1 to 24 up by one row, fills row 24 with blanks in
-- the current colour, and touches no cell behind the screen.
pub scroll_cell :
    (t : Terminal) (j : ℕ)
    → (scroll t).buffer j ≡ (
        if ltb j 1920
        then t.buffer (j + 80)
        else if ltb j 2000
        then make_vgaentry b' ' t.color
        else t.buffer j)
unfolding scroll
scroll_cell t j = ground (
  arith,
  fill_row_lem 80 0 24 (make_vgaentry b' ' t.color) (copy_rows 24 1 t.buffer) j,
  copy_rows_lem 24 1 t.buffer j,
)

-- `terminal_initialize` leaves the cursor at the start of a screen of 2000 light grey blanks, and
-- touches no cell behind it.
pub initialize_cell :
    (t : Terminal) (j : ℕ)
    → ((initialize t).row ≡ 0)
      × ((initialize t).column ≡ 0)
      × ((initialize t).buffer j ≡ (if ltb j 2000 then 0x720 else t.buffer j))
unfolding initialize
initialize_cell t j = (refl, refl, ground (arith, fill_rows_lem 25 0 0x720 t.buffer j))

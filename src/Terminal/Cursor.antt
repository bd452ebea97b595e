-- ===== src/Terminal/Cursor.antt =====
-- The hardware cursor and `terminal_cursorpos` of kernel/kernel/ui/tty.c.
use comet_os.Base.{ℕ, ◌+◌, ◌*◌, ◌/◌, ◌%◌, ◌<◌, ◌≡◌, arith, List, ◌∷◌}
use comet_os.Base.Bus.{Access, wrote, outport8}
use comet_os.Terminal.{put_at, Terminal, putchar, cursorpos}
use comet_os.Terminal.Output.{IsPlain, put_at_lem, putchar_plain}

-- The accesses by which the cursor is moved to a location, the latest first.
abbrev pub moves : ℕ → List Access → List Access
moves location before =
    wrote 0x3d5 (location % 256)
    ∷ wrote 0x3d4 15
    ∷ wrote 0x3d5 (location / 256)
    ∷ wrote 0x3d4 14
    ∷ before

put_at_bus :
    (c : ℕ) (t : Terminal)
    → t.row < 25
    → t.column < 80
    → (put_at c t).bus.history ≡ moves (t.row * 80 + (t.column + 1)) t.bus.history
unfolding put_at outport8
put_at_bus c t hr hc = ground arith

-- Showing a byte with room in the row moves the hardware cursor to the cell of the new row and
-- column, by four writes and no other access.
putchar-moves :
    (c : ℕ) (t : Terminal)
    → IsPlain c
    → t.row < 25
    → t.column < 80
    → let u = putchar c t in u.bus.history ≡ moves (u.row * 80 + u.column) t.bus.history
putchar-moves c t plain hr hc =
    rw (putchar_plain c t plain hc) (ground (arith, put_at_bus c t, put_at_lem c t hr hc))

-- `terminal_cursorpos` of an `int` row and column changes nothing, whatever they are.
cursorpos_nothing : (row column : ℕ) (t : Terminal) → cursorpos row column t ≡ t
unfolding cursorpos
cursorpos_nothing row column t = ground arith

-- ===== src/Terminal/Tests.antt =====
-- The terminal at a screen of blanks.
use comet_os.Base.{ℕ, ◌-◌, ◌≡◌, refl, arith, leb, ltb, ◌&&◌, if◌then◌else◌, [], ◌∷◌, get_or}
use comet_os.Base.Bus.{Bus}
use comet_os.Terminal.{
  Terminal, make_vgaentry, put_plain, put_at, putchar, write, scroll, initialize, newline,
}
use comet_os.Terminal.Scroll.{initialize_cell}
use comet_os.Terminal.Output.{write_text}

-- Nothing answers on this bus.
abbrev quiet : Bus
quiet = record { history = []; answer = λ h p. 0 }

-- Row 24, column 78, on a screen whose cells are numbered.
abbrev low : Terminal
low = record { row = 24; column = 78; color = 7; buffer = λ j. j; bus = quiet }

abbrev home : Terminal
home = record { row = 3; column = 0; color = 7; buffer = λ j. j; bus = quiet }

wraps :
    ((write (b'a' ∷ b'b' ∷ b'c' ∷ []) low).row ≡ 24)
    × ((write (b'a' ∷ b'b' ∷ b'c' ∷ []) low).column ≡ 1)
unfolding write putchar put_plain put_at newline scroll
wraps = (refl, refl)

initialize_cell_example :
    ((initialize low).row ≡ 0) × ((initialize low).column ≡ 0) × ((initialize low).buffer 5 ≡ 0x720)
initialize_cell_example = initialize_cell low 5

write_text_example :
    ((write (b'o' ∷ b'k' ∷ []) home).row ≡ 3)
    × ((write (b'o' ∷ b'k' ∷ []) home).column ≡ 2)
    × ((write (b'o' ∷ b'k' ∷ []) home).color ≡ 7)
    × ((j : ℕ)
        → (write (b'o' ∷ b'k' ∷ []) home).buffer j ≡ (
            if leb 240 j && ltb j 242
            then make_vgaentry (get_or (b'o' ∷ b'k' ∷ []) (j - 240) 0) 7
            else j))
write_text_example = write_text (b'o' ∷ b'k' ∷ []) home (omega arith) (omega arith) (omega arith)

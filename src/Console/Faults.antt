-- ===== src/Console/Faults.antt =====
-- What the fault reports of the kernel do to the terminal.
use comet_os.Base.{
  ltb, inr, inl, Bool-cases, if◌then◌else◌, ◌⊎◌, ◌&&◌, Bool, get_or, false, ℕ, zero, suc, ◌≡◌, refl,
  ◌∙◌, arith, List, [], ◌∷◌, some, true, ◌!=◌, ◌==◌, ◌⊎◌,
}
use comet_os.Libc.Stdio.{convert_integer, word, printf}
use comet_os.Libc.Stdio.Literal.{Literal, printf-Literal}
use comet_os.Libc.Stdio.Forward.{forward, forward-append, convert_integer-forward, signed-forward}
use comet_os.Terminal.{Terminal, make_color}
use comet_os.Terminal.Output.{IsValid, Keeps}
use comet_os.Console.{
  color_light_grey, Cpu, Context, isr_shown, exception_messages, String, color_black, Shown, codes,
  show, page_fault, report,
}
use comet_os.Console.Keeps.{Prints, prints, Forward, last_color, show-Keeps}

-- The lines with a number.
hexadecimal : (v : ℕ) → Prints (codes "Address: 0x%x\n") (word v ∷ [])
unfolding printf
hexadecimal v =
    prints refl
      (forward-append (convert_integer v 16 false) (10 ∷ []) (convert_integer-forward v 16))

abbrev Signed : String → Type 0
Signed format = (v : ℕ) → Prints (codes format) (word v ∷ [])

present : Signed "Present: %i\n"
unfolding printf
present v = prints refl (signed-forward v (10 ∷ []))

rw_flag : Signed "RW: %i\n"
unfolding printf
rw_flag v = prints refl (signed-forward v (10 ∷ []))

us : Signed "US: %i\n"
unfolding printf
us v = prints refl (signed-forward v (10 ∷ []))

reserved : Signed "Reserved: %i\n"
unfolding printf
reserved v = prints refl (signed-forward v (10 ∷ []))

id : Signed "ID: %i\n"
unfolding printf
id v = prints refl (signed-forward v (10 ∷ []))

fault_number : Signed "\nFult number:%i\n\n"
unfolding printf
fault_number v = prints refl (signed-forward v (10 ∷ 10 ∷ []))

page_fault-Forward : (addr int_ctx : ℕ) → Forward (page_fault addr int_ctx)
unfolding page_fault printf
page_fault-Forward addr int_ctx = (
  prints refl refl,
  (
    prints refl refl,
    (
      prints refl refl,
      (
        hexadecimal addr,
        (present _, (rw_flag _, (us _, (reserved _, (id _, (prints refl refl, tt)))))),
      ),
    ),
  ),
)

-- Whether no byte is a `%` or a backspace.
plain : List ℕ → Bool
plain [] = true
plain (c ∷ cs) = (c != b'%') && (c != 8) && plain cs

plain-Literal : (cs : List ℕ) → plain cs ≡ true → Literal cs × (forward cs ≡ true)
unfolding plain
plain-Literal [] h = (tt, refl)
plain-Literal (c ∷ cs) h =
    let (literal, ahead) = plain-Literal cs (ground arith) in
    ((ground arith, literal), ground arith)

all_plain : List String → Bool
unfolding plain
all_plain [] = true
all_plain (format ∷ formats) = plain (codes format) && all_plain formats

-- Each text of a table prints itself.
message :
    (formats : List String) (i : ℕ)
    → all_plain formats ≡ true
    → Prints (codes (get_or formats i "")) []
unfolding all_plain printf
message [] i h = prints refl refl
message (format ∷ formats) zero h =
    let (literal, ahead) = plain-Literal (codes format) (ground arith) in
    prints ((printf-Literal (codes format) []).0 literal) ahead
message (format ∷ formats) (suc i) h = message formats i (ground arith)

report-Forward : (int_no : ℕ) → Forward (report int_no)
unfolding report all_plain plain printf
report-Forward int_no =
    (message exception_messages int_no refl, (fault_number int_no, (prints refl refl, tt)))

page_fault-last :
    (addr int_ctx color : ℕ)
    → last_color (page_fault addr int_ctx) color ≡ make_color color_light_grey color_black
unfolding page_fault last_color
page_fault-last addr int_ctx color = refl

report-last : (int_no color : ℕ) → last_color (report int_no) color ≡ color
unfolding report last_color
report-last int_no color = refl

-- What is shown can be shown, and ends in the colour that `colored` says.
abbrev Ends : ℕ → List Shown → ℕ → Type 0
Ends before shown after = Forward shown × (last_color shown before ≡ after)

isr_shown-Ends :
    (page_fault_at addr : ℕ) (other : ℕ → ℕ → List Shown) (ctx : Context) (c : Cpu) (color : ℕ)
    → (c.isr_routines ctx.int_no ≡ 0) ⊎ (c.isr_routines ctx.int_no ≡ page_fault_at)
    → Ends color
        (isr_shown page_fault_at other addr ctx c)
        (if c.isr_routines ctx.int_no != 0 then make_color color_light_grey color_black else color)
unfolding isr_shown last_color
isr_shown-Ends page_fault_at addr other ctx c color known =
    elim (Bool-cases (c.isr_routines ctx.int_no != 0)) [
      | inl there ↦
          let same : (c.isr_routines ctx.int_no == page_fault_at) ≡ true = ground arith in
          rw (isr_shown, there, same)
            (page_fault-Forward addr ctx.err_code, page_fault-last addr ctx.err_code color)
      | inr gone ↦ elim (Bool-cases (ltb ctx.int_no 32)) [
        | inl exception ↦
            rw (isr_shown, gone, exception)
              (report-Forward ctx.int_no, report-last ctx.int_no color)
        | inr beyond ↦ rw (isr_shown, gone, beyond) (tt, refl)
      ]
    ]

-- Where an exception has no handler, or `page_fault` for its handler, what `isr_handler` shows from a
-- valid state of the terminal is shown to its end: each format fits its arguments, the terminal's state
-- is valid after it, no cell behind the screen is written, and the colour is light grey on black
-- after `page_fault`, and else what it was.
pub isr_shown-Keeps :
    (page_fault_at addr : ℕ) (other : ℕ → ℕ → List Shown) (ctx : Context) (c : Cpu) (t : Terminal)
    → IsValid t
    → (c.isr_routines ctx.int_no ≡ 0) ⊎ (c.isr_routines ctx.int_no ≡ page_fault_at)
    → (u : Terminal) × (show (isr_shown page_fault_at other addr ctx c) t ≡ some u)
      × Keeps t u
      × (u.color ≡ (
          if c.isr_routines ctx.int_no != 0
          then make_color color_light_grey color_black
          else t.color))
isr_shown-Keeps page_fault_at addr other ctx c t v known =
    let (all, last) = isr_shown-Ends page_fault_at addr other ctx c t.color known in
    let (u, made, kept, color) = show-Keeps (isr_shown page_fault_at other addr ctx c) t v all in
    (u, made, kept, color ∙ last)

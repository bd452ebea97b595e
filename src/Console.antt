-- ===== src/Console.antt =====
-- What the kernel shows on its console: `page_fault` of kernel/arch/i386/mem/paging.c, the report of
-- `isr_handler` of kernel/arch/i386/irq/interrupt.c, `log_print` of a build with DEBUG of
-- kernel/kernel/ui/log.c, and the colours of kernel/include/kernel/vga.h.
pub mod Keeps
pub mod Faults
mod Tests
use Prim.Native.Char.{code}
use Prim.Native.String.{String}
use comet_os.Base.{
  ℕ, get_or, List, [], ◌∷◌, Option, none, some, true, false, bit, ltb, ◌==◌, ◌!=◌, if◌then◌else◌,
}
use comet_os.Interrupts.{Cpu, Context}
use comet_os.Libc.Stdio.{Arg, word, string, printed, unspecified, no_fuel, printf}
use comet_os.Terminal.{Terminal, make_color, setcolor, write}

-- The bytes of a text in ASCII.
abbrev pub codes : String → List ℕ
codes String.[] = []
codes (String.◌∷◌ c s) = code c ∷ codes s

-- The values of `enum vga_color` that are used.
abbrev pub color_black : ℕ
color_black = 0

abbrev pub color_green : ℕ
color_green = 2

abbrev pub color_red : ℕ
color_red = 4

abbrev pub color_light_grey : ℕ
color_light_grey = 7

abbrev pub color_light_blue : ℕ
color_light_blue = 9

-- A call of `terminal_setcolor` with a colour on black, or of `printf`.
pub data Shown : Type 0 where
  colored : ℕ → Shown
  text : String → List Arg → Shown

-- The calls in order; `none` is a `printf` with arguments that do not fit its format. In the kernel
-- `putchar` hands each byte to `terminal_write`.
unfoldable pub show : List Shown → Terminal → Option Terminal
show [] t = some t
show (colored color ∷ rest) t = show rest (setcolor (make_color color color_black) t)
show (text format args ∷ rest) t = elim (printf (codes format) args) [
  | printed out written ↦ show rest (write out t)
  | unspecified ↦ none
  | no_fuel ↦ none
]

-- `page_fault` at the address in cr2; its parameter is the error code, which `isr_handler` passes.
unfoldable pub page_fault : ℕ → ℕ → List Shown
page_fault addr int_ctx =
    text "\n\n|---------------- " []
    ∷ colored color_red
    ∷ text "Page Fault" []
    ∷ colored color_light_grey
    ∷ text " ----------------|\n" []
    ∷ colored color_light_blue
    ∷ text "Address: 0x%x\n" (word addr ∷ [])
    ∷ text "Present: %i\n" (word (if bit int_ctx 0 then 0 else 1) ∷ [])
    ∷ text "RW: %i\n" (word (if bit int_ctx 1 then 2 else 0) ∷ [])
    ∷ text "US: %i\n" (word (if bit int_ctx 2 then 4 else 0) ∷ [])
    ∷ text "Reserved: %i\n" (word (if bit int_ctx 3 then 8 else 0) ∷ [])
    ∷ text "ID: %i\n" (word (if bit int_ctx 4 then 16 else 0) ∷ [])
    ∷ colored color_light_grey
    ∷ text "|--------------------------------------------|" []
    ∷ []

abbrev pub exception_messages : List String
exception_messages =
    "Division By Zero" ∷ "Debug" ∷ "Non Maskable Interrupt" ∷ "Breakpoint"
    ∷ "Into Detected Overflow" ∷ "Out of Bounds" ∷ "Invalid Opcode" ∷ "No Coprocessor"
    ∷ "Double Fault" ∷ "Coprocessor Segment Overrun" ∷ "Bad TSS" ∷ "Segment Not Present"
    ∷ "Stack Fault" ∷ "General Protection Fault" ∷ "Page Fault" ∷ "Unknown Interrupt"
    ∷ "Coprocessor Fault" ∷ "Alignment Check" ∷ "Machine Check" ∷ "Reserved" ∷ "Reserved"
    ∷ "Reserved" ∷ "Reserved" ∷ "Reserved" ∷ "Reserved" ∷ "Reserved" ∷ "Reserved" ∷ "Reserved"
    ∷ "Reserved" ∷ "Reserved" ∷ "Reserved" ∷ "Reserved" ∷ []

-- The message is the format of the first `printf`.
unfoldable pub report : ℕ → List Shown
report int_no =
    text (get_or exception_messages int_no "") []
    ∷ text "\nFult number:%i\n\n" (word int_no ∷ [])
    ∷ text "System Halted!\n" []
    ∷ []

-- What `isr_handler` shows where `page_fault` stands at `page_fault_at`; another handler shows what
-- `other` says.
unfoldable pub isr_shown : ℕ → (ℕ → ℕ → List Shown) → ℕ → Context → Cpu → List Shown
unfolding page_fault report
isr_shown page_fault_at other addr ctx c =
    let handler = c.isr_routines ctx.int_no in
    if handler != 0
    then (if handler == page_fault_at
        then page_fault addr ctx.err_code
        else other handler ctx.err_code)
    else if ltb ctx.int_no 32
    then report ctx.int_no
    else []

-- The output of `log_print` with DEBUG: `hours`, `minutes` and `seconds` are what `time_get` returns,
-- `format_at` is the address of the format, which is shown as a number, and `buffer` the line.
unfoldable pub log_shown : ℕ → ℕ → ℕ → ℕ → ℕ → List ℕ → List Shown
log_shown status hours minutes seconds format_at buffer =
    let line : Shown =
      text "[%i.%i:%i:%d] %s\n"
        (word hours ∷ word minutes ∷ word seconds ∷ word format_at ∷ string buffer ∷ []) in
    if status == 0
    then text "[" []
      ∷ colored color_green
      ∷ text "OK" []
      ∷ colored color_light_grey
      ∷ text "]" []
      ∷ text " [%i.%i:%i:%d] %s\n"
          (word hours ∷ word minutes ∷ word seconds ∷ word format_at ∷ string buffer ∷ [])
      ∷ []
    else line ∷ []

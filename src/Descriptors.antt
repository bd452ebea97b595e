-- ===== src/Descriptors.antt =====
-- The descriptor tables, kernel/arch/i386/gdt.c and kernel/arch/i386/irq/idt.c. A handler is an
-- address of 32 bits; those of the assembly entries `isr0` to `isr31` and `irq0` to `irq15` are the
-- parameters `isr` and `irq`.
pub mod Gates
pub mod Segments
mod Tests
use comet_os.Base.{
  ℕ, ◌+◌, ◌-◌, ◌*◌, ◌/◌, ◌%◌, ◌^◌, bit_or, List, [], ◌∷◌, ◌==◌, u8, u16, if◌then◌else◌,
}

-- `struct idt_entry`.
pub record IdtEntry : Type 0 where
  pub handler_low : ℕ
  pub selector : ℕ
  pub ist : ℕ
  pub flags : ℕ
  pub handler_high : ℕ

abbrev pub idt_type_interrupt : ℕ
idt_type_interrupt = 0xe

unfoldable pub idt_format_normal_entry : ℕ → ℕ → ℕ → IdtEntry
idt_format_normal_entry handler type rpl = record {
  handler_low = handler % 2 ^ 16;
  selector = 0x08;
  ist = 0;
  flags = u8 (bit_or (bit_or 0x80 (rpl * 2 ^ 5)) type);
  handler_high = handler / 2 ^ 16 % 2 ^ 16;
}

-- What `memset` leaves.
abbrev pub no_entry : IdtEntry
no_entry = record { handler_low = 0; selector = 0; ist = 0; flags = 0; handler_high = 0 }

-- A call of `idt_format_normal_entry` on an entry of the table: all have the type of an interrupt.
pub record Gate : Type 0 where
  pub index : ℕ
  pub handler : ℕ
  pub rpl : ℕ

abbrev gate : ℕ → ℕ → ℕ → Gate
gate i h r = record { index = i; handler = h; rpl = r }

-- The calls of `idt_initialize` in order; that for 32 stands twice.
abbrev gates : (ℕ → ℕ) → (ℕ → ℕ) → List Gate
gates isr irq =
    gate 0 (isr 0) 0
    ∷ gate 1 (isr 1) 0
    ∷ gate 2 (isr 2) 0
    ∷ gate 3 (isr 3) 0
    ∷ gate 4 (isr 4) 0
    ∷ gate 5 (isr 5) 0
    ∷ gate 6 (isr 6) 0
    ∷ gate 7 (isr 7) 0
    ∷ gate 8 (isr 8) 0
    ∷ gate 9 (isr 9) 0
    ∷ gate 10 (isr 10) 0
    ∷ gate 11 (isr 11) 0
    ∷ gate 12 (isr 12) 0
    ∷ gate 13 (isr 13) 0
    ∷ gate 14 (isr 14) 0
    ∷ gate 15 (isr 15) 0
    ∷ gate 16 (isr 16) 0
    ∷ gate 17 (isr 17) 0
    ∷ gate 18 (isr 18) 0
    ∷ gate 19 (isr 19) 0
    ∷ gate 20 (isr 20) 0
    ∷ gate 21 (isr 21) 0
    ∷ gate 22 (isr 22) 0
    ∷ gate 23 (isr 23) 0
    ∷ gate 24 (isr 24) 0
    ∷ gate 25 (isr 25) 0
    ∷ gate 26 (isr 26) 0
    ∷ gate 27 (isr 27) 0
    ∷ gate 28 (isr 28) 0
    ∷ gate 29 (isr 29) 0
    ∷ gate 30 (isr 30) 0
    ∷ gate 31 (isr 31) 0
    ∷ gate 32 (irq 0) 0
    ∷ gate 32 (irq 0) 0
    ∷ gate 33 (irq 1) 0
    ∷ gate 34 (irq 2) 0
    ∷ gate 35 (irq 3) 0
    ∷ gate 36 (irq 4) 0
    ∷ gate 37 (irq 5) 0
    ∷ gate 38 (irq 6) 0
    ∷ gate 39 (irq 7) 0
    ∷ gate 40 (irq 8) 0
    ∷ gate 41 (irq 9) 0
    ∷ gate 42 (irq 10) 0
    ∷ gate 43 (irq 11) 0
    ∷ gate 44 (irq 12) 0
    ∷ gate 45 (irq 13) 0x8e
    ∷ gate 46 (irq 14) 0
    ∷ gate 47 (irq 15) 0
    ∷ []

format_all : List Gate → (ℕ → IdtEntry) → ℕ → IdtEntry
unfolding idt_format_normal_entry
format_all [] idt = idt
format_all (g ∷ gs) idt = format_all gs (λ j.
    if j == g.index then idt_format_normal_entry g.handler idt_type_interrupt g.rpl else idt j)

unfoldable pub idt_initialize : (ℕ → ℕ) → (ℕ → ℕ) → ℕ → IdtEntry
unfolding format_all
idt_initialize isr irq = format_all (gates isr irq) (λ j. no_entry)

-- `struct gdt_entry`.
pub record GdtEntry : Type 0 where
  pub limit_low : ℕ
  pub base_low : ℕ
  pub base_middle : ℕ
  pub access : ℕ
  pub granularity : ℕ
  pub base_high : ℕ

-- `(granularity) & 0xF0` keeps the upper four bits of the byte.
unfoldable pub gdt_entry : ℕ → ℕ → ℕ → ℕ → GdtEntry
gdt_entry base limit access granularity = record {
  limit_low = limit % 2 ^ 16;
  base_low = base % 2 ^ 16;
  base_middle = base / 2 ^ 16 % 2 ^ 8;
  access = access % 2 ^ 8;
  granularity = bit_or (limit / 2 ^ 16 % 2 ^ 4) (granularity / 2 ^ 4 % 2 ^ 4 * 2 ^ 4);
  base_high = base / 2 ^ 24 % 2 ^ 8;
}

-- GRAN_32_BIT_MODE and GRAN_4KIB_BLOCKS.
abbrev pub flat : ℕ
flat = bit_or (2 ^ 6) (2 ^ 7)

-- The task state segment has 25 words of 32 bits and two of 16.
abbrev pub tss_size : ℕ
tss_size = 25 * 4 + 2 * 2

unfoldable pub gdt : List GdtEntry
unfolding gdt_entry
gdt =
    gdt_entry 0 0 0 0
    ∷ gdt_entry 0 0xffffffff 0x9a flat
    ∷ gdt_entry 0 0xffffffff 0x92 flat
    ∷ gdt_entry 0 0xffffffff 0xfa flat
    ∷ gdt_entry 0 0xffffffff 0xf2 flat
    ∷ gdt_entry 0 (tss_size - 1) 0xe9 0x00
    ∷ []

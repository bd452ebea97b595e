-- ===== src/Descriptors/Segments.antt =====
-- What the descriptors of kernel/arch/i386/gdt.c and kernel/arch/i386/irq/idt.c stand for.
use comet_os.Base.{ℕ, ◌+◌, ◌*◌, ◌/◌, ◌%◌, ◌^◌, ◌<◌, ◌≡◌, arith}
use comet_os.Base.Bits.{bit_or-above}
use comet_os.Descriptors.{IdtEntry, idt_format_normal_entry, GdtEntry, gdt_entry}

-- The fields as the processor reads them: the base, the limit of 20 bits, and the flags.
abbrev pub base_of : GdtEntry → ℕ
base_of e = e.base_low + 2 ^ 16 * e.base_middle + 2 ^ 24 * e.base_high

abbrev pub limit_of : GdtEntry → ℕ
limit_of e = e.limit_low + 2 ^ 16 * (e.granularity % 2 ^ 4)

-- The address that a gate leads to.
abbrev pub handler_of : IdtEntry → ℕ
handler_of e = e.handler_low + 2 ^ 16 * e.handler_high

-- A descriptor made from a 32-bit base, a limit, an access byte and granularity flags holds that
-- base, the lower 20 bits of the limit, the access byte, and the upper four bits of the flags; a gate
-- made from a 32-bit handler leads to that handler.
gdt_entry-fields :
    (base limit access granularity handler type rpl : ℕ)
    → base < 2 ^ 32
    → access < 2 ^ 8
    → granularity < 2 ^ 8
    → handler < 2 ^ 32
    → (base_of (gdt_entry base limit access granularity) ≡ base)
      × (limit_of (gdt_entry base limit access granularity) ≡ limit % 2 ^ 20)
      × ((gdt_entry base limit access granularity).access ≡ access)
      × ((gdt_entry base limit access granularity).granularity / 2 ^ 4 ≡ granularity / 2 ^ 4)
      × (handler_of (idt_format_normal_entry handler type rpl) ≡ handler)
unfolding gdt_entry idt_format_normal_entry
gdt_entry-fields base limit access granularity handler type rpl hb ha hg hh =
    let joined =
      bit_or-above 4 (limit / 2 ^ 16 % 2 ^ 4) (granularity / 2 ^ 4 % 2 ^ 4) (omega arith) in
    (omega arith, omega (arith, joined), omega arith, omega (arith, joined), omega arith)

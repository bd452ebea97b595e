-- ===== src/Descriptors/Tests.antt =====
-- The descriptor theorems at the vectors of a table and at a segment.
use comet_os.Base.{ℕ, ◌+◌, ◌-◌, ◌*◌, ◌≤◌, ◌<◌, ◌≡◌, ◌==◌, if◌then◌else◌}
use comet_os.Descriptors.{no_entry, idt_initialize}
use comet_os.Descriptors.Gates.{IsGate, idt_initialize-gates}

abbrev isr : ℕ → ℕ
isr n = 0x100000 + 16 * n

abbrev irq : ℕ → ℕ
irq n = 0x200000 + 16 * n

abbrev irq_13 : ℕ
irq_13 = 45

idt_initialize-gates_example :
    (irq_13 < 32 → IsGate (isr irq_13) 0 (idt_initialize isr irq irq_13))
    × (32 ≤ irq_13
        → irq_13 < 48
        → IsGate
            (irq (irq_13 - 32))
            (if irq_13 == 45 then 2 else 0)
            (idt_initialize isr irq irq_13))
    × (48 ≤ irq_13 → idt_initialize isr irq irq_13 ≡ no_entry)
idt_initialize-gates_example = idt_initialize-gates isr irq irq_13

-- ===== src/Descriptors/Gates.antt =====
-- The interrupt gates of kernel/arch/i386/irq/idt.c.
use comet_os.Base.{
  ◌*◌, ◌/◌, ◌%◌, ◌^◌, u32, bit, true, refl, sym, Bool-cases, inl, inr, ℕ, zero, suc, ◌+◌, ◌-◌, ◌≤◌,
  ◌<◌, ◌≡◌, arith, ◌==◌, if◌then◌else◌,
}
use native.Mathlib.Decide.{dec_lt}
use mathlib.Core.Path.{subst}
use comet_os.Descriptors.{IdtEntry, no_entry, idt_format_normal_entry, idt_initialize}

-- What holds at the `n` vectors from `i` on, one by one.
Each : (ℕ → Type 0) → ℕ → ℕ → Type 0
Each P zero i = Unit {0}
Each P (suc n) i = P i × Each P n (i + 1)

Each-at : (P : ℕ → Type 0) (n i v : ℕ) → Each P n i → i ≤ v → v < i + n → P v
unfolding Each
Each-at P zero i v e lo hi = absurd (omega arith)
Each-at P (suc n) i v (here, rest) lo hi = elim (dec_lt i v) [
  | yes later ↦ Each-at P n (i + 1) v rest (omega arith) (omega arith)
  | no first ↦ let e : i ≡ v = omega arith in subst P e here
]

module _ (isr irq : ℕ → ℕ) where
  abbrev IsIsr : ℕ → Type 0
  IsIsr v = idt_initialize isr irq v ≡ idt_format_normal_entry (isr v) 0xe 0

  abbrev IsIrq : ℕ → Type 0
  IsIrq v =
      idt_initialize isr irq v
      ≡ idt_format_normal_entry (irq (v - 32)) 0xe (if v == 45 then 0x8e else 0)

  Each-IsIsr : Each IsIsr 32 0
  unfolding Each idt_initialize
  Each-IsIsr = search

  Each-IsIrq : Each IsIrq 16 32
  unfolding Each idt_initialize
  Each-IsIrq = search

-- An interrupt gate to a handler through the kernel's code segment, which is present and has a
-- privilege level.
pub record IsGate (handler level : ℕ) (e : IdtEntry) : Type 0 where
  pub offset : e.handler_low + 2 ^ 16 * e.handler_high ≡ u32 handler
  pub low : e.handler_low < 2 ^ 16
  pub selector : e.selector ≡ 0x08
  pub ist : e.ist ≡ 0
  pub present : bit e.flags 7 ≡ true
  pub privilege : e.flags / 2 ^ 5 % 4 ≡ level
  pub type : e.flags % 2 ^ 5 ≡ 0xe

plain-IsGate : (handler : ℕ) → IsGate handler 0 (idt_format_normal_entry handler 0xe 0)
unfolding idt_format_normal_entry
plain-IsGate handler = record {
  offset = omega arith;
  low = omega arith;
  selector = refl;
  ist = refl;
  present = refl;
  privilege = refl;
  type = refl;
}

wrong-IsGate : (handler : ℕ) → IsGate handler 2 (idt_format_normal_entry handler 0xe 0x8e)
unfolding idt_format_normal_entry
wrong-IsGate handler = record {
  offset = omega arith;
  low = omega arith;
  selector = refl;
  ist = refl;
  present = refl;
  privilege = refl;
  type = refl;
}

irq-IsGate :
    (irq : ℕ → ℕ) (v : ℕ)
    → IsGate
        (irq (v - 32))
        (if v == 45 then 2 else 0)
        (idt_format_normal_entry (irq (v - 32)) 0xe (if v == 45 then 0x8e else 0))
irq-IsGate irq v = elim (Bool-cases (v == 45)) [
  | inl last ↦ rw (last) (wrong-IsGate (irq (v - 32)))
  | inr other ↦ rw (other) (plain-IsGate (irq (v - 32)))
]

-- Behind `idt_initialize` the vectors 0 to 31 lead to `isr0` to `isr31` and the vectors 32 to 47 to
-- `irq0` to `irq15`, all through the kernel's code segment 0x08, as interrupt gates that are present
-- and of privilege level 0, except vector 45, whose level is 2; a vector from 48 on has no gate.
pub idt_initialize-gates :
    (isr irq : ℕ → ℕ) (v : ℕ)
    → (v < 32 → IsGate (isr v) 0 (idt_initialize isr irq v))
      × (32 ≤ v
          → v < 48
          → IsGate (irq (v - 32)) (if v == 45 then 2 else 0) (idt_initialize isr irq v))
      × (48 ≤ v → idt_initialize isr irq v ≡ no_entry)
unfolding idt_initialize
idt_initialize-gates isr irq v = (
  λ h.
      let e = Each-at (IsIsr isr irq) 32 0 v (Each-IsIsr isr irq) (omega arith) (omega arith) in
      subst (IsGate (isr v) 0) (sym e) (plain-IsGate (isr v)),
  λ l h.
      let e = Each-at (IsIrq isr irq) 16 32 v (Each-IsIrq isr irq) l (omega arith) in
      subst (IsGate (irq (v - 32)) (if v == 45 then 2 else 0)) (sym e) (irq-IsGate irq v),
  λ h. ground arith,
)

-- ===== src/Interrupts/Eoi.antt =====
-- Which interrupt controllers `irq_handler` of kernel/arch/i386/irq/interrupt.c acknowledges.
use comet_os.Base.{
  inr, inl, ◌!=◌, ap, ◌∙◌, Bool-cases, ◌-◌, ℕ, ◌+◌, ◌≤◌, ◌<◌, ◌≡◌, arith, Bool, ◌==◌, ◌&&◌, ◌||◌,
  leb, not, bit, u8, sub32, if◌then◌else◌, List, [], ◌∷◌,
}
use comet_os.Base.Bus.{Bus, Access, wrote, got, outport8, inport8}
use comet_os.Interrupts.{
  Cpu, Context, pic_read_isr, irq_handler, finish, run_routine, pic_eoi_master, pic_eoi_slave,
}

-- How often the end of an interrupt has been sent to a controller.
abbrev pub eois : ℕ → List Access → ℕ
eois port [] = 0
eois port (wrote p v ∷ rest) = (if (p == port) && (v == 0x20) then 1 else 0) + eois port rest
eois port (got p v ∷ rest) = eois port rest

-- A handler that does not acknowledge an interrupt itself.
abbrev pub Quiet : (ℕ → ℕ → Cpu → Cpu) → Type 0
Quiet call = (port f x : ℕ) (c : Cpu) → eois port (call f x c).bus.history ≡ eois port c.bus.history

-- An interrupt that its controller does not report in service: IRQ 7 without bit 7, IRQ 15
-- without bit 15 of the service registers that are read.
abbrev pub spurious : ℕ → Bus → Bool
spurious irq b =
    ((irq == 7) && not (bit (pic_read_isr b).0 7))
    || ((irq == 15) && not (bit (pic_read_isr b).0 15))

read_quiet : (port : ℕ) (b : Bus) → eois port (pic_read_isr b).1.history ≡ eois port b.history
unfolding pic_read_isr outport8 inport8
read_quiet port b = ground arith

module _ (call : ℕ → ℕ → Cpu → Cpu) (quiet : Quiet call) where
  run_quiet :
      (port : ℕ) (ctx : Context) (c : Cpu)
      → eois port (run_routine call ctx c).bus.history ≡ eois port c.bus.history
  unfolding run_routine
  run_quiet port ctx c = elim (Bool-cases (c.irq_routines (sub32 ctx.int_no 32) != 0)) [
    | inl some_routine ↦ rw some_routine (quiet port _ _ c)
    | inr no_routine ↦ rw no_routine
  ]

  finish-eois :
      (irq : ℕ) (c : Cpu)
      → (eois 0x20 (finish call irq c).bus.history ≡ 1 + eois 0x20 c.bus.history)
        × (eois 0xa0 (finish call irq c).bus.history
            ≡ (if leb 8 irq then 1 else 0) + eois 0xa0 c.bus.history)
  unfolding finish pic_eoi_master pic_eoi_slave outport8
  finish-eois irq c = (ground arith, ground arith)

  -- A routine that is run, and the acknowledgement that follows.
  serve_eois :
      (irq : ℕ) (ctx : Context) (c : Cpu)
      → let after = (finish call irq (run_routine call ctx c)).bus.history in
        (eois 0x20 after ≡ 1 + eois 0x20 c.bus.history)
        × (eois 0xa0 after ≡ (if leb 8 irq then 1 else 0) + eois 0xa0 c.bus.history)
  serve_eois irq ctx c =
      let ends = finish-eois irq (run_routine call ctx c) in
      (
        ends.0 ∙ ap (λ (n : ℕ). 1 + n) (run_quiet 0x20 ctx c),
        ends.1 ∙ ap (λ (n : ℕ). (if leb 8 irq then 1 else 0) + n) (run_quiet 0xa0 ctx c),
      )

  master_eois :
      (c : Cpu)
      → (eois 0x20 (pic_eoi_master c.bus).history ≡ 1 + eois 0x20 c.bus.history)
        × (eois 0xa0 (pic_eoi_master c.bus).history ≡ eois 0xa0 c.bus.history)
  unfolding pic_eoi_master outport8
  master_eois c = (ground arith, ground arith)

  -- If no handler acknowledges an interrupt itself, `irq_handler` of IRQ 0 to 15 sends the end of
  -- the interrupt to the master once, but for a spurious IRQ 7, and to the slave once for IRQ 8 to
  -- 15, but for a spurious IRQ 15; it sends it no other time.
  pub irq_handler-eois :
      (ctx : Context) (c : Cpu)
      → 32 ≤ ctx.int_no
      → ctx.int_no < 48
      → let irq = ctx.int_no - 32 in
        let after = (irq_handler call ctx c).bus.history in
        (eois 0x20 after
          ≡ (if (irq == 7) && spurious irq c.bus then 0 else 1) + eois 0x20 c.bus.history)
        × (eois 0xa0 after
            ≡ (if leb 8 irq && not (spurious irq c.bus) then 1 else 0) + eois 0xa0 c.bus.history)
  unfolding irq_handler
  irq_handler-eois ctx c lo hi =
      let irq : u8 (sub32 ctx.int_no 32) ≡ ctx.int_no - 32 = omega arith in
      let asked = record c { bus = (pic_read_isr c.bus).1 } in
      (
        ground (
          arith,
          serve_eois (ctx.int_no - 32) ctx c,
          serve_eois (ctx.int_no - 32) ctx asked,
          master_eois asked,
          read_quiet 0x20 c.bus,
        ),
        ground (
          arith,
          serve_eois (ctx.int_no - 32) ctx c,
          serve_eois (ctx.int_no - 32) ctx asked,
          master_eois asked,
          read_quiet 0xa0 c.bus,
        ),
      )

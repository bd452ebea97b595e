-- ===== src/Interrupts/Dispatch.antt =====
-- Which routine `interrupt_handler` of kernel/arch/i386/irq/interrupt.c runs.
use comet_os.Base.{==_refl, lt→ltb, ℕ, ◌-◌, ◌≤◌, ◌<◌, ◌≡◌, ◌≢◌, refl, arith, true, u8, sub32, ◌!=◌}
use comet_os.Interrupts.{
  Cpu, Context, irq_handler, isr_handler, interrupt_handler, isr_install_handler,
}
use comet_os.Interrupts.Eoi.{spurious}

module _ (call : ℕ → ℕ → Cpu → Cpu) (ctx : Context) (c : Cpu) where
  -- At a spurious interrupt no routine runs, whatever is installed: the tables stay, the processor
  -- goes on, and the outcome is the same for every `call`.
  interrupt_handler-spurious :
      (other : ℕ → ℕ → Cpu → Cpu)
      → 32 ≤ ctx.int_no
      → ctx.int_no < 48
      → spurious (ctx.int_no - 32) c.bus ≡ true
      → let after = interrupt_handler call ctx c in
        (after.irq_routines ≡ c.irq_routines)
        × (after.isr_routines ≡ c.isr_routines)
        × (after.halted ≡ c.halted)
        × (after ≡ interrupt_handler other ctx c)
  unfolding interrupt_handler irq_handler
  interrupt_handler-spurious other lo hi h =
      let irq : u8 (sub32 ctx.int_no 32) ≡ ctx.int_no - 32 = omega arith in
      (ground arith, ground arith, ground arith, ground arith)

  -- An exception, an interrupt below 32, halts the processor, after the installed routine, if there
  -- is one, has been given the error code; an interrupt from 48 on changes nothing.
  interrupt_handler_outside :
      (handler : ℕ)
      → handler ≢ 0
      → (ctx.int_no < 32 → (interrupt_handler call ctx c).halted ≡ true)
        × (ctx.int_no < 32
            → let armed = isr_install_handler ctx.int_no handler c in
              interrupt_handler call ctx armed
              ≡ (let after = call handler ctx.err_code armed in record after { halted = true }))
        × (48 ≤ ctx.int_no → interrupt_handler call ctx c ≡ c)
  unfolding interrupt_handler isr_handler isr_install_handler
  interrupt_handler_outside handler ne =
      let set : (handler != 0) ≡ true = ground arith in
      (λ h. ground arith, λ h. rw (lt→ltb _ _ h, ==_refl ctx.int_no, set) refl, λ h. ground arith)

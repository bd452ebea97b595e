-- ===== src/Interrupts.antt =====
-- Interrupt dispatch, kernel/arch/i386/irq/interrupt.c, and the interrupt controllers,
-- kernel/arch/i386/pic.c. A handler is a function pointer, 0 for none; what it does to the machine
-- is the parameter `call`, since any driver may install one. Console output is not part of the
-- state here.
pub mod Eoi
pub mod Dispatch
mod Tests
use comet_os.Base.{
  ℕ, ◌+◌, ◌-◌, ◌*◌, ◌^◌, bit_or, Bool, true, false, not, leb, ltb, ◌==◌, ◌!=◌, ◌&&◌, u8, u16, sub32,
  bit, if◌then◌else◌,
}
use comet_os.Base.Bus.{Bus, outport8, inport8}

-- The two tables, the ports, and whether the processor has been halted.
pub record Cpu : Type 0 where
  pub irq_routines : ℕ → ℕ
  pub isr_routines : ℕ → ℕ
  pub bus : Bus
  pub halted : Bool

-- The fields of `struct interrupt_context` that are read, and the frame's own address.
pub record Context : Type 0 where
  pub int_no : ℕ
  pub err_code : ℕ
  pub address : ℕ

abbrev pub pic_master : ℕ
pic_master = 0x20

abbrev pub pic_slave : ℕ
pic_slave = 0xa0

-- `inport8(PIC_MASTER) << 0 | inport8(PIC_SLAVE) << 8`, the left operand first.
read_both : ℕ → Bus → ℕ × Bus
read_both command b =
    let asked = outport8 pic_slave command (outport8 pic_master command b) in
    let (low, b1) = inport8 pic_master asked in
    let (high, b2) = inport8 pic_slave b1 in (u16 (bit_or low (high * 2 ^ 8)), b2)

pub pic_read_irr : Bus → ℕ × Bus
unfolding read_both
pic_read_irr b = read_both 0x0a b

pub pic_read_isr : Bus → ℕ × Bus
unfolding read_both
pic_read_isr b = read_both 0x0b b

pub pic_eoi_master : Bus → Bus
pic_eoi_master b = outport8 pic_master 0x20 b

pub pic_eoi_slave : Bus → Bus
pic_eoi_slave b = outport8 pic_slave 0x20 b

-- ICW1 to ICW4 and the masks, master and slave in turn.
unfoldable pub pic_initialize : Bus → Bus
pic_initialize b =
    let b1 = outport8 pic_slave 0x11 (outport8 pic_master 0x11 b) in
    let b2 = outport8 (pic_slave + 1) (32 + 8) (outport8 (pic_master + 1) (32 + 0) b1) in
    let b3 = outport8 (pic_slave + 1) 0x02 (outport8 (pic_master + 1) 0x04 b2) in
    let b4 = outport8 (pic_slave + 1) 0x01 (outport8 (pic_master + 1) 0x01 b3) in
    outport8 (pic_slave + 1) 0 (outport8 (pic_master + 1) 0 b4)

abbrev pub routine : (ℕ → ℕ) → ℕ → ℕ → ℕ → ℕ
routine table index handler j = if j == index then handler else table j

unfoldable pub irq_install_handler : ℕ → ℕ → Cpu → Cpu
irq_install_handler irq handler c = record c { irq_routines = routine c.irq_routines irq handler }

pub irq_uninstall_handler : ℕ → Cpu → Cpu
irq_uninstall_handler irq c = record c { irq_routines = routine c.irq_routines irq 0 }

unfoldable pub isr_install_handler : ℕ → ℕ → Cpu → Cpu
isr_install_handler isr handler c = record c { isr_routines = routine c.isr_routines isr handler }

pub isr_uninstall_handler : ℕ → Cpu → Cpu
isr_uninstall_handler isr c = record c { isr_routines = routine c.isr_routines isr 0 }

-- `call f x` is a call of the function at `f` with the argument `x`.
module _ (call : ℕ → ℕ → Cpu → Cpu) where
  -- The handler gets the error code in the place of the context; then the processor halts.
  pub isr_handler : Context → Cpu → Cpu
  isr_handler ctx c =
      let handler = c.isr_routines ctx.int_no in
      let after = if handler != 0 then call handler ctx.err_code c else c in
      record after { halted = true }

  -- The call of the routine, if there is one.
  run_routine : Context → Cpu → Cpu
  run_routine ctx c =
      let handler = c.irq_routines (sub32 ctx.int_no 32) in
      if handler != 0 then call handler ctx.address c else c

  finish : ℕ → Cpu → Cpu
  finish irq c =
      let b = if leb 8 irq then pic_eoi_slave c.bus else c.bus in
      record c { bus = pic_eoi_master b }

  pub irq_handler : Context → Cpu → Cpu
  irq_handler ctx c =
      let irq = u8 (sub32 ctx.int_no 32) in
      let (isr, b) = pic_read_isr c.bus in
      let asked = record c { bus = b } in
      if irq == 7
      then (if bit isr 7 then finish irq (run_routine ctx asked) else asked)
      else if irq == 15
      then (if bit isr 15
          then finish irq (run_routine ctx asked)
          else record asked { bus = pic_eoi_master b })
      else finish irq (run_routine ctx c)

  pub interrupt_handler : Context → Cpu → Cpu
  interrupt_handler ctx c =
      if ltb ctx.int_no 32
      then isr_handler ctx c
      else if leb 32 ctx.int_no && ltb ctx.int_no (32 + 16)
      then irq_handler ctx c
      else c

-- ===== src/Interrupts/Tests.antt =====
-- The interrupt theorems at a timer, a spurious interrupt and an exception.
use comet_os.Base.{ℕ, ◌+◌, ◌≡◌, refl, arith, true, false, ◌==◌, ◌&&◌, not, leb, if◌then◌else◌, []}
use comet_os.Base.Bus.{outport8, inport8}
use comet_os.Interrupts.{Cpu, Context, pic_read_isr, irq_handler}
use comet_os.Interrupts.Eoi.{eois, spurious, irq_handler-eois}

-- Each read of a port answers 0, so that no interrupt is in service.
abbrev cpu : Cpu
cpu = record {
  irq_routines = λ j. if j == 10 then 0x1000 else 0;
  isr_routines = λ j. 0;
  bus = record { history = []; answer = λ h p. 0 };
  halted = false;
}

-- A handler that changes nothing, and one that halts.
abbrev idle : ℕ → ℕ → Cpu → Cpu
idle f x c = c

abbrev stop : ℕ → ℕ → Cpu → Cpu
stop f x c = record c { halted = true }

abbrev at : ℕ → Context
at n = record { int_no = n; err_code = 0; address = 0x8000 }

irq_handler-eois_example :
    (eois 0x20 (irq_handler idle (at 42) cpu).bus.history
      ≡ (if (10 == 7) && spurious 10 cpu.bus then 0 else 1) + 0)
    × (eois 0xa0 (irq_handler idle (at 42) cpu).bus.history
        ≡ (if leb 8 10 && not (spurious 10 cpu.bus) then 1 else 0) + 0)
irq_handler-eois_example =
    irq_handler-eois idle (λ port f x c. refl) (at 42) cpu (omega arith) (omega arith)

no_irq_7 : spurious 7 cpu.bus ≡ true
unfolding pic_read_isr outport8 inport8
no_irq_7 = refl

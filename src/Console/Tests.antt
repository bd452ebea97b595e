-- ===== src/Console/Tests.antt =====
-- The fault reports at inputs.
use comet_os.Base.{◌≡◌, refl, inr, arith, some, false, ◌==◌, if◌then◌else◌, []}
use comet_os.Interrupts.{Cpu, Context}
use comet_os.Terminal.{Terminal, make_color}
use comet_os.Terminal.Output.{Keeps}
use comet_os.Console.{show, isr_shown, color_light_grey, color_black}
use comet_os.Console.Faults.{isr_shown-Keeps}

abbrev terminal : Terminal
terminal = record {
  row = 24;
  column = 80;
  color = 2;
  buffer = λ j. 0;
  bus = record { history = []; answer = λ h p. 0 };
}

-- `page_fault` stands at 0x3000.
abbrev cpu : Cpu
cpu = record {
  irq_routines = λ i. 0;
  isr_routines = λ i. if i == 14 then 0x3000 else 0;
  bus = record { history = []; answer = λ h p. 0 };
  halted = false;
}

abbrev fault : Context
fault = record { int_no = 14; err_code = 7; address = 0x8000 }

isr_shown-Keeps_example :
    (u : Terminal) × (show (isr_shown 0x3000 (λ h e. []) 0xdeadb000 fault cpu) terminal ≡ some u)
    × Keeps terminal u
    × (u.color ≡ make_color color_light_grey color_black)
isr_shown-Keeps_example =
    isr_shown-Keeps 0x3000 0xdeadb000 (λ h e. []) fault cpu terminal
      (record { row = omega arith; column = omega arith }) (inr refl)

-- ===== src/Clock/Tests.antt =====
-- The clock's theorems at a date, and at a device that answers 0x12 to every read.
use comet_os.Base.{false, ◌≡◌, refl, Option, none, some, [], arith}
use comet_os.Base.Bus.{outport8, inport8, Bus}
use comet_os.Clock.{
  read_registers, wait_update, Time, read_rtc, convert, sample, differ, update_in_progress,
  get_rtc_register,
}
use comet_os.Clock.Date.{registers, convert-registers}
use comet_os.Clock.Settle.{read_rtc-sample}

-- Noon of 14 November 2024.
abbrev noon : Time
noon = record {
  second = 59;
  minute = 30;
  hour = 12;
  day = 14;
  month = 11;
  year = 2024;
  century = 0;
}

convert-registers_example : convert 0 0 (registers false noon) ≡ record noon { hour = 0 }
convert-registers_example =
    convert-registers 0 noon
      (omega arith, omega arith, omega arith, omega arith, omega arith, omega arith, omega arith)
      refl

abbrev bus : Bus
bus = record { history = []; answer = λ h p. 0x12 }

abbrev all_twelve : Time
all_twelve = record {
  second = 0x12;
  minute = 0x12;
  hour = 0x12;
  day = 0x12;
  month = 0x12;
  year = 0x12;
  century = 0;
}

after : Option (Time × Bus) → Bus
after none = bus
after (some (t, b)) = b

abbrev after_one : Bus
after_one = after (sample 1 0 0 bus)

abbrev after_two : Bus
after_two = after (sample 1 0 0 after_one)

read_rtc-sample_example : read_rtc 1 0 0 0 bus ≡ some (convert 0 0 all_twelve, after_two)
unfolding sample wait_update read_registers after differ update_in_progress get_rtc_register inport8
    outport8
read_rtc-sample_example =
    read_rtc-sample 0 0 0 0 all_twelve all_twelve bus after_one after_two refl refl

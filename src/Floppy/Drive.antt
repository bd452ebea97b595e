-- ===== src/Floppy/Drive.antt =====
-- Calibration and seeking on a controller that answers, `floppy_calibrate`, `floppy_seek` and
-- `floppy_read` of kernel/arch/i386/fdc.c.
use comet_os.Base.{ℕ, ◌-◌, ◌^◌, ◌≡◌, true, Option, none, some, List, ◌∷◌, ◌⊎◌}
use mathlib.Core.Option
use comet_os.Base.Bus.{Access, wrote}
use comet_os.Floppy.{Floppy}

-- The interrupt comes whenever it is waited for.
abbrev pub Answers : Floppy → Type 0
Answers s = (h : List Access) → s.fires h ≡ true

-- The last access switched every motor off.
abbrev pub MotorOff : List Access → Type 0
MotorOff h = (before : List Access) × (h ≡ wrote 0x3f2 4 ∷ before)

-- Every sleep returns.
abbrev pub Sleeps : Floppy → Type 0
Sleeps s = (h : List Access) → s.sleeps h ≡ true

-- A result 0 or -1, with the motors off.
abbrev pub Calibrated : Option (ℕ × Floppy) → Type 0
Calibrated none = ⊥
Calibrated (some (result, t)) = ((result ≡ 0) ⊎ (result ≡ 2 ^ 32 - 1)) × MotorOff t.bus.history

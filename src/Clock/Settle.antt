-- ===== src/Clock/Settle.antt =====
-- The samples of `read_rtc`, kernel/arch/i386/time.c.
use comet_os.Base.{ℕ, zero, suc, ◌≡◌, refl, ap, Bool, true, false, none, some, if◌then◌else◌}
use comet_os.Base.Bus.{Bus}
use comet_os.Clock.{
  Time, converted, differ, read_b, settle, sample, read_rtc, convert, get_rtc_register,
}

-- The loop that reads register B does not end once it is entered.
read_b-true : (f register_b : ℕ) (b : Bus) → read_b f true register_b b ≡ none
unfolding read_b
read_b-true zero register_b b = refl
read_b-true (suc f) register_b b =
    read_b-true f (get_rtc_register 0x0b b).0 (get_rtc_register 0x0b b).1

-- It keeps the register where it is not.
read_b-false :
    (f register_b : ℕ) (b : Bus) → read_b (suc f) false register_b b ≡ some (register_b, b)
unfolding read_b
read_b-false f register_b b = refl

-- The end of `read_rtc` with and without a difference.
converted-read_b :
    (f century_register register_b : ℕ) (t : Time) (b : Bus) (d : Bool)
    → converted century_register t (read_b (suc f) d register_b b)
      ≡ (if d then none else some (convert register_b century_register t, b))
unfolding converted
converted-read_b f century_register register_b t b true =
    ap (converted century_register t) (read_b-true (suc f) register_b b)
converted-read_b f century_register register_b t b false =
    ap (converted century_register t) (read_b-false f register_b b)

-- Where both samples end, in any number of rounds, `read_rtc` never ends if they differ; if they
-- agree, it converts the second one by what its variable `registerB` held at the start, since
-- register B is not read.
pub read_rtc-sample :
    (f century_register century register_b : ℕ) (last t : Time) (b b1 b2 : Bus)
    → sample (suc f) century_register century b ≡ some (last, b1)
    → sample (suc f) century_register last.century b1 ≡ some (t, b2)
    → read_rtc (suc f) century_register century register_b b
      ≡ (if differ last t then none else some (convert register_b century_register t, b2))
unfolding read_rtc settle
read_rtc-sample f century_register century register_b last t b b1 b2 first second =
    rw (read_rtc, first, second)
      (converted-read_b f century_register register_b t b2 (differ last t))

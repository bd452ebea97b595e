-- ===== src/Clock/Date.antt =====
-- The conversions of kernel/arch/i386/time.c.
use comet_os.Base.{
  u8, u32, ℕ, ◌+◌, ◌*◌, ◌/◌, ◌%◌, ◌^◌, ◌≤◌, ◌<◌, ◌≡◌, ap, ◌∙◌, arith, Bool, true, false, bit,
  bit_or, ltb, ◌==◌, if◌then◌else◌,
}
use comet_os.Base.Bits.{bit_or-above}
use comet_os.Clock.{binary, with_day, day_hour, from_bcd, Time, convert, from_bcd_time, full_year}

abbrev pub to_bcd : ℕ → ℕ
to_bcd n = n / 10 * 16 + n % 10

-- What the registers hold at a date and time of day: in BCD, with the last two digits of the year;
-- a clock of 12 hours shows 12 for the hours 0 and 12, and sets bit 7 from noon on.
abbrev pub hour_register : Bool → ℕ → ℕ
hour_register true hour = to_bcd hour
hour_register false hour =
    to_bcd (if hour % 12 == 0 then 12 else hour % 12) + (if ltb hour 12 then 0 else 2 ^ 7)

abbrev pub registers : Bool → Time → Time
registers day_clock t = record {
  second = to_bcd t.second;
  minute = to_bcd t.minute;
  hour = hour_register day_clock t.hour;
  day = to_bcd t.day;
  month = to_bcd t.month;
  year = to_bcd (t.year % 100);
  century = t.century;
}

-- The hour that `read_rtc` makes of a time of day: that of a 12-hour clock is off by 12 hours at
-- noon, and at midnight.
abbrev pub hour_read : Bool → ℕ → ℕ
hour_read true hour = hour
hour_read false hour = if hour == 12 then 0 else if hour == 0 then 12 else hour

abbrev pub IsDate : Time → Type 0
IsDate t =
    (t.second < 60)
    × (t.minute < 60)
    × (t.hour < 24)
    × (t.day < 32)
    × (t.month < 13)
    × (2014 ≤ t.year)
    × (t.year < 2114)

-- A BCD number back in binary.
from_bcd-to_bcd : (n : ℕ) → n < 100 → u8 (from_bcd (to_bcd n)) ≡ n
from_bcd-to_bcd n h = omega arith

from_bcd-year : (n : ℕ) → n < 100 → u32 (from_bcd (to_bcd n)) ≡ n
from_bcd-year n h = omega arith

-- The hour in binary, with bit 7 kept.
abbrev hour_binary : ℕ → ℕ
hour_binary r = u8 (bit_or (r % 16 + r / 16 % 8 * 10) (r / 2 ^ 7 % 2 * 2 ^ 7))

hour_binary-sum : (r : ℕ) → hour_binary r ≡ r % 16 + r / 16 % 8 * 10 + r / 2 ^ 7 % 2 * 2 ^ 7
hour_binary-sum r =
    let joined = bit_or-above 7 (r % 16 + r / 16 % 8 * 10) (r / 2 ^ 7 % 2) (omega arith) in
    ap (λ x. u8 x) joined ∙ omega arith

-- The hour of the registers, converted.
day_hour-register :
    (day_clock : Bool) (h : ℕ)
    → h < 24
    → day_hour day_clock (hour_binary (hour_register day_clock h)) ≡ hour_read day_clock h
unfolding day_hour
day_hour-register true h small = hour_binary-sum (to_bcd h) ∙ omega arith
day_hour-register false h small =
    let sum = hour_binary-sum (hour_register false h) in ap (day_hour false) sum ∙ ground arith

full_year-register : (y c : ℕ) → 2014 ≤ y → y < 2114 → full_year 0 c (y % 100) ≡ y
unfolding full_year
full_year-register y c lo hi = ground arith

with_day-registers :
    (day_clock : Bool) (t : Time)
    → IsDate t
    → with_day day_clock 0 (binary false 0 (registers day_clock t))
      ≡ record t { hour = hour_read day_clock t.hour }
unfolding with_day binary from_bcd_time
with_day-registers day_clock t (s, mi, h, d, mo, lo, hi) =
    let second = from_bcd-to_bcd t.second (omega arith) in
    let minute = from_bcd-to_bcd t.minute (omega arith) in
    let hour = day_hour-register day_clock t.hour h in
    let day = from_bcd-to_bcd t.day (omega arith) in
    let month = from_bcd-to_bcd t.month (omega arith) in
    let short = from_bcd-year (t.year % 100) (omega arith) in
    let year = ap (full_year 0 t.century) short ∙ full_year-register t.year t.century lo hi in cc

-- Take the BCD registers at a date from 2014 to 2113, no century register, and a value of register B
-- that tells their mode. What `read_rtc` does behind its reading, with this value as its `registerB`,
-- makes that date and time of day again, on a 24-hour clock; on a 12-hour clock it makes 0 of the hour
-- 12 and 12 of the hour 0, and the others right.
pub convert-registers :
    (register_b : ℕ) (t : Time)
    → IsDate t
    → bit register_b 2 ≡ false
    → convert register_b 0 (registers (bit register_b 1) t)
      ≡ record t { hour = hour_read (bit register_b 1) t.hour }
unfolding convert
convert-registers register_b t date bcd =
    ap (λ z. with_day (bit register_b 1) 0 (binary z 0 (registers (bit register_b 1) t))) bcd
    ∙ with_day-registers (bit register_b 1) t date

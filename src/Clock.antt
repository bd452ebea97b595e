-- ===== src/Clock.antt =====
-- The real-time clock, kernel/arch/i386/time.c. `second` to `month` are bytes, `year` an
-- `unsigned int`.
pub mod Settle
pub mod Date
mod Tests
use comet_os.Base.{
  ◌!=◌, ℕ, zero, suc, ◌+◌, ◌-◌, ◌*◌, ◌/◌, ◌%◌, ◌^◌, bit_or, Bool, true, false, Option, none, some,
  ltb, ◌==◌, ◌&&◌, ◌||◌, not, u8, u32, bit, if◌then◌else◌,
}
use comet_os.Base.Bus.{Bus, outport8, inport8}

pub record Time : Type 0 where
  pub second : ℕ
  pub minute : ℕ
  pub hour : ℕ
  pub day : ℕ
  pub month : ℕ
  pub year : ℕ
  pub century : ℕ

abbrev pub current_year : ℕ
current_year = 2014

-- `get_update_in_progress_flag`, as whether it is not 0.
unfoldable pub update_in_progress : Bus → Bool × Bus
update_in_progress b = let (v, t) = inport8 0x71 (outport8 0x70 0x0a b) in (bit v 7, t)

unfoldable pub get_rtc_register : ℕ → Bus → ℕ × Bus
get_rtc_register reg b = inport8 0x71 (outport8 0x70 reg b)

-- `while (get_update_in_progress_flag());`; `none` is the want of fuel.
unfoldable pub wait_update : ℕ → Bus → Option Bus
unfolding update_in_progress
wait_update zero b = none
wait_update (suc f) b = elim (update_in_progress b).0 [
  | true ↦ wait_update f (update_in_progress b).1
  | false ↦ some (update_in_progress b).1
]

-- The seven reads; with no century register `century` keeps its value, which nothing has set.
unfoldable pub read_registers : ℕ → ℕ → Bus → Time × Bus
unfolding get_rtc_register
read_registers century_register century b =
    let (second, b1) = get_rtc_register 0x00 b in
    let (minute, b2) = get_rtc_register 0x02 b1 in
    let (hour, b3) = get_rtc_register 0x04 b2 in
    let (day, b4) = get_rtc_register 0x07 b3 in
    let (month, b5) = get_rtc_register 0x08 b4 in
    let (year, b6) = get_rtc_register 0x09 b5 in
    let (read, b7) =
      if century_register != 0 then get_rtc_register century_register b6 else (century, b6) in
    (
      record {
        second = second;
        minute = minute;
        hour = hour;
        day = day;
        month = month;
        year = year;
        century = read;
      },
      b7,
    )

-- Whether two samples differ.
unfoldable pub differ : Time → Time → Bool
differ last t =
    (last.second != t.second)
    || ((last.minute != t.minute)
        || ((last.hour != t.hour)
            || ((last.day != t.day)
                || ((last.month != t.month)
                    || ((last.year != t.year) || (last.century != t.century))))))

-- The loop that reads register B: its test is on what it leaves alone.
unfoldable pub read_b : ℕ → Bool → ℕ → Bus → Option (ℕ × Bus)
unfolding get_rtc_register
read_b zero differs register_b b = none
read_b (suc f) differs register_b b = elim differs [
  | true ↦ read_b f true (get_rtc_register 0x0b b).0 (get_rtc_register 0x0b b).1
  | false ↦ some (register_b, b)
]

abbrev pub from_bcd : ℕ → ℕ
from_bcd v = v % 16 + v / 16 * 10

from_bcd_time : Time → Time
from_bcd_time t = record t {
  second = u8 (from_bcd t.second);
  minute = u8 (from_bcd t.minute);
  hour = u8 (bit_or (t.hour % 16 + t.hour / 16 % 8 * 10) (t.hour / 2 ^ 7 % 2 * 2 ^ 7));
  day = u8 (from_bcd t.day);
  month = u8 (from_bcd t.month);
  year = u32 (from_bcd t.year);
}

-- The four-digit year, from the year and the century as they are then.
full_year : ℕ → ℕ → ℕ → ℕ
full_year century_register century year =
    if century_register != 0
    then u32 (year + century * 100)
    else if ltb (u32 (year + current_year / 100 * 100)) current_year
    then u32 (u32 (year + current_year / 100 * 100) + 100)
    else u32 (year + current_year / 100 * 100)

-- The conversion from BCD, and of the century where it has a register.
unfoldable pub binary : Bool → ℕ → Time → Time
unfolding from_bcd_time
binary true century_register t = t
binary false century_register t =
    let d = from_bcd_time t in
    if century_register != 0 then record d { century = u8 (from_bcd t.century) } else d

-- The hour of a clock of 24 hours, or the conversion of that of 12.
unfoldable pub day_hour : Bool → ℕ → ℕ
day_hour true hour = hour
day_hour false hour = if bit hour 7 then (hour % 2 ^ 7 + 12) % 24 else hour

unfoldable pub with_day : Bool → ℕ → Time → Time
unfolding full_year
with_day day_clock century_register t = record t {
  hour = day_hour day_clock t.hour;
  year = full_year century_register t.century t.year;
}

-- The three conversions behind the loops. Bit 2 of register B tells binary values, and bit 1 a clock
-- of 24 hours.
unfoldable pub convert : ℕ → ℕ → Time → Time
convert register_b century_register t =
    with_day (bit register_b 1) century_register (binary (bit register_b 2) century_register t)

-- A wait for the end of an update, and the reads.
unfoldable pub sample : ℕ → ℕ → ℕ → Bus → Option (Time × Bus)
unfolding wait_update read_registers
sample fuel century_register century b = elim (wait_update fuel b) [
  | none ↦ none
  | some t ↦ some (read_registers century_register century t)
]

-- The end of `read_rtc`, by what the loop on register B leaves.
unfoldable pub converted : ℕ → Time → Option (ℕ × Bus) → Option (Time × Bus)
converted century_register t none = none
converted century_register t (some (found, b)) = some (convert found century_register t, b)

-- What stands behind the second sample.
unfoldable pub settle : ℕ → ℕ → ℕ → Time → Time × Bus → Option (Time × Bus)
settle fuel century_register register_b last (t, b) =
    converted century_register t (read_b fuel (differ last t) register_b b)

-- `century` and `register_b` are what the variables hold before anything is written to them.
unfoldable pub read_rtc : ℕ → ℕ → ℕ → ℕ → Bus → Option (Time × Bus)
unfolding sample settle
read_rtc fuel century_register century register_b b =
    elim (sample fuel century_register century b) [
      | none ↦ none
      | some (last, b1) ↦ elim (sample fuel century_register last.century b1) [
        | none ↦ none
        | some read ↦ settle fuel century_register register_b last read
      ]
    ]

-- The value of `time_get` once the clock is read; for another type it returns nothing.
unfoldable pub field_of : ℕ → Time → Option ℕ
field_of type t =
    if type == 0
    then some t.second
    else if type == 1
    then some t.minute
    else if type == 2
    then some t.hour
    else if type == 3
    then some t.day
    else if type == 4
    then some t.month
    else if type == 5
    then some t.year
    else none

-- `time_get`: the clock is read, and then the field returned.
time_get : ℕ → ℕ → ℕ → ℕ → ℕ → Bus → Option (Option ℕ × Bus)
unfolding read_rtc field_of
time_get fuel type century_register century register_b b =
    elim (read_rtc fuel century_register century register_b b) [
      | none ↦ none
      | some (t, b1) ↦ some (field_of type t, b1)
    ]

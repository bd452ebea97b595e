-- ===== src/Timer.antt =====
-- The programmable interval timer, kernel/arch/i386/pit.c.
pub mod Sleep
pub mod Phase
mod Tests
use comet_os.Base.{
  u32, ◌||◌, ℕ, ◌+◌, ◌/◌, ◌%◌, ◌^◌, List, [], ◌∷◌, Option, none, some, Bool, true, false, ltb, ◌==◌,
  if◌then◌else◌,
}
use comet_os.Base.Bus.{Bus, outport8}
use comet_os.Interrupts.{Cpu, irq_install_handler}

-- `none` is a division by 0. The divisor and the frequency are not negative.
unfoldable pub pit_phase : ℕ → Bus → Option Bus
pit_phase hz b =
    let divisor = 1193180 / hz in
    if hz == 0
    then none
    else some (
        outport8 0x40 (divisor / 2 ^ 8 % 2 ^ 8)
          (outport8 0x40 (divisor % 2 ^ 8) (outport8 0x43 0x36 b)))

-- `++timer_ticks`, as the 32 bits of the `long`.
unfoldable pub pit_handler : ℕ → ℕ
pit_handler timer_ticks = u32 (timer_ticks + 1)

-- `a < b` of two words as `long`.
unfoldable pub less : ℕ → ℕ → Bool
less a b = ltb (u32 (a + 2 ^ 31)) (u32 (b + 2 ^ 31))

-- An interrupt that wakes the processor from `hlt`: that of the timer, or another one; or one of the
-- timer that comes between the loop's test and `hlt`, which does not wake it.
pub data Wake : Type 0 where
  timer : Wake
  other : Wake
  early : Wake

ticks_after : Wake → ℕ → ℕ
unfolding pit_handler
ticks_after timer timer_ticks = pit_handler timer_ticks
ticks_after other timer_ticks = timer_ticks
ticks_after early timer_ticks = pit_handler timer_ticks

is_early : Wake → Bool
is_early timer = false
is_early other = false
is_early early = true

-- The loop of `sleep`, through the interrupts that come: the ticks at its end and the interrupts
-- that are left, or `none` where these end before it does. `tested` says whether the test has been
-- made since the last `hlt`.
sleep_until : List Wake → Bool → ℕ → ℕ → Option (ℕ × List Wake)
unfolding ticks_after is_early less
sleep_until [] tested eticks timer_ticks =
    if tested || less timer_ticks eticks then none else some (timer_ticks, [])
sleep_until (w ∷ wakes) tested eticks timer_ticks =
    let rest = sleep_until wakes (is_early w) eticks (ticks_after w timer_ticks) in
    if tested || less timer_ticks eticks then rest else some (timer_ticks, w ∷ wakes)

-- The sum is that of `long`.
unfoldable pub sleep : List Wake → ℕ → ℕ → Option (ℕ × List Wake)
unfolding sleep_until
sleep wakes ticks timer_ticks = sleep_until wakes false (u32 (timer_ticks + ticks)) timer_ticks

-- `handler` is the address of `pit_handler`.
unfoldable pub pit_install : ℕ → Cpu → Option Cpu
unfolding pit_phase irq_install_handler
pit_install handler c =
    let installed = irq_install_handler 0 handler c in
    elim (pit_phase 100 installed.bus) [
      | none ↦ none
      | some b ↦ some (record installed { bus = b })
    ]

-- ===== src/Timer/Phase.antt =====
-- The divisor of the timer, `pit_phase` of kernel/arch/i386/pit.c.
use comet_os.Base.{
  ◌↔◌, ℕ, ◌+◌, ◌*◌, ◌/◌, ◌%◌, ◌^◌, ◌≤◌, ◌<◌, ◌≡◌, refl, arith, ◌∷◌, some, ◌==◌, false,
}
use native.Mathlib.Nat.{div-lt_iff_lt-mul}
use comet_os.Base.Bus.{Bus, wrote, outport8}
use comet_os.Timer.{pit_phase}

-- For a frequency of 1 Hz or more `pit_phase` writes the command 0x36 and then, low byte first, the
-- lower 16 bits of 1193180 divided by the frequency, which are the whole quotient just when the
-- frequency is 19 Hz or more.
pit_phase-divisor :
    (hz : ℕ) (b : Bus)
    → 0 < hz
    → (t : Bus) × (low : ℕ) × (high : ℕ) × (pit_phase hz b ≡ some t)
      × (t.history ≡ wrote 0x40 high ∷ wrote 0x40 low ∷ wrote 0x43 0x36 ∷ b.history)
      × (low + 2 ^ 8 * high ≡ 1193180 / hz % 2 ^ 16)
      × ((low + 2 ^ 8 * high ≡ 1193180 / hz) ↔ (19 ≤ hz))
unfolding pit_phase outport8
pit_phase-divisor hz b h =
    let d = 1193180 / hz in
    let fits = div-lt_iff_lt-mul {k = hz} {x = 1193180} {y = 2 ^ 16} h in
    let used : (hz == 0) ≡ false = ground arith in
    (
      outport8 0x40 (d / 2 ^ 8 % 2 ^ 8) (outport8 0x40 (d % 2 ^ 8) (outport8 0x43 0x36 b)),
      d % 2 ^ 8 % 2 ^ 8,
      d / 2 ^ 8 % 2 ^ 8 % 2 ^ 8,
      rw (pit_phase, used) refl,
      refl,
      omega arith,
      (λ e. omega (arith, fits.0 (omega arith)), λ l. omega (arith, fits.1 (omega arith))),
    )

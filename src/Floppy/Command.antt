-- ===== src/Floppy/Command.antt =====
-- The polling loops of kernel/arch/i386/fdc.c, `floppy_send_command` and `floppy_read_data`, and
-- `floppy_drive_data`.
use comet_os.Base.{
  ℕ, zero, suc, ◌*◌, ◌%◌, ◌^◌, ◌<◌, ◌≡◌, refl, arith, Bool, true, false, bit, bit_or, ◌==◌,
}
use comet_os.Base.Bits.{bit_or-digit, bit_or-zero}
use comet_os.Base.Bus.{Bus, outport8}
use comet_os.Floppy.{read_status, send_from, send_command, drive_data}

-- The bus behind `n` reads of the status register, and whether the next one shows the data
-- register to be ready.
pub polled : ℕ → Bus → Bus
unfolding read_status
polled zero b = b
polled (suc n) b = polled n (read_status b).1

abbrev pub ready : Bus → Bool
ready b = bit (read_status b).0 7

send_from-polled :
    (n k : ℕ) (cmd : ℕ) (b : Bus)
    → k < n
    → ((j : ℕ) → j < k → ready (polled j b) ≡ false)
    → ready (polled k b) ≡ true
    → send_from n cmd b ≡ outport8 0x3f5 cmd (polled (suc k) b)
unfolding send_from polled read_status
send_from-polled zero k cmd b h busy done = ground arith
send_from-polled (suc n) zero cmd b h busy done = rw (send_from, done) refl
send_from-polled (suc n) (suc k) cmd b h busy done =
    rw (send_from, busy 0 (omega arith))
      (send_from-polled n k cmd (read_status b).1 (omega arith) (λ j l. busy (suc j) (omega arith))
        done)

send_from_busy :
    (n : ℕ) (cmd : ℕ) (b : Bus)
    → ((j : ℕ) → j < n → ready (polled j b) ≡ false)
    → send_from n cmd b ≡ polled n b
unfolding send_from polled read_status
send_from_busy zero cmd b busy = refl
send_from_busy (suc n) cmd b busy =
    rw (send_from, busy 0 (omega arith))
      (send_from_busy n cmd (read_status b).1 (λ j l. busy (suc j) (omega arith)))

-- `floppy_send_command` reads the status register until its bit 7 is set, then writes the byte,
-- once; if the bit is not set in any of 500 reads, it writes nothing and so loses the command.
send_command-polled :
    (cmd : ℕ) (b : Bus)
    → ((k : ℕ)
        → k < 500
        → ((j : ℕ) → j < k → ready (polled j b) ≡ false)
        → ready (polled k b) ≡ true
        → send_command cmd b ≡ outport8 0x3f5 (cmd % 2 ^ 8) (polled (suc k) b))
      × (((j : ℕ) → j < 500 → ready (polled j b) ≡ false) → send_command cmd b ≡ polled 500 b)
unfolding send_command
send_command-polled cmd b = (
  λ k h busy done. send_from-polled 500 k (cmd % 2 ^ 8) b h busy done,
  λ busy. send_from_busy 500 (cmd % 2 ^ 8) b busy,
)

-- The third byte of `floppy_drive_data` is 0 whatever `dma` and a load time from 1 to 2^31 - 1 are:
-- the conditional operator takes all that stands before it for its test.
drive_data_zero :
    (stepr loadt unloadt dma : ℕ) (b : Bus)
    → 0 < loadt
    → loadt < 2 ^ 31
    → drive_data stepr loadt unloadt dma b
      ≡ send_command 0 (send_command (bit_or (stepr % 16 * 16) (unloadt % 16)) (send_command 3 b))
unfolding drive_data
drive_data_zero stepr loadt unloadt dma b h l =
    let set : (y : ℕ) → y < 2 → (bit_or (loadt * 2 % 2 ^ 32) y == 0) ≡ false =
      λ y hy. ground (arith, bit_or-digit (loadt * 2) y, bit_or-zero loadt) in
    ground (arith, set 0 (omega arith), set 1 (omega arith))

-- ===== src/Floppy/Transfer.antt =====
-- The DMA set-up and the command loop of kernel/arch/i386/fdc.c.
use comet_os.Base.{◌≢◌, ℕ, ◌+◌, ◌-◌, ◌/◌, ◌%◌, ◌^◌, ◌≤◌, ◌<◌, ◌≡◌, arith, ◌∙◌, sym, List, ◌∷◌}
use mathlib.Core.Path.{ap₂}
use comet_os.Base.Bus.{Bus, Access, wrote, outport8}
use comet_os.Dma
use comet_os.Floppy.{program_dma, dma_initialize}

-- Whether `length` bytes from `buffer` on lie below 16 MB and in one block of 64 KB.
abbrev pub InBlock : ℕ → ℕ → Type 0
InBlock buffer length =
    (buffer + length ≤ 2 ^ 24) × (buffer / 2 ^ 16 ≡ (buffer + length - 1) / 2 ^ 16)

-- For a 32-bit buffer and a positive length `floppy_dma_initialize` answers 1 just when the buffer
-- lies below 16 MB and in one block of 64 KB; otherwise it answers 0 and touches no port.
pub dma_initialize-InBlock :
    (buffer length : ℕ) (b : Bus)
    → buffer < 2 ^ 32
    → 0 < length
    → length < 2 ^ 32
    → (((dma_initialize buffer length b).0 ≡ 1 → InBlock buffer length)
        × (InBlock buffer length → (dma_initialize buffer length b).0 ≡ 1))
      × ((dma_initialize buffer length b).0 ≢ 1 → dma_initialize buffer length b ≡ (0, b))
unfolding dma_initialize
dma_initialize-InBlock buffer length b hb hl hw =
    ((λ e. ground arith, λ h. ground arith), λ n. ground arith)

-- The writes of an accepted set-up, the latest first: twice all masks of the second controller,
-- the mode 0x46 (single transfers to memory on channel 2) behind the mask of channel 2, the count,
-- the address, and again the mask behind the reset.
abbrev pub programmed : ℕ → ℕ → List Access → List Access
programmed buffer length before =
    wrote 0xdc 0xff
    ∷ wrote 0xdc 0xff
    ∷ wrote 0x0b 0x46
    ∷ wrote 0x0a 2
    ∷ wrote 5 ((length - 1) / 256)
    ∷ wrote 5 ((length - 1) % 256)
    ∷ wrote 4 (buffer % 2 ^ 16 / 256)
    ∷ wrote 4 (buffer % 256)
    ∷ wrote 0x0a 2
    ∷ wrote 0x0d 0xff
    ∷ before

program_writes :
    (buffer length : ℕ) (b : Bus)
    → buffer < 2 ^ 32
    → 0 < length
    → length < 2 ^ 32
    → InBlock buffer length
    → (dma_initialize buffer length b).1.history ≡ programmed buffer length b.history
unfolding dma_initialize program_dma Dma.reset Dma.mask_channel Dma.reset_flipflop Dma.set_address
    Dma.set_count Dma.set_read Dma.set_mode Dma.unmask_all outport8
program_writes buffer length b hb hl hw h = ground arith

-- For a 32-bit buffer below 16 MB and inside a block of 64 KB, `floppy_dma_initialize` writes the
-- length less one to port 5 and the lower half of the address to port 4, low byte first, and what
-- `programmed` lists around these; a buffer that stands at the same place in another such block is
-- programmed alike, since the page register, which holds the block, is not written.
dma_initialize_writes :
    (buffer other length : ℕ) (b : Bus)
    → buffer < 2 ^ 32
    → 0 < length
    → length < 2 ^ 32
    → InBlock buffer length
    → ((dma_initialize buffer length b).1.history ≡ programmed buffer length b.history)
      × (other < 2 ^ 32
          → InBlock other length
          → other % 2 ^ 16 ≡ buffer % 2 ^ 16
          → (dma_initialize other length b).1.history ≡ (dma_initialize buffer length b).1.history)
dma_initialize_writes buffer other length b hb hl hw h = (
  program_writes buffer length b hb hl hw h,
  λ ho g e.
      program_writes other length b ho hl hw g
      ∙ ap₂
          (λ x y.
            wrote 0xdc 0xff
            ∷ wrote 0xdc 0xff
            ∷ wrote 0x0b 0x46
            ∷ wrote 0x0a 2
            ∷ wrote 5 ((length - 1) / 256)
            ∷ wrote 5 ((length - 1) % 256)
            ∷ wrote 4 (x / 256)
            ∷ wrote 4 y
            ∷ wrote 0x0a 2
            ∷ wrote 0x0d 0xff
            ∷ b.history)
          e (omega arith)
      ∙ sym (program_writes buffer length b hb hl hw h),
)

-- ===== src/Dma/Registers.antt =====
-- Which registers kernel/arch/i386/dma.c reaches.
use comet_os.Base.{ℕ, ◌+◌, ◌-◌, ◌*◌, ◌%◌, ◌<◌, ◌≡◌, arith, List, ◌∷◌, ltb, if◌then◌else◌}
use comet_os.Base.Bus.{Bus, Access, wrote, outport8}
use comet_os.Dma.{set_address, set_count}

-- The address register of a channel below 8 by its number.
abbrev pub address_register : ℕ → ℕ
address_register channel = if ltb channel 4 then 2 * channel else 0xc0 + 4 * (channel - 4)

-- Two bytes written to one port, the low one first; the latest access stands in front.
abbrev pub pair_written : ℕ → ℕ → ℕ → List Access → List Access
pair_written port low high before = wrote port (high % 256) ∷ wrote port (low % 256) ∷ before

-- For a channel below 8 `dma_set_address` and `dma_set_count` write the low and then the high byte
-- to the channel's register, which for the count stands one place (controller 0) or two places
-- (controller 1) behind that of the address; for channel 8 they write to port 0, and so change the
-- address register of channel 0; from channel 9 on they write nothing.
set_address_registers :
    (channel low high : ℕ) (b : Bus)
    → (channel < 8
        → ((set_address channel low high b).history
            ≡ pair_written (address_register channel) low high b.history)
          × ((set_count channel low high b).history
              ≡ pair_written
                  (address_register channel + (if ltb channel 4 then 1 else 2))
                  low
                  high
                  b.history))
      × (channel ≡ 8
          → (set_address channel low high b ≡ set_address 0 low high b)
            × (set_count channel low high b ≡ set_address 0 low high b))
      × (8 < channel → (set_address channel low high b ≡ b) × (set_count channel low high b ≡ b))
unfolding set_address set_count outport8
set_address_registers channel low high b = (
  λ h. (ground arith, ground arith),
  λ e. (ground arith, ground arith),
  λ h. (ground arith, ground arith),
)

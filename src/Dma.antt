-- ===== src/Dma.antt =====
-- The two DMA controllers, kernel/arch/i386/dma.c and dma.h. Channels, masks and modes are
-- `uint8_t`; a port write cuts its value to a byte.
pub mod Ports
pub mod Registers
use comet_os.Base.{
  ℕ, ◌+◌, ◌-◌, ◌*◌, ◌^◌, bit_or, Bool, true, false, Option, none, some, leb, ltb, ◌==◌, u8,
  if◌then◌else◌,
}
use comet_os.Dma.Ports.{
  dma0_chan0_addr_reg, dma0_chan0_count_reg, dma0_chan1_addr_reg, dma0_chan1_count_reg,
  dma0_chan2_addr_reg, dma0_chan2_count_reg, dma0_chan3_addr_reg, dma0_chan3_count_reg,
  dma1_chan4_addr_reg, dma1_chan4_count_reg, dma1_chan5_addr_reg, dma1_chan5_count_reg,
  dma1_chan6_addr_reg, dma1_chan6_count_reg, dma1_chan7_addr_reg, dma1_chan7_count_reg,
  dma0_chanmask_reg, dma0_mode_reg, dma0_clearbyte_flipflop_reg, dma0_temp_reg, dma1_chanmask_reg,
  dma1_mode_reg, dma1_clearbyte_flipflop_reg, dma1_unmask_all_reg, dma_page_chan1_addrbyte2,
  dma_page_chan2_addrbyte2, dma_page_chan3_addrbyte2, dma_page_chan5_addrbyte2,
  dma_page_chan6_addrbyte2, dma_page_chan7_addrbyte2, dma_mode_read_transfer,
  dma_mode_write_transfer, dma_mode_transfer_single,
}
use comet_os.Base.Bus.{Bus, outport8}

-- `1 << k` at a shift by one byte less `d`. A negative count is undefined in C, where the processor
-- takes it modulo 32: the byte written is then 0.
abbrev pub mask_bit : ℕ → ℕ → ℕ
mask_bit channel d = if leb d channel then u8 (2 ^ (channel - d)) else 0

unfoldable pub mask_channel : ℕ → Bus → Bus
mask_channel channel b =
    if leb channel 4
    then outport8 dma0_chanmask_reg (mask_bit channel 1) b
    else outport8 dma1_chanmask_reg (mask_bit channel 5) b

unfoldable pub unmask_channel : ℕ → Bus → Bus
unmask_channel channel b =
    if leb channel 4
    then outport8 dma0_chanmask_reg channel b
    else outport8 dma1_chanmask_reg channel b

-- The parameter is not used.
unfoldable pub unmask_all : ℕ → Bus → Bus
unmask_all dma b = outport8 dma1_unmask_all_reg 0xff b

unfoldable pub reset : ℕ → Bus → Bus
reset dma b = outport8 dma0_temp_reg 0xff b

unfoldable pub reset_flipflop : ℕ → Bus → Bus
reset_flipflop dma b =
    if ltb dma 2
    then b
    else outport8 (if dma == 0 then dma0_clearbyte_flipflop_reg else dma1_clearbyte_flipflop_reg)
        0xff b

-- The switch over the channel; a channel with no case leaves `port` at 0.
address_port : ℕ → ℕ
address_port channel =
    if channel == 0
    then dma0_chan0_addr_reg
    else if channel == 1
    then dma0_chan1_addr_reg
    else if channel == 2
    then dma0_chan2_addr_reg
    else if channel == 3
    then dma0_chan3_addr_reg
    else if channel == 4
    then dma1_chan4_addr_reg
    else if channel == 5
    then dma1_chan5_addr_reg
    else if channel == 6
    then dma1_chan6_addr_reg
    else if channel == 7
    then dma1_chan7_addr_reg
    else 0

count_port : ℕ → ℕ
count_port channel =
    if channel == 0
    then dma0_chan0_count_reg
    else if channel == 1
    then dma0_chan1_count_reg
    else if channel == 2
    then dma0_chan2_count_reg
    else if channel == 3
    then dma0_chan3_count_reg
    else if channel == 4
    then dma1_chan4_count_reg
    else if channel == 5
    then dma1_chan5_count_reg
    else if channel == 6
    then dma1_chan6_count_reg
    else if channel == 7
    then dma1_chan7_count_reg
    else 0

unfoldable pub set_address : ℕ → ℕ → ℕ → Bus → Bus
unfolding address_port
set_address channel low high b =
    let port = address_port channel in
    if ltb 8 channel then b else outport8 port high (outport8 port low b)

unfoldable pub set_count : ℕ → ℕ → ℕ → Bus → Bus
unfolding count_port
set_count channel low high b =
    let port = count_port channel in
    if ltb 8 channel then b else outport8 port high (outport8 port low b)

unfoldable pub set_mode : ℕ → ℕ → Bus → Bus
unfolding mask_channel unmask_all
set_mode channel mode b =
    let dma = if ltb channel 4 then 0 else 1 in
    let chan = if dma == 0 then channel else channel - 4 in
    unmask_all dma (
      outport8 (if ltb channel 4 then dma0_mode_reg else dma1_mode_reg) (bit_or chan mode)
        (mask_channel channel b))

unfoldable pub set_read : ℕ → Bus → Bus
unfolding set_mode
set_read channel b = set_mode channel (bit_or dma_mode_read_transfer dma_mode_transfer_single) b

unfoldable pub set_write : ℕ → Bus → Bus
unfolding set_mode
set_write channel b = set_mode channel (bit_or dma_mode_write_transfer dma_mode_transfer_single) b

-- `none` is the return of case 4.
page_port : ℕ → Option ℕ
page_port reg =
    if reg == 1
    then some dma_page_chan1_addrbyte2
    else if reg == 2
    then some dma_page_chan2_addrbyte2
    else if reg == 3
    then some dma_page_chan3_addrbyte2
    else if reg == 4
    then none
    else if reg == 5
    then some dma_page_chan5_addrbyte2
    else if reg == 6
    then some dma_page_chan6_addrbyte2
    else if reg == 7
    then some dma_page_chan7_addrbyte2
    else some 0

unfoldable pub set_external_page_register : ℕ → ℕ → Bus → Bus
unfolding page_port
set_external_page_register reg val b =
    if ltb 14 reg then b else elim (page_port reg) [ none ↦ b | some port ↦ outport8 port val b ]

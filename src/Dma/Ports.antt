-- ===== src/Dma/Ports.antt =====
-- The registers and modes of kernel/arch/i386/dma.h that dma.c uses.
use comet_os.Base.{ℕ}

abbrev pub dma0_chan0_addr_reg : ℕ
dma0_chan0_addr_reg = 0

abbrev pub dma0_chan0_count_reg : ℕ
dma0_chan0_count_reg = 1

abbrev pub dma0_chan1_addr_reg : ℕ
dma0_chan1_addr_reg = 2

abbrev pub dma0_chan1_count_reg : ℕ
dma0_chan1_count_reg = 3

abbrev pub dma0_chan2_addr_reg : ℕ
dma0_chan2_addr_reg = 4

abbrev pub dma0_chan2_count_reg : ℕ
dma0_chan2_count_reg = 5

abbrev pub dma0_chan3_addr_reg : ℕ
dma0_chan3_addr_reg = 6

abbrev pub dma0_chan3_count_reg : ℕ
dma0_chan3_count_reg = 7

abbrev pub dma1_chan4_addr_reg : ℕ
dma1_chan4_addr_reg = 0xc0

abbrev pub dma1_chan4_count_reg : ℕ
dma1_chan4_count_reg = 0xc2

abbrev pub dma1_chan5_addr_reg : ℕ
dma1_chan5_addr_reg = 0xc4

abbrev pub dma1_chan5_count_reg : ℕ
dma1_chan5_count_reg = 0xc6

abbrev pub dma1_chan6_addr_reg : ℕ
dma1_chan6_addr_reg = 0xc8

abbrev pub dma1_chan6_count_reg : ℕ
dma1_chan6_count_reg = 0xca

abbrev pub dma1_chan7_addr_reg : ℕ
dma1_chan7_addr_reg = 0xcc

abbrev pub dma1_chan7_count_reg : ℕ
dma1_chan7_count_reg = 0xce

abbrev pub dma0_chanmask_reg : ℕ
dma0_chanmask_reg = 0x0a

abbrev pub dma0_mode_reg : ℕ
dma0_mode_reg = 0x0b

abbrev pub dma0_clearbyte_flipflop_reg : ℕ
dma0_clearbyte_flipflop_reg = 0x0c

abbrev pub dma0_temp_reg : ℕ
dma0_temp_reg = 0x0d

abbrev pub dma1_chanmask_reg : ℕ
dma1_chanmask_reg = 0xd4

abbrev pub dma1_mode_reg : ℕ
dma1_mode_reg = 0xd6

abbrev pub dma1_clearbyte_flipflop_reg : ℕ
dma1_clearbyte_flipflop_reg = 0xd8

abbrev pub dma1_unmask_all_reg : ℕ
dma1_unmask_all_reg = 0xdc

abbrev pub dma_page_chan1_addrbyte2 : ℕ
dma_page_chan1_addrbyte2 = 0x83

abbrev pub dma_page_chan2_addrbyte2 : ℕ
dma_page_chan2_addrbyte2 = 0x81

abbrev pub dma_page_chan3_addrbyte2 : ℕ
dma_page_chan3_addrbyte2 = 0x82

abbrev pub dma_page_chan5_addrbyte2 : ℕ
dma_page_chan5_addrbyte2 = 0x89

abbrev pub dma_page_chan6_addrbyte2 : ℕ
dma_page_chan6_addrbyte2 = 0x87

abbrev pub dma_page_chan7_addrbyte2 : ℕ
dma_page_chan7_addrbyte2 = 0x88

abbrev pub dma_mode_read_transfer : ℕ
dma_mode_read_transfer = 4

abbrev pub dma_mode_write_transfer : ℕ
dma_mode_write_transfer = 8

abbrev pub dma_mode_transfer_single : ℕ
dma_mode_transfer_single = 0x40

-- ===== src/Floppy/Ports.antt =====
-- The registers, commands and masks of kernel/arch/i386/fdc.h that fdc.c uses.
use comet_os.Base.{ℕ}

abbrev pub floppy_dor : ℕ
floppy_dor = 0x3f2

abbrev pub floppy_msr : ℕ
floppy_msr = 0x3f4

abbrev pub floppy_fifo : ℕ
floppy_fifo = 0x3f5

abbrev pub floppy_ctrl : ℕ
floppy_ctrl = 0x3f7

abbrev pub fdc_cmd_specify : ℕ
fdc_cmd_specify = 3

abbrev pub fdc_cmd_read_sect : ℕ
fdc_cmd_read_sect = 6

abbrev pub fdc_cmd_calibrate : ℕ
fdc_cmd_calibrate = 7

abbrev pub fdc_cmd_check_int : ℕ
fdc_cmd_check_int = 8

abbrev pub fdc_cmd_seek : ℕ
fdc_cmd_seek = 0xf

abbrev pub fdc_cmd_ext_skip : ℕ
fdc_cmd_ext_skip = 0x20

abbrev pub fdc_cmd_ext_density : ℕ
fdc_cmd_ext_density = 0x40

abbrev pub fdc_cmd_ext_multitrack : ℕ
fdc_cmd_ext_multitrack = 0x80

abbrev pub floppy_dor_mask_reset : ℕ
floppy_dor_mask_reset = 4

abbrev pub floppy_dor_mask_dma : ℕ
floppy_dor_mask_dma = 8

abbrev pub floppy_dor_mask_drive0_motor : ℕ
floppy_dor_mask_drive0_motor = 16

abbrev pub floppy_dor_mask_drive1_motor : ℕ
floppy_dor_mask_drive1_motor = 32

abbrev pub floppy_dor_mask_drive2_motor : ℕ
floppy_dor_mask_drive2_motor = 64

abbrev pub floppy_dor_mask_drive3_motor : ℕ
floppy_dor_mask_drive3_motor = 128

abbrev pub floppy_gap3_length_3_5 : ℕ
floppy_gap3_length_3_5 = 27

abbrev pub floppy_sector_dtl_512 : ℕ
floppy_sector_dtl_512 = 2

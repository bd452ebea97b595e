-- ===== src/Floppy/Tests.antt =====
-- The floppy theorems at a buffer below 16 MB, and at controllers that are never and always ready.
use comet_os.Base.{ℕ, ◌≡◌, ◌≢◌, arith, [], true}
use comet_os.Base.Bus.{Bus}
use comet_os.Floppy.{Floppy, dma_initialize}
use comet_os.Floppy.Transfer.{InBlock, dma_initialize-InBlock}

-- Each read answers 0x80: the data register is ready, and the cylinder is not 0.
abbrev bus : Bus
bus = record { history = []; answer = λ h p. 0x80 }

abbrev floppy : Floppy
floppy = record {
  bus = bus;
  current_drive = 1;
  floppy_disk_irq = 0;
  dma_buffer = 0x1000;
  fires = λ h. true;
  sleeps = λ h. true;
}

abbrev buffer : ℕ
buffer = 0x1000

abbrev far : ℕ
far = 0x21000

near_block : InBlock buffer 512
near_block = (omega arith, omega arith)

far_block : InBlock far 512
far_block = (omega arith, omega arith)

dma_initialize-InBlock_example :
    (((dma_initialize buffer 512 bus).0 ≡ 1 → InBlock buffer 512)
      × (InBlock buffer 512 → (dma_initialize buffer 512 bus).0 ≡ 1))
    × ((dma_initialize buffer 512 bus).0 ≢ 1 → dma_initialize buffer 512 bus ≡ (0, bus))
dma_initialize-InBlock_example =
    dma_initialize-InBlock buffer 512 bus (omega arith) (omega arith) (omega arith)

-- ===== src/Floppy/Geometry.antt =====
-- The place of a sector on the disk, `floppy_convert` of kernel/arch/i386/fdc.c.
use comet_os.Base.{ℕ, ◌+◌, ◌-◌, ◌*◌, ◌≤◌, ◌<◌, ◌≡◌, arith}
use comet_os.Floppy.{convert}

-- `floppy_convert` is a bijection between the sector numbers and the places with head 0 or 1 and a
-- sector from 1 to 18: the place lies in these bounds, its track is below 80 on a disk of 2880
-- sectors, the number is had back from it, and any place is what its number is converted to.
convert_place :
    ((lba : ℕ)
      → (((convert lba).0 < 2) × (1 ≤ (convert lba).2) × ((convert lba).2 ≤ 18))
        × (lba < 2880 → (convert lba).1 < 80)
        × (((convert lba).1 * 2 + (convert lba).0) * 18 + ((convert lba).2 - 1) ≡ lba))
    × ((head track sector : ℕ)
        → head < 2
        → 1 ≤ sector
        → sector ≤ 18
        → convert ((track * 2 + head) * 18 + (sector - 1)) ≡ (head, track, sector))
unfolding convert
convert_place = (
  λ lba. ((omega arith, omega arith, omega arith), (λ h. omega arith), omega arith),
  λ head track sector hh hl hs. ground arith,
)

-- ===== src/Libc/Mem/Tests.antt =====
-- The memory functions at overlapping and at separate objects.
use comet_os.Base.{◌≡◌, refl, inr, arith}
use comet_os.Libc.Mem.{Bytes, memcpy, memmove, memset}
use comet_os.Libc.Mem.Move.{copied, memmove-copied, memcpy-copied, memset_lem}

-- Each byte holds its own address, up to 255.
abbrev ramp : Bytes
ramp a = a

move_up : (memmove 12 10 5 ramp).1 16 ≡ 14
unfolding memmove
move_up = refl

-- The plain loop of `memcpy` would repeat the first two bytes there.
copy_over : (memcpy 12 10 5 ramp).1 16 ≡ 10
unfolding memcpy
copy_over = refl

memmove-copied_example :
    ((memmove 12 10 5 ramp).0 ≡ 12) × ((memmove 12 10 5 ramp).1 16 ≡ copied 12 10 5 ramp 16)
memmove-copied_example = memmove-copied 12 10 5 ramp 16

memcpy-copied_example :
    ((memcpy 20 10 5 ramp).0 ≡ 20) × ((memcpy 20 10 5 ramp).1 24 ≡ copied 20 10 5 ramp 24)
memcpy-copied_example = memcpy-copied 20 10 5 ramp 24 (inr (omega arith))

memset_lem_example : ((memset 20 0x141 5 ramp).0 ≡ 20) × ((memset 20 0x141 5 ramp).1 22 ≡ 0x41)
memset_lem_example = memset_lem 20 0x141 5 ramp 22

-- ===== src/Libc/Mem.antt =====
-- libc/string: memcpy.c, memmove.c, memset.c and memcmp.c over a flat memory of bytes. An object
-- does not reach over the end of the address space, so that no address wraps.
pub mod Move
pub mod Compare
mod Tests
use comet_os.Base.{ℕ, zero, suc, ◌+◌, ◌-◌, ◌^◌, ltb, ◌==◌, u8, if◌then◌else◌}

abbrev pub Bytes : Type 0
Bytes = ℕ → ℕ

unfoldable pub write : ℕ → ℕ → Bytes → Bytes
write p v m a = if a == p then v else m a

-- The loops of `memcpy` and `memmove`, with `n` rounds left.
copy_up : ℕ → ℕ → ℕ → ℕ → Bytes → Bytes
copy_up zero i dst src m = m
copy_up (suc n) i dst src m = copy_up n (i + 1) dst src (write (dst + i) (m (src + i)) m)

-- The index is one below the round's `i`, which ends at 0.
copy_down : ℕ → ℕ → ℕ → Bytes → Bytes
copy_down zero dst src m = m
copy_down (suc i) dst src m = copy_down i dst src (write (dst + i) (m (src + i)) m)

-- The returned pointer and the memory.
unfoldable pub memcpy : ℕ → ℕ → ℕ → Bytes → ℕ × Bytes
unfolding copy_up write
memcpy dst src size m = (dst, copy_up size 0 dst src m)

unfoldable pub memmove : ℕ → ℕ → ℕ → Bytes → ℕ × Bytes
unfolding copy_up copy_down write
memmove dst src size m =
    (dst, if ltb dst src then copy_up size 0 dst src m else copy_down size dst src m)

set_up : ℕ → ℕ → ℕ → ℕ → Bytes → Bytes
set_up zero i buf value m = m
set_up (suc n) i buf value m = set_up n (i + 1) buf value (write (buf + i) (u8 value) m)

unfoldable pub memset : ℕ → ℕ → ℕ → Bytes → ℕ × Bytes
unfolding set_up write
memset buf value size m = (buf, set_up size 0 buf value m)

-- The `int` -1 is its bit pattern.
abbrev pub minus_one : ℕ
minus_one = 2 ^ 32 - 1

compare_up : ℕ → ℕ → ℕ → ℕ → Bytes → ℕ
compare_up zero i a b m = 0
compare_up (suc n) i a b m =
    let rest = compare_up n (i + 1) a b m in
    if ltb (m (a + i)) (m (b + i))
    then minus_one
    else if ltb (m (b + i)) (m (a + i))
    then 1
    else rest

unfoldable pub memcmp : ℕ → ℕ → ℕ → Bytes → ℕ
unfolding compare_up
memcmp a b size m = compare_up size 0 a b m

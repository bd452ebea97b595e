-- ===== src/Libc/Mem/Move.antt =====
-- memcpy, memmove and memset of libc/string against the memory that they should leave.
use comet_os.Base.{
  ◌<◌, ℕ, zero, suc, ◌+◌, ◌-◌, ◌≤◌, ◌≡◌, refl, ◌⊎◌, arith, leb, ltb, ◌&&◌, u8, if◌then◌else◌, ap,
}
use comet_os.Libc.Mem.{Bytes, write, copy_up, copy_down, memcpy, memmove, set_up, memset}

-- The memory after a copy of the old bytes.
abbrev pub copied : ℕ → ℕ → ℕ → Bytes → Bytes
copied dst src size m a = if leb dst a && ltb a (dst + size) then m (src + (a - dst)) else m a

-- No round writes what a later one reads: the source is not below the target, or ends before it.
copy_up-copied :
    (n i dst src : ℕ) (m : Bytes) (a : ℕ)
    → (dst ≤ src) ⊎ (src + i + n ≤ dst + i)
    → copy_up n i dst src m a
      ≡ (if leb (dst + i) a && ltb a (dst + i + n) then m (src + (a - dst)) else m a)
unfolding copy_up write
copy_up-copied zero i dst src m a apart = ground arith
copy_up-copied (suc n) i dst src m a apart = ground (
  arith,
  copy_up-copied n (i + 1) dst src (write (dst + i) (m (src + i)) m) a,
  ap {B = ℕ} m {x = src + (a - dst)} {y = src + i},
)

copy_down-copied :
    (n dst src : ℕ) (m : Bytes) (a : ℕ) → src ≤ dst → copy_down n dst src m a ≡ copied dst src n m a
unfolding copy_down write
copy_down-copied zero dst src m a le = ground arith
copy_down-copied (suc n) dst src m a le = ground (
  arith,
  copy_down-copied n dst src (write (dst + n) (m (src + n)) m) a,
  ap {B = ℕ} m {x = src + (a - dst)} {y = src + n},
)

-- `memmove` returns the target, and leaves there the bytes that the source had before the call,
-- however the two overlap; it writes nothing else.
pub memmove-copied :
    (dst src size : ℕ) (m : Bytes) (a : ℕ)
    → ((memmove dst src size m).0 ≡ dst) × ((memmove dst src size m).1 a ≡ copied dst src size m a)
unfolding memmove
memmove-copied dst src size m a =
    (refl, ground (arith, copy_up-copied size 0 dst src m a, copy_down-copied size dst src m a))

-- `memcpy` does the same where the target is not above the source, or starts behind its end.
pub memcpy-copied :
    (dst src size : ℕ) (m : Bytes) (a : ℕ)
    → (dst ≤ src) ⊎ (src + size ≤ dst)
    → ((memcpy dst src size m).0 ≡ dst) × ((memcpy dst src size m).1 a ≡ copied dst src size m a)
unfolding memcpy
memcpy-copied dst src size m a apart = (refl, ground (arith, copy_up-copied size 0 dst src m a))

set_up_lem :
    (n i buf value : ℕ) (m : Bytes) (a : ℕ)
    → set_up n i buf value m a ≡ (if leb (buf + i) a && ltb a (buf + i + n) then u8 value else m a)
unfolding set_up write
set_up_lem zero i buf value m a = ground arith
set_up_lem (suc n) i buf value m a =
    ground (arith, set_up_lem n (i + 1) buf value (write (buf + i) (u8 value) m) a)

-- `memset` writes the low byte of `value` to exactly the `size` bytes from `buf` on.
pub memset_lem :
    (buf value size : ℕ) (m : Bytes) (a : ℕ)
    → ((memset buf value size m).0 ≡ buf)
      × ((memset buf value size m).1 a
          ≡ (if leb buf a && ltb a (buf + size) then u8 value else m a))
unfolding memset
memset_lem buf value size m a = (refl, ground (arith, set_up_lem size 0 buf value m a))

copy_up_outside :
    (n i dst src : ℕ) (m : Bytes) (a : ℕ)
    → (a < dst) ⊎ (dst + i + n ≤ a)
    → copy_up n i dst src m a ≡ m a
unfolding copy_up write
copy_up_outside zero i dst src m a out = refl
copy_up_outside (suc n) i dst src m a out =
    ground (arith, copy_up_outside n (i + 1) dst src (write (dst + i) (m (src + i)) m) a)

-- However the two overlap, `memcpy` writes nothing outside the target.
pub memcpy_outside :
    (dst src size : ℕ) (m : Bytes) (a : ℕ)
    → (a < dst) ⊎ (dst + size ≤ a)
    → (memcpy dst src size m).1 a ≡ m a
unfolding memcpy
memcpy_outside dst src size m a out = copy_up_outside size 0 dst src m a (ground arith)

-- ===== src/Initrd/Entry.antt =====
-- What `initrd_readdir` of kernel/kernel/fs/initrd.c makes of a directory entry.
use mathlib.Core.Path.{subst}
use comet_os.Base.{ℕ, ◌+◌, ◌-◌, ◌/◌, ◌%◌, ◌^◌, ◌≤◌, ◌<◌, ◌≡◌, ◌⊎◌, refl, ap, ◌∙◌, arith}
use comet_os.Libc.Mem.{Bytes, write, memcpy}
use comet_os.Libc.Mem.Move.{memcpy-copied}
use comet_os.Ext2.{field16, field32}
use comet_os.Initrd.{write32, copy_entry}

-- The memory with the name and its zero.
abbrev named : ℕ → ℕ → ℕ → Bytes → Bytes
named made ent len m = write (made + len) 0 (memcpy made (ent + 8) len m).1

-- The entry and the target, as far as they are read and written, are apart.
abbrev pub Apart : ℕ → ℕ → ℕ → Type 0
Apart made ent len = (made + 132 ≤ ent) ⊎ (ent + 8 + len ≤ made)

named-name :
    (made ent len : ℕ) (m : Bytes) (i : ℕ)
    → Apart made ent len
    → len < 128
    → i < len
    → named made ent len m (made + i) ≡ m (ent + 8 + i)
unfolding write
named-name made ent len m i apart short h = ground (
  arith,
  (memcpy-copied made (ent + 8) len m (made + i) (ground arith)).1,
  ap {B = ℕ} m {x = ent + 8 + (made + i - made)} {y = ent + 8 + i},
)

named-entry :
    (made ent len : ℕ) (m : Bytes) (i : ℕ)
    → Apart made ent len
    → len < 128
    → i < 4
    → named made ent len m (ent + i) ≡ m (ent + i)
unfolding write
named-entry made ent len m i apart short h =
    ground (arith, (memcpy-copied made (ent + 8) len m (ent + i) (ground arith)).1)

field32_below : (a : ℕ) (m : Bytes) → field32 a m < 2 ^ 32
unfolding field32
field32_below a m = omega arith

-- The four bytes of a number, and the bytes around them.
write32-field32 : (a v : ℕ) (m : Bytes) → v < 2 ^ 32 → field32 a (write32 a v m) ≡ v
unfolding field32 write
write32-field32 a v m h =
    let all = write32 a v m in
    let byte0 : all a ≡ v % 2 ^ 8 = ground arith in
    let byte1 : all (a + 1) ≡ v / 2 ^ 8 % 2 ^ 8 = ground arith in
    let byte2 : all (a + 2) ≡ v / 2 ^ 16 % 2 ^ 8 = ground arith in
    let byte3 : all (a + 3) ≡ v / 2 ^ 24 % 2 ^ 8 = ground arith in
    rw (byte0, byte1, byte2, byte3) (omega arith)

write32-outside : (a v b : ℕ) (m : Bytes) → b < a → write32 a v m b ≡ m b
unfolding write
write32-outside a v b m h = ground arith

named-stop : (made ent len : ℕ) (m : Bytes) → named made ent len m (made + len) ≡ 0
unfolding write
named-stop made ent len m = ground arith

named-inode :
    (made ent len : ℕ) (m : Bytes)
    → Apart made ent len
    → len < 128
    → field32 ent (named made ent len m) ≡ field32 ent m
unfolding field32
named-inode made ent len m apart short =
    let at_zero : ent + 0 ≡ ent = omega arith in
    let byte0 : named made ent len m ent ≡ m ent =
      subst (λ x. named made ent len m x ≡ m x) at_zero
        (named-entry made ent len m 0 apart short (omega arith)) in
    let byte1 = named-entry made ent len m 1 apart short (omega arith) in
    let byte2 = named-entry made ent len m 2 apart short (omega arith) in
    let byte3 = named-entry made ent len m 3 apart short (omega arith) in
    rw (byte0, byte1, byte2, byte3) refl

-- Where the entry has a name of fewer than 128 bytes and the new `struct dir_entry` does not overlap
-- it, the latter gets the bytes of the name with a zero behind them, and the inode of the entry.
copy_entry-name :
    (made ent : ℕ) (m : Bytes)
    → Apart made ent (field16 (ent + 6) m)
    → field16 (ent + 6) m < 128
    → ((i : ℕ) → i < field16 (ent + 6) m → copy_entry made ent m (made + i) ≡ m (ent + 8 + i))
      × (copy_entry made ent m (made + field16 (ent + 6) m) ≡ 0)
      × (field32 (made + 128) (copy_entry made ent m) ≡ field32 ent m)
unfolding copy_entry
copy_entry-name made ent m apart short =
    let len = field16 (ent + 6) m in
    let inode = field32 ent (named made ent len m) in
    let outside : (i : ℕ)
        → i < 128
        → copy_entry made ent m (made + i) ≡ named made ent len m (made + i) =
      λ i h. write32-outside (made + 128) inode (made + i) (named made ent len m) (omega arith) in
    (
      λ i h. outside i (omega arith) ∙ named-name made ent len m i apart short h,
      outside len short ∙ named-stop made ent len m,
      write32-field32 (made + 128) inode (named made ent len m)
            (field32_below ent (named made ent len m))
          ∙ named-inode made ent len m apart short,
    )

-- ===== src/Ext2/Layout/Superblock.antt =====
-- What `ext2_superblock_get` of kernel/kernel/fs/ext2.c does to the members of the superblock.
use comet_os.Base.{
  ◌∙◌, sym, ap, ℕ, zero, suc, ◌+◌, ◌*◌, ◌%◌, ◌^◌, ◌≡◌, ◌≢◌, refl, arith, List, [], ◌∷◌, true, false,
  u32, ◌==◌, Bool, ◌&&◌, ◌||◌, leb,
}
use comet_os.Libc.Mem.{Bytes, write}
use comet_os.Ext2.{field16, superblock_validate, superblock_get}
use comet_os.Ext2.Layout.{bytes_at, member, superblock_layout, inode_size, field16-bytes}

-- Whether every member but `skipped` of the ones from `j` at the offset `o` on is off the bytes from
-- `low` up to `high`.
abbrev off : ℕ → ℕ → ℕ → ℕ → ℕ → List ℕ → Bool
off skipped low high j o [] = true
off skipped low high j o (w ∷ ws) =
    ((j == skipped) || (leb (o + w) low || leb high o)) && off skipped low high (j + 1) (o + w) ws

-- The memories agree but for the bytes from `low` up to `high`.
abbrev Agree : ℕ → ℕ → Bytes → Bytes → Type 0
Agree low high m n = (a : ℕ) → (leb low a && leb (a + 1) high) ≡ false → n a ≡ m a

bytes_at-same :
    (w a low high : ℕ) (m n : Bytes)
    → Agree low high m n
    → (leb (a + w) low || leb high a) ≡ true
    → bytes_at w a n ≡ bytes_at w a m
unfolding bytes_at
bytes_at-same zero a low high m n same out = refl
bytes_at-same (suc w) a low high m n same out =
    let first : n a ≡ m a = same a (ground arith) in
    let rest = bytes_at-same w (a + 1) low high m n same (ground arith) in
    ground (arith, first, rest)

-- A member but the one skipped is the same in both memories.
member-same :
    (ws : List ℕ) (skipped j k o sb low high : ℕ) (m n : Bytes)
    → Agree (sb + low) (sb + high) m n
    → off skipped low high j o ws ≡ true
    → j + k ≢ skipped
    → member ws k (sb + o) n ≡ member ws k (sb + o) m
unfolding member
member-same [] skipped j k o sb low high m n same all other = refl
member-same (w ∷ ws) skipped j zero o sb low high m n same all other =
    ap (λ x. x % 2 ^ (8 * w))
      (bytes_at-same w (sb + o) (sb + low) (sb + high) m n same (ground arith))
member-same (w ∷ ws) skipped j (suc k) o sb low high m n same all other =
    let next : sb + o + w ≡ sb + (o + w) = omega arith in
    let rest =
      member-same ws skipped (j + 1) k (o + w) sb low high m n same (ground arith) (omega arith) in
    rw (next) rest

-- What `ext2_superblock_get` writes into a superblock.
abbrev sized : ℕ → Bytes → Bytes
sized sb m = write (sb + 89) 0 (write (sb + 88) 128 m)

sized-Agree : (sb : ℕ) (m : Bytes) → Agree (sb + 88) (sb + 90) m (sized sb m)
unfolding write
sized-Agree sb m a out = ground arith

sized-field16 : (sb : ℕ) (m : Bytes) → field16 (sb + 88) (sized sb m) ≡ 128
unfolding field16 write
sized-field16 sb m = ground arith

superblock_get-sized :
    (addr : ℕ) (m : Bytes)
    → superblock_validate (u32 (addr + 1024)) m ≡ 1
    → superblock_get addr m ≡ (u32 (addr + 1024), sized (u32 (addr + 1024)) m)
unfolding superblock_get
superblock_get-sized addr m valid = rw (superblock_get, valid) refl

-- `ext2_superblock_get` of a volume with the magic number returns the superblock 1024 bytes behind the
-- volume's start, with 128 as its member `inode_size` and every other member as before.
superblock_get-member :
    (addr j : ℕ) (m : Bytes)
    → superblock_validate (u32 (addr + 1024)) m ≡ 1
    → j ≢ inode_size
    → let (sb, n) = superblock_get addr m in
      (sb ≡ u32 (addr + 1024))
      × (member superblock_layout inode_size sb n ≡ 128)
      × (member superblock_layout j sb n ≡ member superblock_layout j sb m)
unfolding member
superblock_get-member addr j m valid other =
    let sb = u32 (addr + 1024) in
    let n : Bytes = sized sb m in
    let made : superblock_get addr m ≡ (sb, n) = superblock_get-sized addr m valid in
    let set : member superblock_layout inode_size sb n ≡ 128 =
      sym (field16-bytes (sb + 88) _ n (omega arith)) ∙ sized-field16 sb m in
    let start : sb + 0 ≡ sb = omega arith in
    let kept : member superblock_layout j (sb + 0) n ≡ member superblock_layout j (sb + 0) m =
      member-same superblock_layout inode_size 0 j 0 sb 88 90 m n (sized-Agree sb m) refl
        (omega arith) in
    rw (made) (refl, set, rw (start) at kept)

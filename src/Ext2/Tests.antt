-- ===== src/Ext2/Tests.antt =====
-- The theorems of the file system at a small volume: blocks of 1024 bytes, two groups, and a
-- directory of one block with two entries, behind which its inode has a block that is all 0.
use comet_os.Base.{
  none, ◌/◌, ◌⊎◌, ℕ, zero, suc, ◌+◌, ◌*◌, ◌<◌, ◌≤◌, ◌≡◌, refl, arith, inr, some, ◌==◌, u32, sub32,
  if◌then◌else◌,
}
use comet_os.Libc.Mem.{Bytes}
use comet_os.Ext2.{
  field16, field32, block_size, inode_get, inodeblock_get, direntry_get, read, numbered, block_get,
}
use comet_os.Ext2.Content.{block_number, HasBlock, file_place, file_byte, read-file_byte}
use comet_os.Ext2.Volume.{descriptor_place, inode_get_place}
use comet_os.Ext2.Directory.{entry_offset, StartInside, direntry_get_entries}

-- The superblock stands at 1024 and a directory's inode at 0x4000, with block 8. The first entry
-- has 12 bytes, and the second the other 1012.
abbrev image : Bytes
image a =
    if a == 1024
    then 64
    else if a == 1028
    then 64
    else if a == 1056
    then 32
    else if a == 1064
    then 32
    else if a == 1112
    then 128
    else if a == 2056
    then 5
    else if a == 0x4001
    then 0x40
    else if a == 0x4005
    then 4
    else if a == 0x4028
    then 8
    else if a == 0x402c
    then 9
    else if a == 8196
    then 12
    else if a == 8208
    then 0xf4
    else if a == 8209
    then 3
    else 0

abbrev sb : ℕ
sb = 1024

abbrev dir : ℕ
dir = 0x4000

size_1024 : block_size sb image ≡ 1024
unfolding block_size field32
size_1024 = refl

block_8 : inodeblock_get 0 dir sb image ≡ 8192
unfolding inodeblock_get numbered block_get block_size field32
block_8 = refl

offset_1 : entry_offset 8192 image 1 ≡ 12
unfolding entry_offset field16
offset_1 = refl

offset_2 : entry_offset 8192 image 2 ≡ 1024
unfolding entry_offset field16
offset_2 = refl

dir_size : field32 (dir + 4) image ≡ 1024
unfolding field32
dir_size = refl

inside : StartInside 2 dir sb image
unfolding entry_offset
inside zero h = rw (size_1024, dir_size) (omega arith, omega arith)
inside (suc zero) h = rw (block_8, size_1024, dir_size, offset_1) (omega arith, omega arith)
inside (suc (suc k)) h = ground arith

direntry_get_entries_example :
    (1 < 5
      → 1 ≤ 2
      → direntry_get 5 1 dir sb image
        ≡ some (
            u32 (
              inodeblock_get 0 dir sb image
              + entry_offset (inodeblock_get 0 dir sb image) image 1)))
    × (2 < 1 → direntry_get 5 1 dir sb image ≡ none)
direntry_get_entries_example =
    direntry_get_entries 5 2 1 dir sb image inside (rw (block_8, size_1024, offset_2) (omega arith))
      (rw (block_8, dir_size, offset_2) (omega arith))

per_group : field32 (sb + 40) image ≡ 32
unfolding field32
per_group = refl

blocks_per_group : field32 (sb + 32) image ≡ 32
unfolding field32
blocks_per_group = refl

abbrev root : ℕ
root = 2

inode_get_place_example :
    (field32 sb image < root → inode_get root sb image ≡ some 0)
    × ((group index : ℕ)
        → root ≡ group * field32 (sb + 40) image + index + 1
        → index < field32 (sb + 40) image
        → root ≤ field32 sb image
        → (group * field32 (sb + 32) image ≤ field32 (sb + 4) image
            → inode_get root sb image
              ≡ some (
                  u32 (
                    sub32 sb 1024
                    + block_size sb image * field32 (descriptor_place group sb image + 8) image
                    + field16 (sb + 88) image * index)))
          × (field32 (sb + 4) image < group * field32 (sb + 32) image
              → inode_get root sb image ≡ some 0))
inode_get_place_example =
    inode_get_place root sb image (omega arith) (omega arith) (rw per_group (omega arith))
      (rw blocks_per_group (omega arith))

number_8 : block_number (4 / block_size sb image) dir sb image ≡ 8
unfolding block_size field32
number_8 = refl

dir-HasBlock : HasBlock (4 / block_size sb image) dir sb image
dir-HasBlock = rw (number_8, size_1024) (omega arith, λ e. ground arith, λ h. absurd (omega arith))

dir-Apart : (0x6000 ≤ file_place 4 dir sb image) ⊎ (file_place 4 dir sb image + 16 ≤ 0x6000)
dir-Apart = rw (number_8, size_1024) (inr (omega arith))

-- 16 bytes of the directory from its fifth on.
read-file_byte_example :
    (after : Bytes) × (read 1 4 0x6000 16 dir sb image ≡ some (16, after))
    × ((i : ℕ) → i < 16 → after (0x6000 + i) ≡ file_byte dir sb image (4 + i))
    × ((a : ℕ) → (a < 0x6000) ⊎ (0x6000 + 16 ≤ a) → after a ≡ image a)
read-file_byte_example =
    read-file_byte 0 4 0x6000 16 dir sb image (omega arith) (omega arith) (omega arith)
      (omega arith) (rw size_1024 (omega arith)) (rw size_1024 (omega arith)) dir-HasBlock dir-Apart

-- ===== src/Ext2.antt =====
-- The second extended file system, kernel/kernel/fs/ext2.c and kernel/include/kernel/fs/ext2.h, on
-- an image in a flat memory of bytes; a pointer is 32 bits, 0 for NULL. The fields of the packed
-- structures are read at their offsets.
pub mod Volume
pub mod Types
pub mod Read
pub mod Blocks
pub mod Content
pub mod Layout
pub mod Directory
mod Tests
use comet_os.Base.{
  ◌!=◌, ℕ, zero, suc, ◌+◌, ◌-◌, ◌*◌, ◌/◌, ◌%◌, ◌^◌, Bool, true, false, Option, none, some, leb, ltb,
  ◌==◌, ◌&&◌, ◌||◌, u32, sub32, bit, if◌then◌else◌,
}
use comet_os.Libc.Mem.{Bytes, write, memcpy}

unfoldable pub field16 : ℕ → Bytes → ℕ
field16 a m = (m a + 2 ^ 8 * m (a + 1)) % 2 ^ 16

unfoldable pub field32 : ℕ → Bytes → ℕ
field32 a m = (m a + 2 ^ 8 * m (a + 1) + 2 ^ 16 * m (a + 2) + 2 ^ 24 * m (a + 3)) % 2 ^ 32

-- EXT2_BLOCKSIZE_GET, on `block_size_log`.
unfoldable pub block_size : ℕ → Bytes → ℕ
block_size sb m = u32 (1024 * 2 ^ field32 (sb + 24) m)

unfoldable pub superblock_validate : ℕ → Bytes → ℕ
superblock_validate sb m = if field16 (sb + 56) m == 0xef53 then 1 else 0

-- The pointer, and the memory, where `inode_size` becomes 128.
unfoldable pub superblock_get : ℕ → Bytes → ℕ × Bytes
unfolding superblock_validate
superblock_get addr m =
    let sb = u32 (addr + 1024) in
    if superblock_validate sb m == 0
    then (0, m)
    else (sb, write (sb + 89) 0 (write (sb + 88) 128 m))

-- Whether `ext2_error` halts the processor.
unfoldable pub error : ℕ → Bytes → Bool
error sb m = field16 (sb + 60) m == 3

-- The test `(type & M) == M` asks for the bits of M. Results are FS_SYMLINK, FS_FILE,
-- FS_BLOCKDEVICE, FS_DIRECTORY, FS_CHARDEVICE and FS_PIPE.
unfoldable pub inode_typetofile : ℕ → Bytes → ℕ
inode_typetofile inode m =
    let type = field16 inode m in
    if bit type 15 && bit type 13
    then 6
    else if bit type 15
    then 1
    else if bit type 14 && bit type 13
    then 4
    else if bit type 14
    then 2
    else if bit type 13
    then 3
    else if bit type 12
    then 5
    else 0

unfoldable pub blockgroup_get : ℕ → ℕ → Bytes → ℕ
unfolding block_size
blockgroup_get blockgroup sb m =
    let bs = block_size sb m in
    let offset = u32 (u32 (bs * field32 (sb + 32) m) * blockgroup) in u32 (sub32 sb bs + offset)

unfoldable pub bg_des_get : ℕ → ℕ → Bytes → ℕ
unfolding blockgroup_get block_size
bg_des_get blockgroup sb m = u32 (blockgroup_get blockgroup sb m + u32 (block_size sb m * 2))

-- The last lines of `ext2_inode_get`, from the descriptor on.
unfoldable pub inode_at : ℕ → ℕ → ℕ → Bytes → ℕ
unfolding block_size
inode_at bg_des index sb m =
    let inode_table_offset = sub32 (u32 (block_size sb m * field32 (bg_des + 8) m)) 1024 in
    let inode_table = u32 (sb + inode_table_offset) in
    u32 (inode_table + field16 (sb + 88) m * index)

-- `none` is a division by 0.
unfoldable pub inode_get : ℕ → ℕ → Bytes → Option ℕ
unfolding inode_at bg_des_get
inode_get inode sb m =
    let per_group = field32 (sb + 40) m in
    let block_group = sub32 inode 1 / per_group in
    if ltb (field32 sb m) inode
    then some 0
    else if (per_group == 0) || (field32 (sb + 32) m == 0)
    then none
    else if ltb (field32 (sb + 4) m / field32 (sb + 32) m) block_group
    then some 0
    else some (inode_at (bg_des_get block_group sb m) (sub32 inode 1 % per_group) sb m)

-- A block number is not negative, so that `block <= 0` asks for 0.
unfoldable pub block_get : ℕ → ℕ → Bytes → ℕ
unfolding block_size
block_get block sb m =
    if leb block 0 then sb else u32 (sub32 sb 1024 + u32 (block_size sb m * block))

-- The block with a number that an inode or an indirect block holds, 0 for none.
unfoldable pub numbered : ℕ → ℕ → Bytes → ℕ
unfolding block_get
numbered number sb m = if number == 0 then 0 else block_get number sb m

-- `block[12]` stands behind the twelve entries, in `block_indirect`.
unfoldable pub inodeblock_get : ℕ → ℕ → ℕ → Bytes → ℕ
unfolding numbered block_get block_size
inodeblock_get block inode sb m =
    if ltb block 12
    then numbered (field32 (inode + 40 + 4 * block) m) sb m
    else if ltb block (12 + block_size sb m / 4)
    then numbered (field32 (block_get (field32 (inode + 88) m) sb m + u32 (4 * (block - 12))) m) sb
        m
    else 0

-- The loop of `ext2_direntry_get`: a round of the `while`, or a `goto Find`, takes one of the fuel.
direntry_from : ℕ → ℕ → ℕ → ℕ → Bytes → ℕ → ℕ → ℕ → Option ℕ
unfolding block_size inodeblock_get
direntry_from zero index inode sb m i offset block_number = none
direntry_from (suc f) index inode sb m i offset block_number =
    let block = inodeblock_get block_number inode sb m in
    let next_block = direntry_from f index inode sb m i offset (u32 (block_number + 1)) in
    let next_entry =
      direntry_from f index inode sb m (i + 1) (u32 (offset + field16 (block + offset + 4) m))
        block_number in
    if ltb i index
    then (if ltb (field32 (inode + 4) m) offset
        then some 0
        else if leb (block_size sb m) offset
        then next_block
        else next_entry)
    else some (u32 (block + offset))

unfoldable pub direntry_get : ℕ → ℕ → ℕ → ℕ → Bytes → Option ℕ
unfolding direntry_from
direntry_get fuel index inode sb m = direntry_from fuel index inode sb m 0 0 0

-- The loop of `ext2_read`; `buffer` is the same in each round.
read_from : ℕ → ℕ → ℕ → ℕ → ℕ → ℕ → ℕ → Bytes → Option Bytes
unfolding block_size inodeblock_get memcpy
read_from zero block block_offset index buffer inode sb m = none
read_from (suc f) block block_offset index buffer inode sb m =
    let addr = inodeblock_get block inode sb m in
    let part = sub32 (block_size sb m) block_offset in
    let rest =
      read_from f (u32 (block + 1)) 0 (index - part) buffer inode sb
        (memcpy buffer (addr + block_offset) part m).1 in
    if leb index part then some (memcpy buffer (addr + block_offset) index m).1 else rest

-- The number of bytes returned, and the memory; `none` is the want of fuel, or a division by 0.
unfoldable pub read : ℕ → ℕ → ℕ → ℕ → ℕ → ℕ → Bytes → Option (ℕ × Bytes)
unfolding read_from block_size
read fuel offset buffer size inode sb m =
    let bs = block_size sb m in
    let block = if offset == 0 then 0 else offset / bs in
    let block_offset = if offset == 0 then 0 else offset % bs in
    if (buffer == 0) || ((inode == 0) || (sb == 0))
    then some (0, m)
    else if (offset != 0) && (bs == 0)
    then none
    else elim (read_from fuel block block_offset size buffer inode sb m) [
      | none ↦ none
      | some after ↦ some (size, after)
    ]

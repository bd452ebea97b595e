-- ===== src/Initrd.antt =====
-- The initial RAM disk, kernel/kernel/fs/initrd.c, on Ext2. `sb` is the superblock that the disk
-- keeps, `made` the address that `kmalloc` returns, and `fuel` that of each loop.
pub mod Search
pub mod Entry
pub mod Mount
mod Tests
use comet_os.Base.{
  ◌&&◌, ℕ, zero, suc, ◌+◌, ◌/◌, ◌%◌, ◌^◌, bit_or, Option, none, some, Bool, true, false, ltb, ◌==◌,
  ◌||◌, not, u32, bit, if◌then◌else◌,
}
use comet_os.Libc.Mem.{Bytes, write, memcpy}
use comet_os.Libc.Text.{◌>>=◌, strlen, strcmp, strcpy}
use comet_os.Ext2.{
  field16, field32, superblock_get, error, inode_typetofile, inode_get, inodeblock_get,
  direntry_get, read,
}
use comet_os.Vfs.{File}

-- The addresses of `initrd_read`, `initrd_readdir` and `initrd_finddir`.
pub record Operations : Type 0 where
  pub read_at : ℕ
  pub readdir_at : ℕ
  pub finddir_at : ℕ

-- A `file_t`; its name stands in memory from its address on.
pub record Node : Type 0 where
  pub file : File
  pub mask : ℕ
  pub uid : ℕ
  pub gid : ℕ
  pub inode : ℕ
  pub size : ℕ

-- The fields that are filled from an inode; `flag` is added to the bits that are there, at byte 140.
unfoldable pub fill_node : Operations → ℕ → ℕ → ℕ → ℕ → Bytes → Node
fill_node ops opener made number inode m = record {
  file = record {
    address = made;
    flag = bit_or (field32 (made + 140) m) (inode_typetofile inode m);
    read = opener;
    write = 0;
    file_open = 0;
    close = 0;
    readdir = ops.readdir_at;
    finddir = ops.finddir_at;
  };
  mask = field16 inode m % 0x1000;
  uid = field16 (inode + 2) m;
  gid = field16 (inode + 24) m;
  inode = number;
  size = field32 (inode + 4) m;
}

-- `initrd_initialize` up to the log: `ext2_error` halts for good when the interrupts are off, or there
-- is the root node.
pub data Started : Type 0 where
  halted : Started
  started : ℕ → Node → Bytes → Started

unfoldable pub initialize : Bool → Operations → ℕ → ℕ → Bytes → Option Started
initialize interrupts ops addr made m =
    let (sb, m1) = superblock_get addr m in
    let named = write (made + 1) 0 (write made b'/' m1) in
    if (field16 (sb + 58) m1 == 2) && (error sb m1 && not interrupts)
    then some halted
    else do inode ← inode_get 2 sb m1; some (started sb (fill_node ops 0 made 2 inode named) named)

unfoldable pub initrd_read : ℕ → Node → ℕ → ℕ → ℕ → ℕ → Bytes → Option (ℕ × Bytes)
initrd_read fuel node offset size buffer sb m = do
  inode ← inode_get node.inode sb m
  read fuel offset buffer size inode sb m

abbrev pub write32 : ℕ → ℕ → Bytes → Bytes
write32 a v m =
    write (a + 3) (v / 2 ^ 24 % 2 ^ 8) (
      write (a + 2) (v / 2 ^ 16 % 2 ^ 8)
        (write (a + 1) (v / 2 ^ 8 % 2 ^ 8) (write a (v % 2 ^ 8) m)))

-- The `struct dir_entry` at `made`, with the name from its start on and the inode at byte 128.
unfoldable pub copy_entry : ℕ → ℕ → Bytes → Bytes
copy_entry made ent m =
    let name_len = field16 (ent + 6) m in
    let named = write (made + name_len) 0 (memcpy made (ent + 8) name_len m).1 in
    write32 (made + 128) (field32 ent named) named

-- The entry's address, or 0, and the memory.
unfoldable pub initrd_readdir : ℕ → Node → ℕ → ℕ → ℕ → Bytes → Option (ℕ × Bytes)
unfolding copy_entry
initrd_readdir fuel node index made sb m = do
  inode ← inode_get node.inode sb m
  ent ← direntry_get fuel index inode sb m
  if (inode == 0) || (ent == 0) then some (0, m) else some (made, copy_entry made ent m)

-- `strlen(name) == ent->name_len && !strcmp(&ent->name, name)`.
unfoldable pub matches : ℕ → ℕ → ℕ → Bytes → Option Bool
matches fuel name ent m = do
  length ← strlen fuel name m
  if length == field16 (ent + 6) m
      then (strcmp fuel (ent + 8) name m >>= λ r. some (r == 0))
      else some false

-- The loop of `initrd_finddir`, at `index` of the block with `f` rounds left: the index of the entry
-- found, if one is.
unfoldable pub find_entry : ℕ → ℕ → ℕ → ℕ → ℕ → ℕ → Bytes → Option (Option ℕ)
unfolding matches
find_entry fuel zero block size name index m = none
find_entry fuel (suc f) block size name index m =
    let rest = find_entry fuel f block size name (u32 (index + field16 (block + index + 4) m)) m in
    if ltb index size
    then (matches fuel name (block + index) m >>= λ found.
        if found then some (some index) else rest)
    else some none

-- The node made for an entry, or none for a name of more than 128 bytes.
unfoldable pub make_node : ℕ → Operations → ℕ → ℕ → ℕ → Bytes → Option (Option (Node × Bytes))
make_node fuel ops ent made sb m = do
  inode ← inode_get (field32 ent m) sb m
  length ← strlen fuel (ent + 8) m
  copied ← strcpy fuel made (ent + 8) m
  if ltb 128 length
      then some none
      else some
          (some (fill_node ops ops.read_at made (field32 ent copied.1) inode copied.1, copied.1))

unfoldable pub made_or_null :
    ℕ → Operations → ℕ → ℕ → ℕ → Bytes → Option ℕ → Option (Option (Node × Bytes))
made_or_null fuel ops block made sb m none = some none
made_or_null fuel ops block made sb m (some index) = make_node fuel ops (block + index) made sb m

-- The search in the directory with the inode at `inode`; EXT2_IFDIR is bit 14 of its type.
unfoldable pub search_index : ℕ → ℕ → ℕ → ℕ → Bytes → Option (Option ℕ)
unfolding find_entry
search_index fuel inode name sb m =
    let block = inodeblock_get 0 inode sb m in
    if not (bit (field16 inode m) 14) || (block == 0)
    then some none
    else find_entry fuel fuel block (field32 (inode + 4) m) name 0 m

unfoldable pub search_dir : ℕ → Operations → ℕ → ℕ → ℕ → ℕ → Bytes → Option (Option (Node × Bytes))
unfolding search_index
search_dir fuel ops inode name made sb m = do
  found ← search_index fuel inode name sb m
  made_or_null fuel ops (inodeblock_get 0 inode sb m) made sb m found

-- `node` is not NULL. The result is a new node and the memory, or none for NULL.
unfoldable pub initrd_finddir :
    ℕ → Operations → Node → ℕ → ℕ → ℕ → Bytes → Option (Option (Node × Bytes))
initrd_finddir fuel ops node name made sb m = do
  inode ← inode_get node.inode sb m
  search_dir fuel ops inode name made sb m

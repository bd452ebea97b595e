-- ===== src/Initrd/Mount/Tests.antt =====
-- The trial of finding and reading a file, at a small volume: "dog" is found at the entry "cat", and two
-- bytes of it are read.
use comet_os.Base.{
  ◌*◌, ℕ, ◌+◌, ◌≤◌, ◌<◌, ◌≡◌, ◌⊎◌, inr, refl, arith, Option, some, none, ◌==◌, if◌then◌else◌,
}
use comet_os.Kmalloc.{Liballoc}
use comet_os.Libc.Mem.{Bytes, memcpy}
use comet_os.Libc.Text
use comet_os.Ext2.{field16, field32, block_get, numbered, block_size, inode_get, inodeblock_get}
use comet_os.Ext2.Content.{file_byte, block_number}
use comet_os.Vfs.{vfs_read, vfs_finddir}
use comet_os.Initrd.{search_index, search_dir, made_or_null, make_node, fill_node, initrd_finddir}
use comet_os.Initrd.Tests.{image, ops, root}
use comet_os.Initrd.Mount.{Mounted, call}
use comet_os.Initrd.Mount.Find.{Apart, vfs_finddir-vfs_read}

abbrev rising : Liballoc ℕ
rising = record {
  malloc = λ size l. (l, l + size);
  realloc = λ addr size l. (l, l + size);
  calloc = λ n size l. (l, l + n * size);
  free = λ addr l. l;
}

-- The inode 12 stands at 6528, with the block 9 that starts with "hi".
abbrev disk : Bytes
disk a = if a == 6568 then 9 else if a == 9216 then b'h' else if a == 9217 then b'i' else image a

abbrev mounted : Mounted ℕ
mounted = record {
  nodes = λ a. root;
  memory = disk;
  superblock = 1024;
  kernel = record { kernel_pointer = 0x9800; paging_state = 0; lib = 0 };
}

state_of : Option (Mounted ℕ) → Mounted ℕ
state_of none = mounted
state_of (some t) = t

abbrev found : ℕ × Option (Mounted ℕ)
found = vfs_finddir (call rising 11 ops) root.file 100 (some mounted)

abbrev after_find : Mounted ℕ
after_find = state_of found.1

finds : found ≡ (0xa000, some after_find)
unfolding vfs_finddir call state_of inode_get field32 search_index field16 inodeblock_get
    Text.strlen Text.strcmp initrd_finddir search_dir made_or_null make_node Text.strcpy memcpy
    fill_node
finds = refl

its_inode :
    inode_get (after_find.nodes 0xa000).inode after_find.superblock after_find.memory ≡ some 6528
unfolding vfs_finddir call state_of inode_get field32 search_index field16 inodeblock_get
    Text.strlen Text.strcmp initrd_finddir search_dir made_or_null make_node Text.strcpy memcpy
    fill_node
its_inode = refl

size_1024 : block_size after_find.superblock after_find.memory ≡ 1024
unfolding vfs_finddir call state_of inode_get field32 search_index field16 inodeblock_get
    Text.strlen Text.strcmp initrd_finddir search_dir made_or_null make_node Text.strcpy memcpy
    fill_node block_size
size_1024 = refl

number_9 : block_number 0 6528 after_find.superblock after_find.memory ≡ 9
unfolding vfs_finddir call state_of inode_get field32 search_index field16 inodeblock_get
    Text.strlen Text.strcmp initrd_finddir search_dir made_or_null make_node Text.strcpy memcpy
    fill_node block_size numbered block_get
number_9 = refl

at_1024 : after_find.superblock ≡ 1024
unfolding vfs_finddir call state_of inode_get field32 search_index field16 inodeblock_get
    Text.strlen Text.strcmp initrd_finddir search_dir made_or_null make_node Text.strcpy memcpy
    fill_node
at_1024 = refl

ops-Apart : Apart ops
unfolding Apart
ops-Apart = (λ e. omega arith, λ e. omega arith, λ e. omega arith)

vfs_finddir-vfs_read_example :
    (after : Bytes) × (vfs_read
        (call rising 11 ops)
        (after_find.nodes 0xa000).file
        0
        2
        0xd000
        (some after_find)
      ≡ (2, some (record after_find { memory = after })))
    × ((i : ℕ)
        → i < 2
        → after (0xd000 + i) ≡ file_byte 6528 after_find.superblock after_find.memory (0 + i))
    × ((a : ℕ) → (a < 0xd000) ⊎ (0xd000 + 2 ≤ a) → after a ≡ after_find.memory a)
vfs_finddir-vfs_read_example =
    vfs_finddir-vfs_read rising ops 10 0x9000 100 0xa000 0 2 0xd000 6528 mounted after_find
      ops-Apart refl refl finds (omega arith) its_inode (omega arith) (omega arith)
      (rw at_1024 (omega arith)) (rw at_1024 (omega arith)) (rw size_1024 (omega arith))
      (rw size_1024 (omega arith))
      (rw (size_1024, number_9) (omega arith, λ e. ground arith, λ h. absurd (omega arith)))
      (inr (rw (size_1024, number_9, at_1024) (omega arith)))

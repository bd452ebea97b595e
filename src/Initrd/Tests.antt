-- ===== src/Initrd/Tests.antt =====
-- The RAM disk's theorems at a small volume, whose root directory has the names "ab" and "cat".
use comet_os.Base.{
  ◌≤◌, ℕ, zero, suc, ◌+◌, ◌≡◌, ◌<◌, ◌≢◌, refl, arith, some, none, ◌==◌, bit, true, if◌then◌else◌,
}
use comet_os.Libc.Mem.{Bytes, memcpy}
use comet_os.Libc.Text.Spec.{IsString}
use comet_os.Ext2.{
  field16, field32, inode_get, inode_at, inodeblock_get, numbered, block_get, block_size,
  bg_des_get, blockgroup_get,
}
use comet_os.Ext2.Directory.{entry_offset}
use comet_os.Initrd.{Operations, Node, initrd_finddir}
use comet_os.Initrd.Search.{name_length, initrd_finddir-made}

-- The superblock stands at 1024, the root's inode at 5248, its block at 8192, and "dog" at 100.
abbrev pub image : Bytes
image a =
    if a == 100
    then b'd'
    else if a == 101
    then b'o'
    else if a == 102
    then b'g'
    else if a == 1024
    then 64
    else if a == 1028
    then 64
    else if a == 1056
    then 32
    else if a == 1064
    then 32
    else if a == 1112
    then 128
    else if a == 2056
    then 5
    else if a == 5249
    then 0x40
    else if a == 5253
    then 4
    else if a == 5288
    then 8
    else if a == 8192
    then 11
    else if a == 8196
    then 12
    else if a == 8198
    then 2
    else if a == 8200
    then b'a'
    else if a == 8201
    then b'b'
    else if a == 8204
    then 12
    else if a == 8208
    then 0xf4
    else if a == 8209
    then 3
    else if a == 8210
    then 3
    else if a == 8212
    then b'c'
    else if a == 8213
    then b'a'
    else if a == 8214
    then b't'
    else 0

abbrev pub ops : Operations
ops = record { read_at = 0x1000; readdir_at = 0x2000; finddir_at = 0x3000 }

abbrev pub root : Node
root = record {
  file = record {
    address = 0x9000;
    flag = 2;
    read = 0;
    write = 0;
    file_open = 0;
    close = 0;
    readdir = 0x2000;
    finddir = 0x3000;
  };
  mask = 0;
  uid = 0;
  gid = 0;
  inode = 2;
  size = 1024;
}

dog-IsString : IsString image 100 3
dog-IsString = record { full = full_dog; stop = refl }
  where
    full_dog : (i : ℕ) → i < 3 → image (100 + i) ≢ 0
    full_dog i h = ground arith

root_inode : inode_get 2 1024 image ≡ some 5248
unfolding inode_get inode_at bg_des_get blockgroup_get block_size field32 field16
root_inode = refl

root_type : bit (field16 5248 image) 14 ≡ true
unfolding field16
root_type = refl

root_size : field32 (5248 + 4) image ≡ 1024
unfolding field32
root_size = refl

root_block : inodeblock_get 0 5248 1024 image ≡ 8192
unfolding inodeblock_get numbered block_get block_size field32
root_block = refl

first_length : name_length 8192 image 0 ≡ 2
unfolding entry_offset field16
first_length = refl

second_length : name_length 8192 image 1 ≡ 3
unfolding entry_offset field16
second_length = refl

first_offset : entry_offset 8192 image 0 ≡ 0
unfolding entry_offset
first_offset = refl

ab_before :
    (j : ℕ)
    → j < 1
    → (entry_offset (inodeblock_get 0 5248 1024 image) image j < field32 (5248 + 4) image)
      × (name_length (inodeblock_get 0 5248 1024 image) image j ≢ 3)
ab_before zero h =
    rw (root_block, root_size, first_length, first_offset) (omega arith, λ e. omega arith)
ab_before (suc j) h = absurd (omega arith)

abbrev cat : ℕ
cat = inodeblock_get 0 5248 1024 image + entry_offset (inodeblock_get 0 5248 1024 image) image 1

second_offset : entry_offset 8192 image 1 ≡ 12
unfolding entry_offset field16
second_offset = refl

at_8204 : cat ≡ 8204
at_8204 = rw (root_block, second_offset) refl

cat-IsString : IsString image (cat + 8) 3
cat-IsString = rw (at_8204) (record { full = full_cat; stop = refl })
  where
    full_cat : (i : ℕ) → i < 3 → image (8212 + i) ≢ 0
    full_cat i h = ground arith

inode_12 : field32 8204 image ≡ 12
unfolding field32
inode_12 = refl

at_6528 : inode_get 12 1024 image ≡ some 6528
unfolding inode_get inode_at bg_des_get blockgroup_get block_size field32 field16
at_6528 = refl

-- "dog" is found at "cat".
initrd_finddir-made_example :
    (128 < 3 → initrd_finddir 10 ops root 100 0xa000 1024 image ≡ some none)
    × (3 ≤ 128
        → (found : Node) × (after : Bytes) × (initrd_finddir 10 ops root 100 0xa000 1024 image
            ≡ some (some (found, after)))
          × (found.file.address ≡ 0xa000)
          × (found.file.read ≡ ops.read_at)
          × (found.size ≡ field32 (6528 + 4) after)
          × (after ≡ (memcpy 0xa000 (cat + 8) 3 image).1))
initrd_finddir-made_example =
    initrd_finddir-made dog-IsString 10 (omega arith) ops root 5248 0xa000 1024 1 3 6528
      (omega arith) root_inode root_type (rw root_block (omega arith)) ab_before
      (rw (root_block, second_offset, root_size) (omega arith)) (rw root_block second_length)
      cat-IsString (omega arith) (rw (at_8204, inode_12) at_6528)

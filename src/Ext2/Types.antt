-- ===== src/Ext2/Types.antt =====
-- The file types of kernel/kernel/fs/ext2.c.
use comet_os.Base.{ℕ, ◌/◌, ◌^◌, ◌≡◌, arith}
use comet_os.Libc.Mem.{Bytes}
use comet_os.Ext2.{field16, inode_typetofile}

-- `ext2_inode_typetofile` reads the format in the upper four bits of the type: it tells pipes,
-- character devices, directories, block devices, files and links apart, whatever the lower twelve
-- bits are, and takes a socket for a file.
inode_typetofile-format :
    (inode : ℕ) (m : Bytes)
    → (field16 inode m / 2 ^ 12 ≡ 1 → inode_typetofile inode m ≡ 5)
      × (field16 inode m / 2 ^ 12 ≡ 2 → inode_typetofile inode m ≡ 3)
      × (field16 inode m / 2 ^ 12 ≡ 4 → inode_typetofile inode m ≡ 2)
      × (field16 inode m / 2 ^ 12 ≡ 6 → inode_typetofile inode m ≡ 4)
      × (field16 inode m / 2 ^ 12 ≡ 8 → inode_typetofile inode m ≡ 1)
      × (field16 inode m / 2 ^ 12 ≡ 10 → inode_typetofile inode m ≡ 6)
      × (field16 inode m / 2 ^ 12 ≡ 12 → inode_typetofile inode m ≡ 1)
unfolding inode_typetofile
inode_typetofile-format inode m = (
  λ h. ground arith,
  λ h. ground arith,
  λ h. ground arith,
  λ h. ground arith,
  λ h. ground arith,
  λ h. ground arith,
  λ h. ground arith,
)

-- ===== src/Ext2/Blocks.antt =====
-- What `ext2_read` of kernel/kernel/fs/ext2.c leaves of a file of several blocks.
use comet_os.Base.{if◌then◌else◌, ℕ, ◌+◌, ◌-◌, ◌≤◌, ◌<◌, ◌≡◌, ◌⊎◌, ◌==◌, if◌then◌else◌}
use comet_os.Libc.Mem.{Bytes}
use comet_os.Ext2.{block_size, inodeblock_get}
use comet_os.Ext2.Read.{Apart}

-- The twelve block numbers of an inode are outside the first `bs` bytes of the buffer.
abbrev pub ApartInode : ℕ → ℕ → ℕ → Type 0
ApartInode buffer bs inode = (buffer + bs ≤ inode + 40) ⊎ (inode + 88 ≤ buffer)

-- The block's data are outside the part of the buffer that is written.
abbrev pub ApartData : ℕ → ℕ → ℕ → Bytes → ℕ → Type 0
ApartData buffer inode sb m block =
    (inodeblock_get block inode sb m + block_size sb m ≤ buffer)
    ⊎ (buffer + block_size sb m ≤ inodeblock_get block inode sb m)

module _ (buffer inode sb r : ℕ) (m : Bytes) (apart : Apart buffer (block_size sb m) sb)
    (aside : ApartInode buffer (block_size sb m) inode) where
  -- The bytes in the buffer behind `k` whole blocks and `r` bytes more, from `block` on.
  abbrev Left : ℕ → ℕ → Bytes → Bytes → Type 0
  Left k block n after =
      ((i : ℕ) → i < r → after (buffer + i) ≡ m (inodeblock_get (block + k) inode sb m + i))
      × ((i : ℕ)
          → r ≤ i
          → i < block_size sb m
          → after (buffer + i) ≡ (
              if k == 0 then n (buffer + i) else m (inodeblock_get (block + k - 1) inode sb m + i)))

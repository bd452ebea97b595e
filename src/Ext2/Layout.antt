-- ===== src/Ext2/Layout.antt =====
-- The packed structures of kernel/include/kernel/fs/ext2.h, as the widths of their members in bytes,
-- in order; an array is one member. The members that ext2.c uses have names.
pub mod Superblock
use comet_os.Base.{
  inr, inl, Bool-cases, ◌/◌, ltb, ◌∙◌, sym, ap, ℕ, zero, suc, ◌+◌, inl, inr, ◌*◌, ◌/◌, ◌-◌, ltb,
  ltb→lt, ◌%◌, ◌^◌, ◌<◌, ◌≡◌, ◌≢◌, refl, arith, List, [], ◌∷◌, true, false, u32, sub32, ◌==◌, Bool,
  ◌&&◌, ◌||◌, leb, if◌then◌else◌,
}
use mathlib.Core.Path.{ap₂}
use comet_os.Libc.Mem.{Bytes, write}
use comet_os.Ext2.{
  block_get, numbered, inodeblock_get, field16, field32, block_size, superblock_validate,
  superblock_get, error, inode_at, blockgroup_get,
}

-- The number in `w` bytes from `a` on, the lowest first.
pub bytes_at : ℕ → ℕ → Bytes → ℕ
bytes_at zero a m = 0
bytes_at (suc w) a m = m a + 256 * bytes_at w (a + 1) m

-- The member `j` of a structure at `a`; 0 for none.
pub member : List ℕ → ℕ → ℕ → Bytes → ℕ
unfolding bytes_at
member [] j a m = 0
member (w ∷ ws) zero a m = bytes_at w a m % 2 ^ (8 * w)
member (w ∷ ws) (suc j) a m = member ws j (a + w) m

abbrev pub superblock_layout : List ℕ
superblock_layout =
    4 ∷ 4 ∷ 4 ∷ 4 ∷ 4 ∷ 4 ∷ 4 ∷ 4 ∷ 4 ∷ 4 ∷ 4 ∷ 4 ∷ 4 ∷ 2 ∷ 2 ∷ 2 ∷ 2 ∷ 2 ∷ 2 ∷ 4 ∷ 4 ∷ 4 ∷ 4 ∷ 2
    ∷ 2 ∷ 4 ∷ 2 ∷ 2 ∷ 4 ∷ 4 ∷ 4 ∷ 16 ∷ 16 ∷ 16 ∷ 4 ∷ 1 ∷ 1 ∷ 2 ∷ 16 ∷ 4 ∷ 4 ∷ 4 ∷ 16 ∷ 1 ∷ 2 ∷ 1 ∷ 4
    ∷ 4 ∷ 760 ∷ []

abbrev pub block_size_log : ℕ
block_size_log = 6

abbrev pub block_per_group : ℕ
block_per_group = 8

abbrev pub magic : ℕ
magic = 15

abbrev pub error_action : ℕ
error_action = 17

abbrev pub inode_size : ℕ
inode_size = 26

abbrev pub descriptor_layout : List ℕ
descriptor_layout = 4 ∷ 4 ∷ 4 ∷ 2 ∷ 2 ∷ 2 ∷ 2 ∷ 12 ∷ []

abbrev pub inode_table_addr : ℕ
inode_table_addr = 2

-- The twelve words of the member `block` have a layout of their own, as `block_indirect` has.
abbrev pub inode_layout : List ℕ
inode_layout = 2 ∷ 2 ∷ 4 ∷ 4 ∷ 4 ∷ 4 ∷ 4 ∷ 2 ∷ 2 ∷ 4 ∷ 4 ∷ 4 ∷ 48 ∷ 8 ∷ 4 ∷ 4 ∷ 4 ∷ 4 ∷ 12 ∷ []

abbrev pub block_array : ℕ
block_array = 12

abbrev pub block_indirect : ℕ
block_indirect = 13

pub words : ℕ → List ℕ
words zero = []
words (suc n) = 4 ∷ words n

-- The address of the member `j` of a structure at `a`.
abbrev pub start : List ℕ → ℕ → ℕ → ℕ
start [] j a = a
start (w ∷ ws) zero a = a
start (w ∷ ws) (suc j) a = start ws j (a + w)

pub field16-bytes : (a b : ℕ) (m : Bytes) → a ≡ b → field16 a m ≡ bytes_at 2 b m % 2 ^ (8 * 2)
unfolding field16 bytes_at
field16-bytes a b m at = rw (sym at) (omega arith)

field32-bytes : (a b : ℕ) (m : Bytes) → a ≡ b → field32 a m ≡ bytes_at 4 b m % 2 ^ (8 * 4)
unfolding field32 bytes_at
field32-bytes a b m at =
    let second : a + 1 + 1 ≡ a + 2 = omega arith in
    let third : a + 2 + 1 ≡ a + 3 = omega arith in rw (sym at, second, third) (omega arith)

words-member :
    (n k a b : ℕ) (m : Bytes) → k < n → b ≡ a + 4 * k → member (words n) k a m ≡ field32 b m
unfolding member words
words-member zero k a b m inside at = omega arith
words-member (suc n) zero a b m inside at = sym (field32-bytes b a m (omega arith))
words-member (suc n) (suc k) a b m inside at =
    words-member n k (a + 4) b m (omega arith) (omega arith)

-- The block that the members of an inode give for an index.
pub inodeblock : ℕ → ℕ → ℕ → Bytes → ℕ
inodeblock block inode sb m =
    let first = member (words 2) 0 (start inode_layout block_indirect inode) m in
    if ltb block 12
    then numbered (member (words 12) block (start inode_layout block_array inode) m) sb m
    else if ltb block (12 + block_size sb m / 4)
    then numbered (field32 (block_get first sb m + u32 (4 * (block - 12))) m) sb m
    else 0

inodeblock_get-member :
    (block inode sb : ℕ) (m : Bytes) → inodeblock_get block inode sb m ≡ inodeblock block inode sb m
unfolding inodeblock_get inodeblock
inodeblock_get-member block inode sb m = elim (Bool-cases (ltb block 12)) [
  | inl direct ↦
      rw (inodeblock_get, inodeblock, direct)
        (ap (λ x. numbered x sb m)
          (sym (
            words-member 12 block (start inode_layout block_array inode) (inode + 40 + 4 * block) m
              (ltb→lt block 12 direct) (omega arith))))
  | inr far ↦
      let at = start inode_layout block_indirect inode in
      let first : field32 (inode + 88) m ≡ member (words 2) 0 at m =
        sym (words-member 2 0 at (inode + 88) m (omega arith) (omega arith)) in
      rw (inodeblock_get, inodeblock, far, first) refl
]

-- These operations read the members that the structures of ext2.h have for them: the size of a block is that of `block_size_log`, the magic number
-- and the action on an error are at theirs, a block group has `block_per_group` blocks, and an inode
-- stands in the table at `inode_table_addr`, with `inode_size` bytes for each, and has the numbers of its
-- blocks in the twelve words of `block`, and then in the block of the first word of `block_indirect`.
operations-member :
    (sb des group index block inode : ℕ) (m : Bytes)
    → let super = λ (j : ℕ). member superblock_layout j sb m in
      (block_size sb m ≡ u32 (1024 * 2 ^ super block_size_log))
      × (superblock_validate sb m ≡ (if super magic == 0xef53 then 1 else 0))
      × (error sb m ≡ (super error_action == 3))
      × (blockgroup_get group sb m
          ≡ u32 (
              sub32 sb (block_size sb m)
              + u32 (u32 (block_size sb m * super block_per_group) * group)))
      × (inode_at des index sb m
          ≡ u32 (
              u32 (
                sb
                + sub32
                    (u32 (block_size sb m * member descriptor_layout inode_table_addr des m))
                    1024)
              + super inode_size * index))
      × (inodeblock_get block inode sb m ≡ inodeblock block inode sb m)
unfolding member block_size superblock_validate error blockgroup_get inode_at
operations-member sb des group index block inode m =
    let bs = block_size sb m in
    (
      ap (λ x. u32 (1024 * 2 ^ x)) (field32-bytes _ _ m (omega arith)),
      ap (λ x. if x == 0xef53 then 1 else 0) (field16-bytes _ _ m (omega arith)),
      ap (λ x. x == 3) (field16-bytes _ _ m (omega arith)),
      ap (λ x. u32 (sub32 sb bs + u32 (u32 (bs * x) * group))) (field32-bytes _ _ m (omega arith)),
      ap₂ (λ x y. u32 (u32 (sb + sub32 (u32 (bs * x)) 1024) + y * index))
          (field32-bytes _ _ m (omega arith)) (field16-bytes _ _ m (omega arith)),
      inodeblock_get-member block inode sb m,
    )

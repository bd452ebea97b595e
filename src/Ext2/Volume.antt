-- ===== src/Ext2/Volume.antt =====
-- Where kernel/kernel/fs/ext2.c looks for descriptors, inodes and blocks.
use comet_os.Base.{
  if◌then◌else◌, ℕ, ◌+◌, ◌-◌, ◌*◌, ◌/◌, ◌%◌, ◌^◌, ◌≤◌, ◌<◌, ◌≡◌, ◌↔◌, refl, arith, ◌||◌, true,
  false, ap, ◌∙◌, some, leb, ltb, ◌==◌, u32, sub32,
}
use native.Mathlib.Nat.{div-eq_of_lt-le, div-add-mod', le-div_iff_mul-le, div-lt_iff_lt-mul}
use comet_os.Libc.Mem.{Bytes}
use comet_os.Ext2.{field16, field32, block_size, blockgroup_get, bg_des_get, inode_at, inode_get}

-- The descriptors stand in the block behind that of the superblock, which stands 1024 bytes behind
-- the start of the volume.
abbrev pub descriptors : ℕ → ℕ → ℕ
descriptors start bs = if leb bs 1024 then start + 2048 else start + bs

-- For a superblock at `start + 1024` and a block size of 1024 or more, on a volume below 2 GB,
-- `ext2_bg_des_get` finds the descriptor of group 0 just when the block size is 1024.
bg_des_get-descriptors :
    (start : ℕ) (m : Bytes)
    → start < 2 ^ 31
    → 1024 ≤ block_size (start + 1024) m
    → block_size (start + 1024) m < 2 ^ 30
    → (bg_des_get 0 (start + 1024) m ≡ descriptors start (block_size (start + 1024) m))
      ↔ (block_size (start + 1024) m ≡ 1024)
unfolding bg_des_get blockgroup_get
bg_des_get-descriptors start m hs lo hi = ground arith

group_of : (n p group index : ℕ) → n ≡ group * p + index + 1 → index < p → (n - 1) / p ≡ group
group_of n p group index e l =
    let more : (group + 1) * p ≡ group * p + p = nonlinear group p in
    div-eq_of_lt-le {k = group} p (omega arith) (omega arith)
  where
    nonlinear : (a b : ℕ) → (a + 1) * b ≡ a * b + b
    nonlinear a b = omega arith

index_of : (n p group index : ℕ) → n ≡ group * p + index + 1 → index < p → (n - 1) % p ≡ index
index_of n p group index e l =
    let whole = div-add-mod' (n - 1) p in
    let q : (n - 1) / p * p ≡ group * p = ap (λ x. x * p) (group_of n p group index e l) in
    omega arith

-- The last line of `ext2_inode_get`, without the steps between.
at_place :
    (bg_des index sb : ℕ) (m : Bytes)
    → inode_at bg_des index sb m
      ≡ u32 (sub32 sb 1024 + block_size sb m * field32 (bg_des + 8) m + field16 (sb + 88) m * index)
unfolding inode_at
at_place bg_des index sb m =
    wrapped sb (block_size sb m * field32 (bg_des + 8) m) (field16 (sb + 88) m * index)
  where
    wrapped : (a x y : ℕ) → u32 (u32 (a + sub32 (u32 x) 1024) + y) ≡ u32 (sub32 a 1024 + x + y)
    wrapped a x y = omega arith

-- Where the code reads a group's descriptor: two blocks behind the block that is as far behind the
-- block before the superblock as the groups before this one are long.
abbrev pub descriptor_place : ℕ → ℕ → Bytes → ℕ
descriptor_place group sb m = u32 (
    sub32 sb (block_size sb m)
    + u32 (block_size sb m * field32 (sb + 32) m) * group
    + 2 * block_size sb m)

bg_des_get-place : (group sb : ℕ) (m : Bytes) → bg_des_get group sb m ≡ descriptor_place group sb m
unfolding bg_des_get blockgroup_get
bg_des_get-place group sb m =
    wrapped (sub32 sb (block_size sb m)) (u32 (block_size sb m * field32 (sb + 32) m) * group)
      (block_size sb m)
  where
    wrapped : (a x b : ℕ) → u32 (u32 (a + u32 x) + u32 (b * 2)) ≡ u32 (a + x + 2 * b)
    wrapped a x b = omega arith

-- `ext2_inode_get` of an inode from 1 on, where both sizes of a group are positive, gives NULL above
-- the total. Up to it, for the inode's group and its index there, it gives NULL when the group is
-- above the number of groups, and otherwise the address of the inode in a table: 1024 bytes before
-- the superblock, the blocks before the table, and the size of an inode for each inode of the group
-- before this one. The table's block is the word 8 bytes behind an address two blocks behind the one
-- that stands, for each group before this one, a group's blocks behind the block size before the
-- superblock.
pub inode_get_place :
    (inode sb : ℕ) (m : Bytes)
    → 0 < inode
    → inode < 2 ^ 32
    → 0 < field32 (sb + 40) m
    → 0 < field32 (sb + 32) m
    → (field32 sb m < inode → inode_get inode sb m ≡ some 0)
      × ((group index : ℕ)
          → inode ≡ group * field32 (sb + 40) m + index + 1
          → index < field32 (sb + 40) m
          → inode ≤ field32 sb m
          → (group * field32 (sb + 32) m ≤ field32 (sb + 4) m
              → inode_get inode sb m
                ≡ some (
                    u32 (
                      sub32 sb 1024
                      + block_size sb m * field32 (descriptor_place group sb m + 8) m
                      + field16 (sb + 88) m * index)))
            × (field32 (sb + 4) m < group * field32 (sb + 32) m → inode_get inode sb m ≡ some 0))
unfolding inode_get
inode_get_place inode sb m hi hw hp hg = (
  λ above. ground arith,
  λ group index e l le.
      let p = field32 (sb + 40) m in
      let g = field32 (sb + 32) m in
      let before : sub32 inode 1 ≡ inode - 1 = omega arith in
      let q : sub32 inode 1 / p ≡ group =
        ap (λ x. x / p) before ∙ group_of inode p group index e l in
      let r : sub32 inode 1 % p ≡ index =
        ap (λ x. x % p) before ∙ index_of inode p group index e l in
      let bound = le-div_iff_mul-le {k = g} {x = group} {y = field32 (sb + 4) m} hg in
      let under = div-lt_iff_lt-mul {k = g} {x = field32 (sb + 4) m} {y = group} hg in
      let below : ltb (field32 sb m) inode ≡ false = ground arith in
      let divides : ((p == 0) || (g == 0)) ≡ false = ground arith in
      (
        λ fits.
            let inside : ltb (field32 (sb + 4) m / g) group ≡ false =
              ground (arith, bound.1 fits) in
            rw (inode_get, q, r, below, divides, inside)
              (ap some (
                at_place (bg_des_get group sb m) index sb m
                ∙ ap
                    (λ d. u32 (
                      sub32 sb 1024
                      + block_size sb m * field32 (d + 8) m
                      + field16 (sb + 88) m * index))
                    (bg_des_get-place group sb m))),
        λ beyond.
            let outside : ltb (field32 (sb + 4) m / g) group ≡ true =
              ground (arith, under.1 beyond) in
            rw (inode_get, q, below, divides, outside) refl,
      ),
)

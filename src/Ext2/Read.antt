-- ===== src/Ext2/Read.antt =====
-- How `ext2_read` of kernel/kernel/fs/ext2.c copies a file.
use comet_os.Base.{
  ◌!=◌, ◌&&◌, if◌then◌else◌, ℕ, zero, suc, ◌+◌, ◌-◌, ◌/◌, ◌%◌, ◌^◌, ◌≤◌, ◌<◌, ◌≡◌, ◌⊎◌, inl, inr,
  refl, ◌∙◌, arith, some, false, leb, ◌==◌, ◌||◌, if◌then◌else◌, sub32, Bool-cases,
}
use comet_os.Libc.Mem.{Bytes, memcpy}
use comet_os.Libc.Mem.Move.{memcpy_outside}
use comet_os.Ext2.{field32, block_size, inodeblock_get, read_from, read}

pub block_size_same :
    (sb : ℕ) (n m : Bytes)
    → ((a : ℕ) → sb + 24 ≤ a → a < sb + 28 → n a ≡ m a)
    → block_size sb n ≡ block_size sb m
unfolding block_size field32
block_size_same sb n m h =
    rw
      (
        h (sb + 24) (omega arith) (omega arith),
        h (sb + 24 + 1) (omega arith) (omega arith),
        h (sb + 24 + 2) (omega arith) (omega arith),
        h (sb + 24 + 3) (omega arith) (omega arith),
      )
      refl

pub block_size_bound : (sb : ℕ) (m : Bytes) → block_size sb m < 2 ^ 32
unfolding block_size
block_size_bound sb m = omega arith

-- The block size does not lie in the first `bs` bytes of the buffer.
abbrev pub Apart : ℕ → ℕ → ℕ → Type 0
Apart buffer bs sb = (buffer + bs ≤ sb + 24) ⊎ (sb + 28 ≤ buffer)

-- Outside the first `bs` bytes of the buffer both memories are the same.
abbrev pub SameOutside : ℕ → ℕ → Bytes → Bytes → Type 0
SameOutside buffer bs n m = (a : ℕ) → (a < buffer) ⊎ (buffer + bs ≤ a) → n a ≡ m a

read_from_ends :
    (f block block_offset index buffer inode sb : ℕ) (m : Bytes)
    → index < f
    → block_offset < block_size sb m
    → Apart buffer (block_size sb m) sb
    → (after : Bytes) × (read_from f block block_offset index buffer inode sb m ≡ some after)
      × SameOutside buffer (block_size sb m) after m
unfolding read_from
read_from_ends zero block bo index buffer inode sb m h l apart = ground arith
read_from_ends (suc f) block bo index buffer inode sb m h l apart =
    let bs = block_size sb m in
    let part = sub32 bs bo in
    let bound : bs < 2 ^ 32 = block_size_bound sb m in
    let e : part ≡ bs - bo = omega arith in
    let from = inodeblock_get block inode sb m + bo in
    elim (Bool-cases (leb index part)) [
      | inl last ↦ (
        (memcpy buffer from index m).1,
        rw (read_from, last) refl,
        λ a out. memcpy_outside buffer from index m a (ground arith),
      )
      | inr more ↦
          let m2 = (memcpy buffer from part m).1 in
          let outside : SameOutside buffer bs m2 m =
            λ a out. memcpy_outside buffer from part m a (ground arith) in
          let same : block_size sb m2 ≡ bs =
            block_size_same sb m2 m (λ a lo hi. outside a (ground arith)) in
          let next =
            read_from_ends f ((block + 1) % 2 ^ 32) 0 (index - part) buffer inode sb m2
              (ground arith) (ground arith) (rw same apart) in
          (next.0, rw (read_from, more) next.1, λ a out. next.2 a (rw same out) ∙ outside a out)
    ]

-- With more fuel than bytes asked for, a positive block size, pointers that are not NULL and a
-- buffer whose first block does not hold the block size, `ext2_read` ends and returns the size; but
-- it has written at most the first `block size` bytes of the buffer, since each block is copied to
-- the buffer's start.
read_ends :
    (fuel offset buffer size inode sb : ℕ) (m : Bytes)
    → size < fuel
    → 0 < block_size sb m
    → Apart buffer (block_size sb m) sb
    → 0 < buffer
    → 0 < inode
    → 0 < sb
    → (after : Bytes) × (read fuel offset buffer size inode sb m ≡ some (size, after))
      × SameOutside buffer (block_size sb m) after m
unfolding read
read_ends fuel offset buffer size inode sb m h l apart hb hi hs =
    let bs = block_size sb m in
    let block = if offset == 0 then 0 else offset / bs in
    let bo = if offset == 0 then 0 else offset % bs in
    let run = read_from_ends fuel block bo size buffer inode sb m h (ground arith) apart in
    let given : ((buffer == 0) || ((inode == 0) || (sb == 0))) ≡ false = ground arith in
    let divides : ((offset != 0) && (bs == 0)) ≡ false = ground arith in
    (run.0, rw (given, divides, run.1) refl, run.2)

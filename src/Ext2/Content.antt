-- ===== src/Ext2/Content.antt =====
-- The bytes that `ext2_read` of kernel/kernel/fs/ext2.c returns.
use native.Mathlib.Nat.{div-eq_of_lt-le, div-add-mod', zero-div, zero-mod}
use mathlib.Core.Path.{ap₂}
use comet_os.Base.{
  ◌^◌, ℕ, suc, ◌+◌, ◌-◌, ◌*◌, ◌/◌, ◌%◌, ◌≤◌, ◌<◌, ◌≡◌, ◌⊎◌, refl, sym, ap, ◌∙◌, arith, some, leb,
  ◌==◌, ◌||◌, if◌then◌else◌, sub32, true, false, ltb, u32, ◌!=◌, ◌&&◌, ◌≢◌, Bool-cases, inl, inr,
}
use comet_os.Libc.Mem.{Bytes, memcpy}
use comet_os.Libc.Mem.Move.{memcpy-copied, memcpy_outside}
use comet_os.Ext2.Read.{block_size_bound}
use comet_os.Ext2.{block_size, inodeblock_get, read_from, read, field32, block_get, numbered}

-- Where a block of the volume stands: the superblock is 1024 bytes behind the volume's start.
abbrev pub block_place : ℕ → ℕ → Bytes → ℕ
block_place n sb m = u32 (sb - 1024 + block_size sb m * n)

-- The number of the block `q` of a file: the inode has those of the first twelve, and its next
-- number names the block that has the further ones.
abbrev pub block_number : ℕ → ℕ → ℕ → Bytes → ℕ
block_number q inode sb m =
    if ltb q 12
    then field32 (inode + 40 + 4 * q) m
    else field32 (block_place (field32 (inode + 88) m) sb m + 4 * (q - 12)) m

-- The block is one of those, and it is there.
abbrev pub HasBlock : ℕ → ℕ → ℕ → Bytes → Type 0
HasBlock q inode sb m =
    (q < 12 + block_size sb m / 4)
    × (block_number q inode sb m ≢ 0)
    × (12 ≤ q → field32 (inode + 88) m ≢ 0)

-- Where the byte of a file at a position stands.
abbrev pub file_place : ℕ → ℕ → ℕ → Bytes → ℕ
file_place k inode sb m =
    block_place (block_number (k / block_size sb m) inode sb m) sb m + k % block_size sb m

-- The byte of a file at a position.
abbrev pub file_byte : ℕ → ℕ → Bytes → ℕ → ℕ
file_byte inode sb m k = m (file_place k inode sb m)

block_get-place :
    (n sb : ℕ) (m : Bytes) → n ≢ 0 → 1024 ≤ sb → sb < 2 ^ 32 → block_get n sb m ≡ block_place n sb m
unfolding block_get
block_get-place n sb m there lo hi =
    let test : leb n 0 ≡ false = ground arith in rw (test) (wrapped sb (block_size sb m * n) lo hi)
  where
    wrapped : (a x : ℕ) → 1024 ≤ a → a < 2 ^ 32 → u32 (sub32 a 1024 + u32 x) ≡ u32 (a - 1024 + x)
    wrapped a x lo hi = omega arith

numbered-place :
    (n sb : ℕ) (m : Bytes) → n ≢ 0 → 1024 ≤ sb → sb < 2 ^ 32 → numbered n sb m ≡ block_place n sb m
unfolding numbered
numbered-place n sb m there lo hi =
    let test : (n == 0) ≡ false = ground arith in rw (test) (block_get-place n sb m there lo hi)

inodeblock_get-place :
    (q inode sb : ℕ) (m : Bytes)
    → 1024 ≤ sb
    → sb < 2 ^ 32
    → HasBlock q inode sb m
    → inodeblock_get q inode sb m ≡ block_place (block_number q inode sb m) sb m
unfolding inodeblock_get
inodeblock_get-place q inode sb m lo hi (known, there, indirect) = elim (Bool-cases (ltb q 12)) [
  | inl direct ↦
      rw (direct)
        (numbered-place (field32 (inode + 40 + 4 * q) m) sb m (rw (direct) at there) lo hi)
  | inr further ↦
      let small = block_size_bound sb m in
      let test : ltb q (12 + block_size sb m / 4) ≡ true = ground arith in
      let index : u32 (4 * (q - 12)) ≡ 4 * (q - 12) = omega arith in
      let list = block_get-place (field32 (inode + 88) m) sb m (indirect (ground arith)) lo hi in
      rw (further, test, index, list)
        (numbered-place (field32 (block_place (field32 (inode + 88) m) sb m + 4 * (q - 12)) m) sb m
          (rw (further) at there) lo hi)
]

-- Positions of one block.
same_block :
    (k i bs : ℕ) → 0 < bs → k % bs + i < bs → ((k + i) / bs ≡ k / bs) × ((k + i) % bs ≡ k % bs + i)
same_block k i bs h inside =
    let whole = div-add-mod' k bs in
    let whole' = div-add-mod' (k + i) bs in
    let block : (k + i) / bs ≡ k / bs =
      div-eq_of_lt-le {k = k / bs} bs (omega arith) (omega arith) in
    (block, omega (arith, ap (λ q. q * bs) block))

-- Take a superblock at 1024 or behind it, below 2 ^ 32, a positive block size, pointers that are not
-- NULL, and bytes that lie in one block of a file, which is one of the first twelve or one whose
-- number stands in the inode's indirect block, and is no hole. Where they are read from a place whose
-- copying does not overwrite them, `ext2_read` returns their number and leaves the bytes of the file
-- in the buffer, and all other memory as it was.
pub read-file_byte :
    (f offset buffer size inode sb : ℕ) (m : Bytes)
    → 0 < buffer
    → 0 < inode
    → 1024 ≤ sb
    → sb < 2 ^ 32
    → 0 < block_size sb m
    → offset % block_size sb m + size ≤ block_size sb m
    → HasBlock (offset / block_size sb m) inode sb m
    → (buffer ≤ file_place offset inode sb m) ⊎ (file_place offset inode sb m + size ≤ buffer)
    → (after : Bytes) × (read (suc f) offset buffer size inode sb m ≡ some (size, after))
      × ((i : ℕ) → i < size → after (buffer + i) ≡ file_byte inode sb m (offset + i))
      × ((a : ℕ) → (a < buffer) ⊎ (buffer + size ≤ a) → after a ≡ m a)
unfolding read read_from
read-file_byte f offset buffer size inode sb m hb hi lo hs pos fits has apart =
    let bs = block_size sb m in
    let small = block_size_bound sb m in
    let given : ((buffer == 0) || ((inode == 0) || (sb == 0))) ≡ false = ground arith in
    let divides : ((offset != 0) && (bs == 0)) ≡ false = ground arith in
    let block : (if offset == 0 then 0 else offset / bs) ≡ offset / bs =
      ground (arith, zero-div bs) in
    let start : (if offset == 0 then 0 else offset % bs) ≡ offset % bs =
      ground (arith, zero-mod bs) in
    let last : leb size (sub32 bs (offset % bs)) ≡ true = ground arith in
    let here = inodeblock_get-place (offset / bs) inode sb m lo hs has in
    let from = file_place offset inode sb m in
    (
      (memcpy buffer from size m).1,
      rw (given, divides, block, start, read_from, last, here) refl,
      λ i h.
          let (same, further) = same_block offset i bs pos (omega arith) in
          let there : from + (buffer + i - buffer)
              ≡ block_place (block_number (offset / bs) inode sb m) sb m + (offset % bs + i) =
            omega arith in
          (memcpy-copied buffer from size m (buffer + i) apart).1
          ∙ ground arith
          ∙ ap m there
          ∙ ap₂ (λ q r. m (block_place (block_number q inode sb m) sb m + r)) (sym same)
              (sym further),
      λ a out. memcpy_outside buffer from size m a out,
    )

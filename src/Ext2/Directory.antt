-- ===== src/Ext2/Directory.antt =====
-- The walk over the entries of a directory, `ext2_direntry_get` of kernel/kernel/fs/ext2.c.
use comet_os.Base.{
  ℕ, zero, suc, ◌+◌, ◌-◌, ◌≤◌, ◌<◌, ◌≡◌, refl, sym, ap, ◌∙◌, arith, Option, none, some, true, false,
  ltb, leb, u32,
}
use mathlib.Core.Path.{subst, ap₂}
use native.Mathlib.Decide.{dec_lt}
use comet_os.Libc.Mem.{Bytes}
use comet_os.Ext2.{field16, field32, block_size, inodeblock_get, direntry_from, direntry_get}

-- Where the entry with a number starts in a block, by the lengths of those before it.
unfoldable pub entry_offset : ℕ → Bytes → ℕ → ℕ
entry_offset block m zero = 0
entry_offset block m (suc k) =
    u32 (entry_offset block m k + field16 (block + entry_offset block m k + 4) m)

pub entry_offset_next :
    (block : ℕ) (m : Bytes) (k : ℕ)
    → entry_offset block m (k + 1)
      ≡ u32 (entry_offset block m k + field16 (block + entry_offset block m k + 4) m)
unfolding entry_offset
entry_offset_next block m k =
    let e : suc k ≡ k + 1 = omega arith in
    subst
      (λ x.
        entry_offset block m x
        ≡ u32 (entry_offset block m k + field16 (block + entry_offset block m k + 4) m))
      e refl

-- The entries below `n` start in the first block and not behind the directory's size.
abbrev pub StartInside : ℕ → ℕ → ℕ → Bytes → Type 0
StartInside n inode sb m =
    (k : ℕ)
    → k < n
    → (entry_offset (inodeblock_get 0 inode sb m) m k < block_size sb m)
      × (entry_offset (inodeblock_get 0 inode sb m) m k ≤ field32 (inode + 4) m)

-- One round over an entry that starts inside.
entry_step :
    (f n i index inode sb : ℕ) (m : Bytes)
    → StartInside n inode sb m
    → i < n
    → i < index
    → direntry_from (suc f) index inode sb m i (entry_offset (inodeblock_get 0 inode sb m) m i) 0
      ≡ direntry_from f index inode sb m
          (i + 1)
          (entry_offset (inodeblock_get 0 inode sb m) m (i + 1))
          0
unfolding direntry_from
entry_step f n i index inode sb m inside l h =
    let block = inodeblock_get 0 inode sb m in
    let o = entry_offset block m i in
    let more : ltb i index ≡ true = ground arith in
    let sized : ltb (field32 (inode + 4) m) o ≡ false = ground (arith, (inside i l).1) in
    let here : leb (block_size sb m) o ≡ false = ground (arith, (inside i l).0) in
    rw (direntry_from, more, sized, here)
      (ap (λ x. direntry_from f index inode sb m (i + 1) x 0) (sym (entry_offset_next block m i)))

-- The loop with `f` rounds left at the entry `i` of the first block.
abbrev at_entry : ℕ → ℕ → ℕ → ℕ → ℕ → Bytes → Option ℕ
at_entry f i index inode sb m =
    direntry_from f index inode sb m i (entry_offset (inodeblock_get 0 inode sb m) m i) 0

walk :
    (d f t n i j index inode sb : ℕ) (m : Bytes)
    → StartInside n inode sb m
    → t ≡ d + f
    → j ≡ i + d
    → j ≤ n
    → j ≤ index
    → at_entry t i index inode sb m ≡ at_entry f j index inode sb m
walk zero f t n i j index inode sb m inside e g l h =
    let same : t ≡ f = omega arith in
    let here : i ≡ j = omega arith in ap₂ (λ x y. at_entry x y index inode sb m) same here
walk (suc d) f t n i j index inode sb m inside e g l h =
    let one_more : t ≡ suc (d + f) = omega arith in
    ap (λ x. at_entry x i index inode sb m) one_more
    ∙ entry_step (d + f) n i index inode sb m inside (omega arith) (omega arith)
    ∙ walk d f (d + f) n (i + 1) j index inode sb m inside refl (omega arith) l h

-- From an offset at or behind the block's end, and not behind the directory's size, no fuel
-- suffices.
stuck :
    (f i offset block_number index inode sb : ℕ) (m : Bytes)
    → i < index
    → offset ≤ field32 (inode + 4) m
    → block_size sb m ≤ offset
    → direntry_from f index inode sb m i offset block_number ≡ none
unfolding direntry_from
stuck zero i offset block_number index inode sb m h l g = refl
stuck (suc f) i offset block_number index inode sb m h l g =
    let more : ltb i index ≡ true = ground arith in
    let sized : ltb (field32 (inode + 4) m) offset ≡ false = ground arith in
    let over : leb (block_size sb m) offset ≡ true = ground arith in
    rw (direntry_from, more, sized, over)
      (stuck f i offset (u32 (block_number + 1)) index inode sb m h l g)

found :
    (f index inode sb : ℕ) (m : Bytes)
    → at_entry (suc f) index index inode sb m
      ≡ some
          (u32 (inodeblock_get 0 inode sb m + entry_offset (inodeblock_get 0 inode sb m) m index))
unfolding direntry_from
found f index inode sb m =
    let last : ltb index index ≡ false = ground arith in rw (direntry_from, last) refl

start :
    (fuel index inode sb : ℕ) (m : Bytes)
    → direntry_get fuel index inode sb m ≡ at_entry fuel 0 index inode sb m
unfolding direntry_get entry_offset
start fuel index inode sb m = refl

direntry_get_walk :
    (fuel index inode sb : ℕ) (m : Bytes)
    → index < fuel
    → StartInside index inode sb m
    → direntry_get fuel index inode sb m
      ≡ some
          (u32 (inodeblock_get 0 inode sb m + entry_offset (inodeblock_get 0 inode sb m) m index))
direntry_get_walk fuel index inode sb m h inside =
    start fuel index inode sb m
    ∙ walk index (suc (fuel - suc index)) fuel index 0 index index inode sb m inside (omega arith)
        (omega arith) (omega arith) (omega arith)
    ∙ found (fuel - suc index) index inode sb m

direntry_get_endless :
    (fuel n index inode sb : ℕ) (m : Bytes)
    → n < index
    → StartInside n inode sb m
    → block_size sb m ≤ entry_offset (inodeblock_get 0 inode sb m) m n
    → entry_offset (inodeblock_get 0 inode sb m) m n ≤ field32 (inode + 4) m
    → direntry_get fuel index inode sb m ≡ none
unfolding direntry_from
direntry_get_endless fuel n index inode sb m h inside past sized =
    start fuel index inode sb m ∙ elim (dec_lt fuel n) [
      | yes short ↦
          walk fuel 0 fuel n 0 fuel index inode sb m inside (omega arith) (omega arith)
            (omega arith) (omega arith)
          ∙ spent fuel index inode sb m
      | no enough ↦
          walk n (fuel - n) fuel n 0 n index inode sb m inside (omega arith) (omega arith)
            (omega arith) (omega arith)
          ∙ stuck (fuel - n) n (entry_offset (inodeblock_get 0 inode sb m) m n) 0 index inode sb m h
              sized past
    ]
  where
    spent : (i index inode sb : ℕ) (m : Bytes) → at_entry 0 i index inode sb m ≡ none
    spent i index inode sb m = refl

-- Let the `n` entries of a directory's first block start in it and not behind the directory's size,
-- and the offset behind the last of them be the block's end or behind it, but not behind the size.
-- Then `ext2_direntry_get`, with more fuel than the index, gives for an index below `n` the address of
-- this entry in the block, at the sum of the lengths of those before it; for the index `n` an address
-- that is as far behind the block's start as that offset, so not in the block; and for an index above
-- `n`, with any fuel, no result: it does not end, since the offset is not set back when the next
-- block is taken.
pub direntry_get_entries :
    (fuel n index inode sb : ℕ) (m : Bytes)
    → StartInside n inode sb m
    → block_size sb m ≤ entry_offset (inodeblock_get 0 inode sb m) m n
    → entry_offset (inodeblock_get 0 inode sb m) m n ≤ field32 (inode + 4) m
    → (index < fuel
        → index ≤ n
        → direntry_get fuel index inode sb m
          ≡ some (
              u32
                (inodeblock_get 0 inode sb m + entry_offset (inodeblock_get 0 inode sb m) m index)))
      × (n < index → direntry_get fuel index inode sb m ≡ none)
direntry_get_entries fuel n index inode sb m inside past sized = (
  λ enough le. direntry_get_walk fuel index inode sb m enough (λ k h. inside k (omega arith)),
  λ above. direntry_get_endless fuel n index inode sb m above inside past sized,
)

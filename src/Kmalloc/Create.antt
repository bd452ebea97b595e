-- ===== src/Kmalloc/Create.antt =====
-- `bitmap_create` of kernel/kernel/array.c.
use comet_os.Base.{ℕ, ◌+◌, ◌*◌, ◌^◌, ◌≤◌, ◌<◌, ◌≡◌, arith}
use comet_os.Bitmap.Fill.{map_lem}
use comet_os.Kmalloc.{Liballoc, Kernel, kmalloc, bitmap_create}

module _ {L : Type 0} (lib : Liballoc L) (size : ℕ) (words : ℕ → ℕ) (k : Kernel L) where
  -- A new bitmap has the size asked for, all of its entries are 0, and the words behind them are
  -- as they were.
  pub bitmap_create_clear :
      (j : ℕ)
      → let b = (bitmap_create lib size words k).bitmap in
        (b.size ≡ size) × (j < size → b.entries j ≡ 0) × (size ≤ j → b.entries j ≡ words j)
  unfolding bitmap_create
  bitmap_create_clear j =
      let clear = map_lem 0 size 0 (record { entries = words; size = size }) j in
      (clear.1, λ h. ground arith, λ h. ground arith)

  -- Before paging is on, the next block that `kmalloc` hands out after the creation of a bitmap of
  -- more than 1032 entries starts inside the bitmap's entries: an entry takes four bytes, and
  -- what is allocated is one byte for 32 entries.
  bitmap_create_overlap :
      (next : ℕ)
      → k.paging_state ≡ 0
      → 0x1000 ≤ k.kernel_pointer
      → k.kernel_pointer + 0x4000 + size < 2 ^ 32
      → 1032 < size
      → let made = bitmap_create lib size words k in
        let block = (kmalloc lib next made.kernel).0 in
        (made.entries_at ≤ block) × (block < made.entries_at + 4 * size)
  unfolding bitmap_create kmalloc
  bitmap_create_overlap next off low fits big = (ground arith, ground arith)

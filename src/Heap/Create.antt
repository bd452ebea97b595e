-- ===== src/Heap/Create.antt =====
-- `heap_create` of kernel/arch/i386/mem/heap.c.
use comet_os.Base.{
  ◌∙◌, ℕ, ◌+◌, ◌-◌, ◌*◌, ◌/◌, ◌%◌, ◌^◌, ◌≤◌, ◌<◌, ◌≡◌, arith, false, ltb, ◌!=◌, u32, sub32,
  if◌then◌else◌,
}
use comet_os.Kmalloc.{Liballoc, Kernel, ponter_move_int, bitmap_create}
use comet_os.Kmalloc.Create.{bitmap_create_clear}
use comet_os.Paging.{page_size}
use comet_os.Heap.{Heap}

-- `& 0xFFFFF000`.
abbrev pub page_down : ℕ → ℕ
page_down a = a / 0x1000 * 0x1000

abbrev pub page_up : ℕ → ℕ
page_up a = if page_down a != a then u32 (page_down a + page_size) else page_down a

-- `(start - end) / 4` of two pointers, as a `uint32_t`: the difference is signed.
abbrev pub quarter : ℕ → ℕ → ℕ
quarter start end =
    let apart = sub32 start end in
    if ltb apart (2 ^ 31) then apart / 4 else u32 (2 ^ 32 - (2 ^ 32 - apart) / 4)

module _ {L : Type 0} (lib : Liballoc L) where
  -- The address of the struct, the heap and the kernel; `words` is what stands where the bitmap gets
  -- its entries. The struct is given the four bytes of a pointer.
  unfoldable pub heap_create : ℕ → ℕ → ℕ → ℕ → (ℕ → ℕ) → Kernel L → ℕ × Heap × Kernel L
  unfolding bitmap_create
  heap_create start end rw_flag usermode words k =
      let (struct_at, _, next) = ponter_move_int 4 false 0 k.kernel_pointer in
      let made = bitmap_create lib (quarter start end) words (record k { kernel_pointer = next }) in
      (
        struct_at,
        record {
          start = page_down start;
          end = page_up end;
          rw_flag = if rw_flag != 0 then 1 else 0;
          user = if usermode != 0 then 1 else 0;
          bitmap = made.bitmap;
        },
        made.kernel,
      )

  -- A heap from `start` down to `end` has its start on the page of `start`, its end at the first page
  -- that does not start below `end`, and a bitmap with a free entry for each four bytes between them.
  pub heap_create_bounds :
      (start end rw_flag usermode : ℕ) (words : ℕ → ℕ) (k : Kernel L)
      → end ≤ start
      → start < end + 2 ^ 31
      → start < 2 ^ 32
      → end ≤ 2 ^ 32 - page_size
      → let h = (heap_create start end rw_flag usermode words k).1 in
        (h.start % page_size ≡ 0)
        × (h.start ≤ start)
        × (start < h.start + page_size)
        × (h.end % page_size ≡ 0)
        × (end ≤ h.end)
        × (h.end < end + page_size)
        × (h.bitmap.size ≡ (start - end) / 4)
        × ((j : ℕ) → j < (start - end) / 4 → h.bitmap.entries j ≡ 0)
  unfolding heap_create
  heap_create_bounds start end rw_flag usermode words k below near small last =
      let size : quarter start end ≡ (start - end) / 4 = ground arith in
      let clear = λ (j : ℕ).
        bitmap_create_clear lib (quarter start end) words
          (record k { kernel_pointer = (ponter_move_int 4 false 0 k.kernel_pointer).2 }) j in
      (
        ground arith,
        ground arith,
        ground arith,
        ground arith,
        ground arith,
        ground arith,
        (clear 0).0 ∙ size,
        λ j h. (clear j).1 (omega (arith, size)),
      )

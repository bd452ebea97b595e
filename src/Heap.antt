-- ===== src/Heap.antt =====
-- The kernel's heap, kernel/arch/i386/mem/heap.c, on the page tables of Paging. A heap that is not
-- there is NULL. Each loop takes fuel of its own.
pub mod Free
pub mod Place
pub mod Create
mod Tests
use comet_os.Base.{
  Bool, ℕ, zero, suc, ◌+◌, ◌*◌, ◌/◌, ◌%◌, ◌^◌, true, false, Option, none, some, ltb, ◌==◌, ◌!=◌,
  ◌||◌, u32, sub32, if◌then◌else◌,
}
use comet_os.Bitmap
use comet_os.Bitmap.{Bitmap}
use comet_os.Libc.Text.{◌>>=◌}
use comet_os.Frames.{frame_alloc, frame_free}
use comet_os.Paging.{Machine, page_size, page_map, page_unmap, page_physaddr}

pub record Heap : Type 0 where
  pub start : ℕ
  pub end : ℕ
  pub rw_flag : ℕ
  pub user : ℕ
  pub bitmap : Bitmap

-- `frame_free(page_physaddr(i, NULL)); page_unmap(i, NULL);`.
unfoldable pub release : ℕ → Machine → Machine
release i s =
    let frame = page_physaddr i 0 s in
    (page_unmap i 0 (record s { frames = frame_free frame s.frames })).1

-- The loop of `heap_alloc` that takes the pages back, from `i` down to above `addr`.
unfoldable pub take_back : ℕ → ℕ → ℕ → Machine → Option Machine
unfolding release
take_back zero i addr s = none
take_back (suc f) i addr s =
    let rest = take_back f (sub32 i page_size) addr (release i s) in
    if ltb addr i then rest else some s

-- The mapping loop, with the address that it returns. `page_map` gives NULL for a failure.
unfoldable pub map_pages : ℕ → ℕ → ℕ → ℕ → Machine → Option (ℕ × Machine)
unfolding take_back
map_pages zero i addr end s = none
map_pages (suc f) i addr end s = elim (ltb i end) [
  | true ↦ do
    taken ← frame_alloc s.frames
    mapped ← page_map taken.0 i 3 0 (record s { frames = taken.1 })
    elim (mapped.0 == 0) [
      | true ↦ do t ← take_back f (sub32 i page_size) addr mapped.1; some (0, t)
      | false ↦ map_pages f (u32 (i + page_size)) addr end mapped.1
    ]
  | false ↦ some (addr, s)
]

-- The second half of `heap_alloc`, at the index that the bitmap found.
unfoldable pub alloc_at : ℕ → ℕ → ℕ → Heap → Machine → Option (ℕ × Heap × Machine)
unfolding map_pages
alloc_at fuel size index h s =
    let addr = sub32 h.start (u32 (index * page_size)) in
    if (addr == 0) || ltb h.start addr then some (0, h, s) else do
      made ← map_pages fuel addr addr (u32 (addr + size)) s
      some (
        made.0,
        record h { bitmap = Bitmap.map index (u32 (index + size / page_size)) 1 h.bitmap },
        made.1,
      )

-- The address, 0 for NULL, and the states.
unfoldable pub heap_alloc : ℕ → ℕ → Option Heap → Machine → Option (ℕ × Option Heap × Machine)
heap_alloc fuel size none s = some (0, none, s)
heap_alloc fuel size (some h) s = if size % page_size != 0 then some (0, some h, s) else do
  index ← Bitmap.entrie_find (size / page_size) 0 h.bitmap
  made ← alloc_at fuel size index h s
  some (made.0, some made.1, made.2)

-- The loop of `heap_free`: `i` goes down.
free_pages : ℕ → ℕ → ℕ → Machine → Option Machine
unfolding release
free_pages zero i end s = none
free_pages (suc f) i end s =
    let rest = free_pages f (sub32 i page_size) end (release i s) in
    if ltb i end then rest else some s

-- The entries of the pages, in the bitmap.
unfoldable pub clear_entries : ℕ → ℕ → Heap → Heap
clear_entries addr size h =
    let index = sub32 h.start addr / page_size in
    record h { bitmap = Bitmap.map index (u32 (index + size / page_size)) 0 h.bitmap }

unfoldable pub heap_free : ℕ → ℕ → ℕ → Option Heap → Machine → Option (ℕ × Option Heap × Machine)
unfolding free_pages
heap_free fuel addr size none s = some (0, none, s)
heap_free fuel addr size (some h) s = if size % page_size != 0 then some (0, some h, s) else do
  t ← free_pages fuel addr (u32 (addr + size)) s
  some (1, some (clear_entries addr size h), t)

-- `heap_delete` does nothing.
unfoldable pub heap_delete : Option Heap → ℕ × Option Heap
heap_delete h = (0, h)

-- `cli` and `sti`, on the flag that lets interrupts in.
unfoldable pub heap_lock : Bool → ℕ × Bool
heap_lock interrupts = (1, false)

unfoldable pub heap_unlock : Bool → ℕ × Bool
heap_unlock interrupts = (1, true)

-- The hooks that liballoc calls, with `kernel_heap` as the heap; `n` is converted to 32 bits.
unfoldable pub liballoc_alloc : ℕ → ℕ → Option Heap → Machine → Option (ℕ × Option Heap × Machine)
unfolding heap_alloc
liballoc_alloc fuel n kernel_heap s = heap_alloc fuel (u32 (u32 n * page_size)) kernel_heap s

unfoldable pub liballoc_free :
    ℕ → ℕ → ℕ → Option Heap → Machine → Option (ℕ × Option Heap × Machine)
unfolding heap_free
liballoc_free fuel addr n kernel_heap s = do
  freed ← heap_free fuel addr (u32 (u32 n * page_size)) kernel_heap s
  some (if freed.0 != 0 then 0 else 1, freed.1, freed.2)

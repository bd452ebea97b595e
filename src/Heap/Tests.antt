-- ===== src/Heap/Tests.antt =====
-- The heap's theorem at the free of a page, on a machine with nothing mapped.
use comet_os.Base.{
  ◌/◌, ◌-◌, ◌<◌, ◌%◌, ◌↔◌, ◌≤◌, ℕ, Option, ◌+◌, ◌≢◌, ◌*◌, ◌≡◌, arith, refl, none, some,
}
use comet_os.Bitmap
use comet_os.Frames.{frame_alloc, frame_set}
use comet_os.Paging.{Machine, page_size, page_map}
use comet_os.Heap.{Heap, heap_free, alloc_at, clear_entries}
use comet_os.Kmalloc.{Liballoc, Kernel}
use comet_os.Heap.Create.{heap_create, heap_create_bounds}
use comet_os.Heap.Place.{alloc_at-overlap}
use comet_os.Heap.Free.{release_below, heap_free-below}

abbrev machine : Machine
machine = record {
  memory = λ a. 0;
  frames = record { entries = λ i. 1; size = 64 };
  paging_state = 1;
  cr3 = 0x4000;
  cr0 = 0;
}

abbrev rising : Liballoc ℕ
rising = record {
  malloc = λ size l. (l, l + size);
  realloc = λ addr size l. (l, l + size);
  calloc = λ n size l. (l, l + n * size);
  free = λ addr l. l;
}

abbrev kernel : Kernel ℕ
kernel = record { kernel_pointer = 0x123456; paging_state = 0; lib = 0 }

abbrev heap : Heap
heap = record {
  start = 0x8000;
  end = 0;
  rw_flag = 1;
  user = 0;
  bitmap = record { entries = λ i. 1; size = 16 };
}

-- The page 2 is freed, and the pages 1 and 0 go with it.
heap_free-below_example :
    heap_free 4 (2 * page_size) (1 * page_size) (some heap) machine
    ≡ some (1, some (clear_entries (2 * page_size) (1 * page_size) heap), release_below 3 machine)
heap_free-below_example = heap_free-below 0 2 1 heap machine (omega arith) (omega arith)

-- A machine with every table there and every frame free.
abbrev mapped : Machine
mapped = record {
  memory = λ a. 0x5003;
  frames = record { entries = λ i. 0; size = 64 };
  paging_state = 1;
  cr3 = 0x4000;
  cr0 = 0;
}

fresh : Heap
fresh = record heap { bitmap = record { entries = λ i. 0; size = 16 } }

result_of : Option (ℕ × Heap × Machine) → ℕ × Heap × Machine
result_of none = (0, heap, machine)
result_of (some r) = r

abbrev first : ℕ × Heap × Machine
first = result_of (alloc_at 4 (1 * page_size) 0 fresh mapped)

abbrev second : ℕ × Heap × Machine
second = result_of (alloc_at 4 (2 * page_size) (0 + 1) first.1 first.2)

first_made : alloc_at 4 (1 * page_size) 0 fresh mapped ≡ some first
unfolding result_of fresh alloc_at frame_alloc Bitmap.entrie_find page_map Bitmap.map frame_set
    Bitmap.entrie_set
first_made = refl

second_made : alloc_at 4 (2 * page_size) (0 + 1) first.1 first.2 ≡ some second
unfolding result_of fresh alloc_at frame_alloc Bitmap.entrie_find page_map Bitmap.map frame_set
    Bitmap.entrie_set
second_made = refl

first_used : first.0 ≢ 0
unfolding result_of fresh alloc_at frame_alloc Bitmap.entrie_find page_map Bitmap.map frame_set
    Bitmap.entrie_set
first_used = omega arith

second_used : second.0 ≢ 0
unfolding result_of fresh alloc_at frame_alloc Bitmap.entrie_find page_map Bitmap.map frame_set
    Bitmap.entrie_set
second_used = omega arith

-- The second block has two pages, of which one is that of the first.
alloc_at-overlap_example :
    (second.0 + 1 * page_size ≡ first.0) × ((second.0 + 2 * page_size ≤ first.0) ↔ (2 ≤ 1))
unfolding fresh
alloc_at-overlap_example =
    alloc_at-overlap 4 4 1 2 0 fresh mapped first.2 first second (omega arith) (omega arith)
      first_made first_used second_made second_used

heap_create_bounds_example :
    let h = (heap_create rising 0x9010 0x4020 1 0 (λ j. 9) kernel).1 in
    (h.start % page_size ≡ 0)
    × (h.start ≤ 0x9010)
    × (0x9010 < h.start + page_size)
    × (h.end % page_size ≡ 0)
    × (0x4020 ≤ h.end)
    × (h.end < 0x4020 + page_size)
    × (h.bitmap.size ≡ (0x9010 - 0x4020) / 4)
    × ((j : ℕ) → j < (0x9010 - 0x4020) / 4 → h.bitmap.entries j ≡ 0)
heap_create_bounds_example =
    heap_create_bounds rising 0x9010 0x4020 1 0 (λ j. 9) kernel (omega arith) (omega arith)
      (omega arith) (omega arith)

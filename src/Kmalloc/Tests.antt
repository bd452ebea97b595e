-- ===== src/Kmalloc/Tests.antt =====
-- The allocation theorems at inputs.
use comet_os.Base.{ℕ, ◌+◌, ◌*◌, ◌≡◌, refl}
use comet_os.Kmalloc.{Liballoc, Kernel, kmalloc}

-- An allocator that hands out rising addresses and takes nothing back.
abbrev rising : Liballoc ℕ
rising = record {
  malloc = λ size l. (l, l + size);
  realloc = λ addr size l. (l, l + size);
  calloc = λ n size l. (l, l + n * size);
  free = λ addr l. l;
}

-- The kernel ends at 0x123456, and paging is off.
abbrev early : Kernel ℕ
early = record { kernel_pointer = 0x123456; paging_state = 0; lib = 0 }

first_block : (kmalloc rising 100 early).0 ≡ 0x124000
unfolding kmalloc
first_block = refl

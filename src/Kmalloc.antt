-- ===== src/Kmalloc.antt =====
-- The kernel's allocation calls at the end of kernel/arch/i386/mem/paging.c: a bump pointer until
-- paging is on, liballoc after that. liballoc (kernel/arch/i386/mem/liballoc.c) is a third-party
-- library, so its four calls are a parameter over a state of its own.
pub mod Bump
pub mod Create
mod Tests
use comet_os.Base.{
  ℕ, ◌+◌, ◌*◌, ◌/◌, ◌≤◌, Bool, true, false, Option, none, some, leb, ◌==◌, ◌!=◌, ◌&&◌, u32,
  if◌then◌else◌,
}
use comet_os.Bitmap
use comet_os.Bitmap.{Bitmap}

pub record Liballoc (L : Type 0) : Type 0 where
  pub malloc : ℕ → L → ℕ × L
  pub realloc : ℕ → ℕ → L → ℕ × L
  pub calloc : ℕ → ℕ → L → ℕ × L
  pub free : ℕ → L → L

-- `kernel_pointer`, `paging_state` and what liballoc keeps.
pub record Kernel (L : Type 0) : Type 0 where
  pub kernel_pointer : ℕ
  pub paging_state : ℕ
  pub lib : L

-- The return value, what goes through `physaddr` if that is given, and the new `kernel_pointer`.
-- `kernel_pointer & 0xFFFFF000` is not zero from the second page on.
unfoldable pub ponter_move_int : ℕ → Bool → ℕ → ℕ → ℕ × Option ℕ × ℕ
ponter_move_int size physaddr align kernel_pointer =
    let start =
      if (align == 1) && leb 0x1000 kernel_pointer
      then u32 (kernel_pointer / 0x1000 * 0x1000 + 0x1000)
      else kernel_pointer in
    (start, if physaddr then some start else none, u32 (start + size))

module _ {L : Type 0} (lib : Liballoc L) where
  bump : ℕ → ℕ → Kernel L → ℕ × Kernel L
  unfolding ponter_move_int
  bump size align k =
      let (start, _, next) = ponter_move_int size false align k.kernel_pointer in
      (start, record k { kernel_pointer = next })

  in_lib : ℕ × L → Kernel L → ℕ × Kernel L
  in_lib (addr, l) k = (addr, record k { lib = l })

  unfoldable pub kmalloc : ℕ → Kernel L → ℕ × Kernel L
  unfolding bump in_lib
  kmalloc size k = if k.paging_state != 0 then in_lib (lib.malloc size k.lib) k else bump size 1 k

  unfoldable pub krealloc : ℕ → ℕ → Kernel L → ℕ × Kernel L
  unfolding bump in_lib
  krealloc addr size k =
      if k.paging_state != 0 then in_lib (lib.realloc addr size k.lib) k else bump size 0 k

  unfoldable pub kcalloc : ℕ → ℕ → Kernel L → ℕ × Kernel L
  unfolding bump in_lib
  kcalloc sizeold sizenew k =
      if k.paging_state != 0 then in_lib (lib.calloc sizeold sizenew k.lib) k else bump sizenew 1 k

  unfoldable pub kfree : ℕ → Kernel L → Kernel L
  kfree addr k = if k.paging_state != 0 then record k { lib = lib.free addr k.lib } else k

  -- `bitmap_create`: the address of the struct, the address of the entries, and the bitmap, over
  -- the words that stand behind the second address at the time. A `bitmap_t` has 8 bytes.
  unfoldable pub bitmap_create :
      ℕ
      → (ℕ → ℕ)
      → Kernel L
      → record { struct_at : ℕ; entries_at : ℕ; bitmap : Bitmap; kernel : Kernel L }
  unfolding kmalloc
  bitmap_create size words k =
      let (struct_at, k1) = kmalloc 8 k in
      let (entries_at, k2) = kmalloc (size / 0x20) k1 in
      record {
        struct_at = struct_at;
        entries_at = entries_at;
        bitmap = Bitmap.map 0 size 0 (record { entries = words; size = size });
        kernel = k2;
      }

  -- `bitmap_delete` frees the struct and not its entries.
  unfoldable pub bitmap_delete : ℕ → Kernel L → ℕ × Kernel L
  unfolding kfree
  bitmap_delete struct_at k = (1, kfree struct_at k)

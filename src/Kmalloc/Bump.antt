-- ===== src/Kmalloc/Bump.antt =====
-- The allocator before paging is on, in kernel/arch/i386/mem/paging.c.
use comet_os.Base.{ℕ, ◌+◌, ◌%◌, ◌^◌, ◌≤◌, ◌<◌, ◌≡◌, arith}
use comet_os.Kmalloc.{Liballoc, Kernel, kmalloc, kfree}

-- Before paging is on, and where no sum passes 2 ^ 32, `kmalloc` from a pointer behind the first
-- page returns a page-aligned address behind all that was given out, leaves the pointer just
-- behind the block, and `kfree` gives nothing back.
kmalloc_bump :
    {L : Type 0} (lib : Liballoc L) (size : ℕ) (k : Kernel L)
    → k.paging_state ≡ 0
    → 0x1000 ≤ k.kernel_pointer
    → k.kernel_pointer + 0x1000 + size < 2 ^ 32
    → let (addr, k') = kmalloc lib size k in
      (k.kernel_pointer ≤ addr)
      × (addr % 0x1000 ≡ 0)
      × (k'.kernel_pointer ≡ addr + size)
      × (kfree lib addr k' ≡ k')
unfolding kmalloc kfree
kmalloc_bump lib size k off low fits = (ground arith, ground arith, ground arith, ground arith)

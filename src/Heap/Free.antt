-- ===== src/Heap/Free.antt =====
-- What `heap_free` of kernel/arch/i386/mem/heap.c takes from the page tables.
use mathlib.Core.Path.{ap₂}
use comet_os.Base.{
  ◌!=◌, ℕ, zero, suc, ◌+◌, ◌-◌, ◌*◌, ◌%◌, ◌^◌, ◌≤◌, ◌<◌, ◌≡◌, refl, ap, ◌∙◌, arith, some, ltb, u32,
  sub32, true, false,
}
use comet_os.Paging.{Machine, page_size}
use comet_os.Heap.{Heap, release, free_pages, heap_free, clear_entries}

-- The pages with the numbers `n - 1` down to 0, taken back in this order.
pub release_below : ℕ → Machine → Machine
release_below zero s = s
release_below (suc n) s = release_below n (release (n * page_size) s)

-- From the page `n - 1` on, with `end` above it and not above the last page of the address space.
free_pages_below :
    (f n end : ℕ) (s : Machine)
    → n * page_size < end + page_size
    → n * page_size ≤ 2 ^ 32
    → end ≤ 2 ^ 32 - page_size
    → free_pages (n + suc f) (sub32 (n * page_size) page_size) end s ≡ some (release_below n s)
unfolding free_pages release_below
free_pages_below f zero end s above small last =
    let rounds : 0 + suc f ≡ suc f = omega arith in
    let outside : ltb (2 ^ 32 - page_size) end ≡ false = ground arith in
    ap (λ x. free_pages x (2 ^ 32 - page_size) end s) rounds ∙ rw (free_pages, outside) refl
free_pages_below f (suc n) end s above small last =
    let rounds : suc n + suc f ≡ suc (n + suc f) = omega arith in
    let at : sub32 (suc n * page_size) page_size ≡ n * page_size = omega arith in
    let inside : ltb (n * page_size) end ≡ true = ground arith in
    ap₂ (λ x y. free_pages x y end s) rounds at
    ∙ rw (free_pages, inside)
        (free_pages_below f n end (release (n * page_size) s) (omega arith) (omega arith) last)

-- `heap_free` of a positive number of pages from a page's address on, which end below the last page
-- of the address space, returns 1 with any fuel above the number of the pages up to that address:
-- but it has taken back all of these, from `addr` down to 0, and none of those behind `addr`.
pub heap_free-below :
    (f page pages : ℕ) (h : Heap) (s : Machine)
    → 0 < pages
    → page + pages < 2 ^ 20
    → heap_free (page + 2 + f) (page * page_size) (pages * page_size) (some h) s
      ≡ some (
        1,
        some (clear_entries (page * page_size) (pages * page_size) h),
        release_below (page + 1) s,
      )
unfolding heap_free
heap_free-below f page pages h s positive last =
    let whole : (pages * page_size % page_size != 0) ≡ false = ground arith in
    let ends : u32 (page * page_size + pages * page_size) ≡ (page + pages) * page_size =
      omega arith in
    let at : page * page_size ≡ sub32 ((page + 1) * page_size) page_size = omega arith in
    let rounds : page + 2 + f ≡ page + 1 + suc f = omega arith in
    let freed : free_pages (page + 2 + f) (page * page_size)
          (u32 (page * page_size + pages * page_size)) s
        ≡ some (release_below (page + 1) s) =
      ap (λ x. free_pages (page + 2 + f) (page * page_size) x s) ends
      ∙ ap₂ (λ x y. free_pages x y ((page + pages) * page_size) s) rounds at
      ∙ free_pages_below f (page + 1) ((page + pages) * page_size) s (omega arith) (omega arith)
          (omega arith) in
    rw (whole, freed) refl

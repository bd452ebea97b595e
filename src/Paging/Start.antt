-- ===== src/Paging/Start.antt =====
-- The start of the paging, `paging_initialize` of kernel/arch/i386/mem/paging.c, behind the creation
-- of the bitmap and of the heap. The loops take fuel.
use comet_os.Base.{
  ℕ, zero, suc, ◌+◌, ◌-◌, ◌*◌, ◌/◌, ◌^◌, ◌≤◌, ◌≡◌, refl, ap, ◌∙◌, arith, Option, none, some, ltb,
  leb, ◌&&◌, u32, true, false, if◌then◌else◌,
}
use comet_os.Bitmap.{Bitmap, entrie_set}
use comet_os.Libc.Text.{◌>>=◌}
use comet_os.Frames.{frame_set}
use comet_os.Paging.{Machine, page_size, directory_create, directory_load, page_map, paging_enable}

-- The loop that takes the frames of the kernel.
unfoldable pub reserve : ℕ → ℕ → ℕ → Bitmap → Option Bitmap
reserve zero i kernel_pointer b = none
reserve (suc f) i kernel_pointer b =
    let rest = reserve f (u32 (i + page_size)) kernel_pointer (frame_set i b) in
    if ltb i kernel_pointer then rest else some b

-- The loop that maps its pages to themselves; what `page_map` returns is not looked at.
map_kernel : ℕ → ℕ → ℕ → Machine → Option Machine
map_kernel zero i kernel_pointer s = none
map_kernel (suc f) i kernel_pointer s = elim (ltb i kernel_pointer) [
  | true ↦ (page_map i i 3 0 s >>= λ t. map_kernel f (u32 (i + page_size)) kernel_pointer t.1)
  | false ↦ some s
]

unfoldable pub initialize : ℕ → ℕ → Machine → Option Machine
unfolding reserve map_kernel
initialize fuel kernel_pointer s = do
  frames ← reserve fuel 0 kernel_pointer s.frames
  made ← directory_create 2 (record s { frames = frames })
  mapped ← map_kernel fuel 0 kernel_pointer (directory_load made.0 made.1)
  some (record (paging_enable mapped) { paging_state = 1 })

-- The entries behind the loop, when it has come to the page `k`.
abbrev Reserved : ℕ → ℕ → Bitmap → Bitmap → Type 0
Reserved k pages b b' =
    (b'.size ≡ b.size)
    × ((j : ℕ) → b'.entries j ≡ (if leb k j && ltb j pages then 1 else b.entries j))

reserve_from :
    (f d k kernel_pointer : ℕ) (b : Bitmap)
    → kernel_pointer ≤ 2 ^ 32 - page_size
    → k + d ≡ (kernel_pointer + 4095) / page_size
    → (b' : Bitmap) × (reserve (d + suc f) (k * page_size) kernel_pointer b ≡ some b')
      × Reserved k (k + d) b b'
unfolding reserve frame_set entrie_set
reserve_from f zero k kernel_pointer b small count =
    let rounds : 0 + suc f ≡ suc f = omega arith in
    let outside : ltb (k * page_size) kernel_pointer ≡ false = ground arith in
    (
      b,
      ap (λ x. reserve x (k * page_size) kernel_pointer b) rounds ∙ rw (reserve, outside) refl,
      (refl, λ j. ground arith),
    )
reserve_from f (suc d) k kernel_pointer b small count =
    let (b', made, (size, entries)) =
      reserve_from f d (k + 1) kernel_pointer (frame_set (k * page_size) b) small (omega arith) in
    let rounds : suc d + suc f ≡ suc (d + suc f) = omega arith in
    let inside : ltb (k * page_size) kernel_pointer ≡ true = ground arith in
    let next : u32 (k * page_size + page_size) ≡ (k + 1) * page_size = omega arith in
    (
      b',
      ap (λ x. reserve x (k * page_size) kernel_pointer b) rounds ∙ rw (reserve, inside, next) made,
      (size, λ j. ground (arith, entries j)),
    )

-- The first loop of `paging_initialize`, with more fuel than it has pages to take, sets the frame of
-- every page that starts below `kernel_pointer`, which is not above the last page of the address
-- space, and leaves the other entries and the size as they are.
pub reserve-frames :
    (f kernel_pointer : ℕ) (b : Bitmap)
    → kernel_pointer ≤ 2 ^ 32 - page_size
    → (b' : Bitmap) × (reserve ((kernel_pointer + 4095) / page_size + suc f) 0 kernel_pointer b
        ≡ some b')
      × (b'.size ≡ b.size)
      × ((j : ℕ) → b'.entries j ≡ (if ltb (j * page_size) kernel_pointer then 1 else b.entries j))
reserve-frames f kernel_pointer b small =
    let (b', made, (size, entries)) =
      reserve_from f ((kernel_pointer + 4095) / page_size) 0 kernel_pointer b small (omega arith) in
    (b', made, size, λ j. ground (arith, entries j))

-- ===== src/Heap/Place.antt =====
-- Where `heap_alloc` of kernel/arch/i386/mem/heap.c places a block.
use comet_os.Base.{
  ◌↔◌, ℕ, zero, suc, ◌+◌, ◌*◌, ◌/◌, ◌^◌, ◌≤◌, ◌<◌, ◌≡◌, ◌≢◌, ◌⊎◌, inl, inr, sym, ap, ◌∙◌, arith,
  Option, none, some, ltb, u32, sub32, ◌==◌, ◌||◌, Bool-cases, Option-cases,
}
use comet_os.Libc.Text.{◌>>=◌}
use comet_os.Bitmap
use comet_os.Frames.{frame_alloc}
use comet_os.Paging.{Machine, page_size, page_map}
use comet_os.Heap.{Heap, take_back, map_pages, alloc_at}

abbrev Same : Option (ℕ × Machine) → Option (ℕ × Machine) → Type 0
Same x y = x ≡ y

-- The mapping loop returns the block's address, or NULL.
map_pages-addr :
    (f i addr end : ℕ) (s : Machine) (r : ℕ × Machine)
    → map_pages f i addr end s ≡ some r
    → (r.0 ≡ addr) ⊎ (r.0 ≡ 0)
unfolding map_pages
map_pages-addr zero i addr end s r h = cc
map_pages-addr (suc f) i addr end s r h = elim (Bool-cases (ltb i end)) [
  | inr done ↦ let e : Same (some (addr, s)) (some r) = rw (map_pages, done) at h in inl (cc)
  | inl more ↦ elim (Option-cases (frame_alloc s.frames)) [
    | inl full ↦ let e : Same none (some r) = rw (map_pages, more, full) at h in absurd (cc)
    | inr (taken, got) ↦
        let mapping = page_map taken.0 i 3 0 (record s { frames = taken.1 }) in
        elim (Option-cases mapping) [
          | inl full ↦
              let e : Same none (some r) = rw (map_pages, more, got, full) at h in absurd (cc)
          | inr (mapped, made) ↦ elim (Bool-cases (mapped.0 == 0)) [
            | inl null ↦ elim (Option-cases (take_back f (sub32 i page_size) addr mapped.1)) [
              | inl out ↦
                  let e : Same none (some r) =
                    rw (map_pages, more, got, made, ◌>>=◌, null, out) at h in
                  absurd (cc)
              | inr (t, back) ↦
                  let e : Same (some (0, t)) (some r) =
                    rw (map_pages, more, got, made, ◌>>=◌, null, back) at h in
                  inr (cc)
            ]
            | inr used ↦
                map_pages-addr f (u32 (i + page_size)) addr end mapped.1 r
                  (rw (map_pages, more, got, made, ◌>>=◌, used) at h)
          ]
        ]
  ]
]

abbrev Result : Type 0
Result = ℕ × Heap × Machine

abbrev SameResult : Option Result → Option Result → Type 0
SameResult x y = x ≡ y

-- A block that `heap_alloc` makes at an index starts that many pages below the heap's start, and its
-- entries from the index on are set.
alloc_at-place :
    (fuel size index : ℕ) (h : Heap) (s : Machine) (r : Result)
    → alloc_at fuel size index h s ≡ some r
    → r.0 ≢ 0
    → (r.0 ≡ sub32 h.start (u32 (index * page_size)))
      × (r.1 ≡ record h { bitmap = Bitmap.map index (u32 (index + size / page_size)) 1 h.bitmap })
unfolding alloc_at
alloc_at-place fuel size index h s r e nz =
    let addr = sub32 h.start (u32 (index * page_size)) in
    elim (Bool-cases ((addr == 0) || ltb h.start addr)) [
      | inl bad ↦
          let e1 : SameResult (some (0, h, s)) (some r) = rw (alloc_at, bad) at e in
          absurd (nz (let z : r.0 ≡ 0 = cc in z))
      | inr good ↦ elim (Option-cases (map_pages fuel addr addr (u32 (addr + size)) s)) [
        | inl out ↦ let e1 : SameResult none (some r) = rw (alloc_at, good, out) at e in absurd (cc)
        | inr (made, run) ↦
            let e1 : SameResult
                (some (
                  made.0,
                  record h {
                    bitmap = Bitmap.map index (u32 (index + size / page_size)) 1 h.bitmap;
                  },
                  made.1,
                ))
                (some r) =
              rw (alloc_at, good, run) at e in
            let at : made.0 ≡ r.0 = cc in
            let heap : record h {
              bitmap = Bitmap.map index (u32 (index + size / page_size)) 1 h.bitmap;
            }
                ≡ r.1 =
              cc in
            (
              elim (map_pages-addr fuel addr addr (u32 (addr + size)) s made run) [
                | inl place ↦ sym at ∙ place
                | inr null ↦ absurd (nz (sym at ∙ null))
              ],
              sym heap,
            )
      ]
    ]

-- Take a block of `n` pages that `heap_alloc` makes at an index, and another of `k` pages at the
-- index behind its entries, neither of them NULL. Then the second starts `n` pages below the first,
-- and ends where the first one starts, or before it, only if it has no more pages than the first:
-- a longer one covers the address of the first.
pub alloc_at-overlap :
    (fuel fuel' n k index : ℕ) (h : Heap) (s s' : Machine) (r r' : Result)
    → (index + n) * page_size ≤ h.start
    → h.start < 2 ^ 32
    → alloc_at fuel (n * page_size) index h s ≡ some r
    → r.0 ≢ 0
    → alloc_at fuel' (k * page_size) (index + n) r.1 s' ≡ some r'
    → r'.0 ≢ 0
    → (r'.0 + n * page_size ≡ r.0) × ((r'.0 + k * page_size ≤ r.0) ↔ (k ≤ n))
alloc_at-overlap fuel fuel' n k index h s s' r r' low small first nz second nz' =
    let (at, heap) = alloc_at-place fuel (n * page_size) index h s r first nz in
    let (at', _) = alloc_at-place fuel' (k * page_size) (index + n) r.1 s' r' second nz' in
    let start : r.1.start ≡ h.start = ap (λ (x : Heap). x.start) heap in
    let apart : r'.0 + n * page_size ≡ r.0 = omega (arith, at, at', start) in
    (apart, (λ e. omega arith, λ e. omega arith))

-- ===== src/Frames/Alloc.antt =====
-- `frame_alloc` of kernel/arch/i386/mem/paging.c.
use comet_os.Base.{
  ◌⊎◌, ℕ, ◌+◌, ◌*◌, ◌≤◌, ◌<◌, ◌^◌, ◌≡◌, refl, ◌≢◌, inl, inr, some, arith, ap, ◌∙◌, false, ◌==◌, u32,
  if◌then◌else◌,
}
use native.Mathlib.Decide.{dec_lt}
use comet_os.Bitmap
use comet_os.Bitmap.{Bitmap}
use comet_os.Bitmap.Find.{IsRun, entrie_find-First}
use comet_os.Frames.{frame_set, frame_free, frame_test, take_frame, frame_alloc}

first_entry : (r : ℕ) → r ≡ r + 0
first_entry r = omega arith

take_frame_fits :
    (r : ℕ) (b : Bitmap)
    → r < 2 ^ 20
    → take_frame (u32 (r * 0x1000)) b ≡ (r * 0x1000, frame_set (r * 0x1000) b)
unfolding take_frame
take_frame_fits r b h = rw (whole, other) refl
  where
    whole : u32 (r * 0x1000) ≡ r * 0x1000
    whole = omega arith

    other : ((r * 0x1000) == 0xffffffff) ≡ false
    other = ground arith

one_free : (b : Bitmap) (i : ℕ) → b.entries i ≡ 0 → IsRun b 1 0 i
one_free b i e y h = ap b.entries (omega arith) ∙ e

-- In a bitmap of fewer than 2 ^ 20 entries with a free entry `i` up to its size, `frame_alloc`
-- returns the address of the least free frame `r`, marks it used, and changes no other entry;
-- `frame_test` then reports it used, and `frame_free` of it gives back every entry.
pub frame_alloc-First :
    (b : Bitmap) (i : ℕ)
    → b.size < 2 ^ 20
    → i ≤ b.size
    → b.entries i ≡ 0
    → (r : ℕ) × (b' : Bitmap) × (frame_alloc b ≡ some (r * 0x1000, b'))
      × (r ≤ i)
      × (b.entries r ≡ 0)
      × ((j : ℕ) → j < r → b.entries j ≢ 0)
      × ((j : ℕ) → b'.entries j ≡ (if j == r then 1 else b.entries j))
      × (frame_test (r * 0x1000) b' ≡ 1)
      × ((j : ℕ) → (frame_free (r * 0x1000) b').entries j ≡ b.entries j)
unfolding frame_alloc frame_free frame_test frame_set Bitmap.entrie_set Bitmap.entrie_check
frame_alloc-First b i small le free =
    let (r, found, first) = entrie_find-First 1 0 b (omega arith) in
    elim first [
      | inl (lo, hi, run, least) ↦ (
        r,
        frame_set (r * 0x1000) b,
        rw found (ap some (take_frame_fits r b (omega arith))),
        elim (dec_lt i r) [
          | yes later ↦ absurd (least i (omega arith) later (one_free b i free))
          | no here ↦ omega arith
        ],
        ap b.entries (omega arith) ∙ run 0 (omega arith),
        λ j h e. least j (omega arith) h (one_free b j e),
        λ j. ground arith,
        ground arith,
        λ j. ground (
          arith,
          ap {B = ℕ} b.entries {x = r} {y = j},
          ap b.entries (first_entry r) ∙ run 0 (omega arith),
        ),
      )
      | inr (e, never) ↦ absurd (never i (omega arith) le (one_free b i free))
    ]

-- When every entry up to the size is taken, `frame_alloc` does not return NULL: it returns the
-- address 0xfffff000, and marks the entry 0xfffff, which is behind the
-- bitmap's end; the entries up to the size stay.
frame_alloc_full :
    (b : Bitmap)
    → b.size < 0xfffff
    → ((i : ℕ) → i ≤ b.size → b.entries i ≢ 0)
    → (b' : Bitmap) × (frame_alloc b ≡ some (0xfffff000, b'))
      × ((i : ℕ) → i ≤ b.size → b'.entries i ≡ b.entries i)
      × (b'.entries 0xfffff ≡ 1)
unfolding frame_alloc frame_set Bitmap.entrie_set
frame_alloc_full b small taken =
    let (r, found, first) = entrie_find-First 1 0 b (omega arith) in
    elim first [
      | inl (lo, hi, run, least) ↦
          absurd (taken r hi (ap b.entries (first_entry r) ∙ run 0 (omega arith)))
      | inr (e, never) ↦
          (frame_set 0xfffff000 b, rw (found, e) refl, λ i h. ground arith, ground arith)
    ]

-- Whether or not an entry is free, in a bitmap of fewer than 0xfffff entries `frame_alloc` gives the
-- address of one frame and sets its entry only. The frame was free, or it is 0xfffff, and no frame
-- was.
pub frame_alloc_one :
    (b : Bitmap)
    → b.size < 0xfffff
    → (r : ℕ) × (b' : Bitmap) × (frame_alloc b ≡ some (r * 0x1000, b'))
      × (r < 2 ^ 20)
      × (((b.entries r ≡ 0) × (r ≤ b.size))
          ⊎ ((r ≡ 0xfffff) × ((i : ℕ) → i ≤ b.size → b.entries i ≢ 0)))
      × (b'.size ≡ b.size)
      × ((j : ℕ) → b'.entries j ≡ (if j == r then 1 else b.entries j))
unfolding frame_alloc frame_set Bitmap.entrie_set
frame_alloc_one b small =
    let (r, found, first) = entrie_find-First 1 0 b (omega arith) in
    elim first [
      | inl (lo, hi, run, least) ↦ (
        r,
        frame_set (r * 0x1000) b,
        rw found (ap some (take_frame_fits r b (omega arith))),
        omega arith,
        inl (ap b.entries (first_entry r) ∙ run 0 (omega arith), hi),
        refl,
        λ j. ground arith,
      )
      | inr (e, never) ↦ (
        0xfffff,
        frame_set 0xfffff000 b,
        rw (found, e) refl,
        omega arith,
        inr (refl, λ i le e. never i (omega arith) le (one_free b i e)),
        refl,
        λ j. ground arith,
      )
    ]

-- ===== src/Paging/Copy/Tables.antt =====
-- The copies of the tables that `directory_copy` of kernel/arch/i386/mem/paging.c makes.
use native.Mathlib.Decide.{dec_lt}
use comet_os.Base.{
  ◌%◌, sym, ℕ, zero, suc, ◌+◌, ◌*◌, ◌/◌, ◌^◌, ◌≤◌, ◌<◌, ◌≡◌, ◌≢◌, ◌⊎◌, inl, inr, refl, ◌∙◌, ap,
  arith, some, true, false, bit, ◌==◌, if◌then◌else◌, Bool-cases, sym,
}
use comet_os.Bitmap.{Bitmap}
use comet_os.Frames.Alloc.{frame_alloc_one}
use comet_os.Paging.{
  Machine, Words, word_at, phy_get, store, copy_words, table_copy, copy_tables, directory_copy,
}
use comet_os.Paging.Copy.{
  copy_words_outside, FreeOrLast, FramesKept, table_copy-FramesKept, FramesKept-trans, copy_used,
  copy_unused,
}

-- The words of a table that does not stand in the frame of the copy are there behind the loop.
copy_words_copied :
    (n i table r : ℕ) (m : Words) (k : ℕ)
    → r < 2 ^ 20
    → i + n ≤ 1024
    → table < 2 ^ 32
    → table % 0x1000 ≡ 0
    → table / 0x1000 ≢ r
    → i ≤ k
    → k < i + n
    → copy_words n i table (r * 0x1000) m (word_at (r * 0x1000) k) ≡ m (word_at table k)
unfolding copy_words store
copy_words_copied zero i table r m k small inside low aligned ne le lt = ground arith
copy_words_copied (suc n) i table r m k small inside low aligned ne le lt =
    let m2 = store (word_at (r * 0x1000) i) (m (word_at table i)) m in
    elim (dec_lt i k) [
      | yes later ↦
          let other : (word_at table k == word_at (r * 0x1000) i) ≡ false = ground arith in
          copy_words_copied n (i + 1) table r m2 k small (omega arith) low aligned ne (omega arith)
            (omega arith)
          ∙ rw (other) refl
      | no here ↦
          let this : k ≡ i = omega arith in
          let self : (word_at (r * 0x1000) i == word_at (r * 0x1000) i) ≡ true = ground arith in
          rw (this) (
            copy_words_outside n (i + 1) table r m2 (word_at (r * 0x1000) i) small (omega arith)
              (inr (omega arith))
            ∙ rw (self) refl)
    ]

-- The table of the entry `i` of the directory in the frame `d`.
abbrev pub table_of : ℕ → ℕ → Words → ℕ
table_of d i m = phy_get (m (word_at (d * 0x1000) i))

-- The directory in the frame `d` and its tables stand in frames in use, below the last one.
abbrev pub TablesUsed : ℕ → Machine → Type 0
TablesUsed d s =
    (d < 0xfffff)
    × (s.frames.entries d ≢ 0)
    × ((i : ℕ)
        → i < 1024
        → bit (s.memory (word_at (d * 0x1000) i)) 0 ≡ true
        → (table_of d i s.memory < 0xfffff000)
          × (s.frames.entries (table_of d i s.memory / 0x1000) ≢ 0))

-- A frame that was free holds the words of `table`.
abbrev pub HasCopy : ℕ → Machine → Machine → Type 0
HasCopy table s s' =
    (r : ℕ) × (s.frames.entries r ≡ 0)
    × (s'.frames.entries r ≢ 0)
    × ((k : ℕ) → k < 1024 → s'.memory (word_at (r * 0x1000) k) ≡ s.memory (word_at table k))

abbrev pub IsFull : Machine → Type 0
IsFull s = (j : ℕ) → j ≤ s.frames.size → s.frames.entries j ≢ 0

directory_same :
    (d i : ℕ) (s t : Machine)
    → d < 0xfffff
    → i < 1024
    → s.frames.entries d ≢ 0
    → FramesKept s t
    → t.memory (word_at (d * 0x1000) i) ≡ s.memory (word_at (d * 0x1000) i)
directory_same d i s t low inside used kept =
    let at : word_at (d * 0x1000) i / 0x1000 ≡ d = omega arith in
    kept.words (word_at (d * 0x1000) i) (omega arith) (rw (at) used)

TablesUsed-kept : (d : ℕ) (s t : Machine) → TablesUsed d s → FramesKept s t → TablesUsed d t
TablesUsed-kept d s t (low, used, tables) kept = (
  low,
  kept.used d used,
  λ i inside present.
      let same = directory_same d i s t low inside used kept in
      let (below, taken) = tables i inside (rw (sym same) present) in
      rw (same) (below, kept.used (table_of d i s.memory / 0x1000) taken),
)

IsFull-kept : (s t : Machine) → FramesKept s t → IsFull s → IsFull t
IsFull-kept s t kept full j le = kept.used j (full j (rw (sym kept.size) le))

free_before :
    (s t : Machine) (r : ℕ) → FramesKept s t → t.frames.entries r ≡ 0 → s.frames.entries r ≡ 0
free_before s t r kept free = elim (Bool-cases (s.frames.entries r == 0)) [
  | inl same ↦ ground arith
  | inr other ↦ absurd (kept.used r (ground arith) free)
]

-- A copy that a later round makes is one of the table as it was before.
HasCopy-before :
    (d j : ℕ) (s t s' : Machine)
    → TablesUsed d s
    → FramesKept s t
    → j < 1024
    → bit (s.memory (word_at (d * 0x1000) j)) 0 ≡ true
    → HasCopy (table_of d j t.memory) t s'
    → HasCopy (table_of d j s.memory) s s'
HasCopy-before d j s t s' (low, used, tables) kept inside present (r, free, taken, words) =
    let (below, in_use) = tables j inside present in
    let same = directory_same d j s t low inside used kept in
    let table = table_of d j s.memory in
    let moved : table_of d j t.memory ≡ table = ap phy_get same in
    (
      r,
      free_before s t r kept free,
      taken,
      λ k h.
          let frame : word_at table k / 0x1000 ≡ table / 0x1000 = omega arith in
          words k h
          ∙ ap (λ x. t.memory (word_at x k)) moved
          ∙ kept.words (word_at table k) (omega arith) (rw (frame) in_use),
    )

taken_after : (r x y : ℕ) → y ≡ (if r == r then 1 else x) → y ≢ 0
taken_after r x y e free =
    let self : (r == r) ≡ true = ground arith in
    let one : y ≡ 1 = e ∙ rw (self) refl in omega (arith, one, free)

-- The copy of one round stays to the end.
HasCopy-after :
    (table r : ℕ) (s s' : Machine) (b : Bitmap)
    → table % 0x1000 ≡ 0
    → table < 0xfffff000
    → s.frames.entries (table / 0x1000) ≢ 0
    → s.frames.entries r ≡ 0
    → r < 0xfffff
    → ((j : ℕ) → b.entries j ≡ (if j == r then 1 else s.frames.entries j))
    → FramesKept (table_copy table (r * 0x1000) (record s { frames = b })).1 s'
    → HasCopy table s s'
unfolding table_copy
HasCopy-after table r s s' b aligned low used free fits entries kept =
    let ne : table / 0x1000 ≢ r = λ same. used (ap s.frames.entries same ∙ free) in
    let taken : b.entries r ≢ 0 = taken_after r (s.frames.entries r) (b.entries r) (entries r) in
    (
      r,
      free,
      kept.used r taken,
      λ k h.
          let frame : word_at (r * 0x1000) k / 0x1000 ≡ r = omega arith in
          kept.words (word_at (r * 0x1000) k) (omega arith) (rw (frame) taken)
          ∙ copy_words_copied 1024 0 table r s.memory k (omega arith) (omega arith) (omega arith)
              aligned ne (omega arith) (omega arith),
    )

-- What the rounds from `i` on make of the tables of the entries in use.
Copied : ℕ → ℕ → ℕ → Machine → Machine → Type 0
Copied n i d s s' =
    (j : ℕ)
    → i ≤ j
    → j < i + n
    → bit (s.memory (word_at (d * 0x1000) j)) 0 ≡ true
    → HasCopy (table_of d j s.memory) s s' ⊎ IsFull s'

Copied-before :
    (n i d : ℕ) (s t s' : Machine)
    → i + n ≤ 1024
    → TablesUsed d s
    → FramesKept s t
    → Copied n i d t s'
    → Copied n i d s s'
unfolding Copied
Copied-before n i d s t s' range tables kept copies j le lt present =
    let same = directory_same d j s t tables.0 (omega arith) tables.1 kept in
    elim (copies j le lt (rw (same) present)) [
      | inl copy ↦ inl (HasCopy-before d j s t s' tables kept (omega arith) present copy)
      | inr full ↦ inr full
    ]

Copied-round :
    (n i d : ℕ) (s s' : Machine)
    → (bit (s.memory (word_at (d * 0x1000) i)) 0 ≡ true
        → HasCopy (table_of d i s.memory) s s' ⊎ IsFull s')
    → Copied n (i + 1) d s s'
    → Copied (suc n) i d s s'
unfolding Copied
Copied-round n i d s s' now later j le lt present = elim (dec_lt i j) [
  | yes behind ↦ later j (omega arith) (omega arith) present
  | no here ↦
      let this : j ≡ i = omega arith in
      let at = λ (x : ℕ). s.memory (word_at (d * 0x1000) x) in
      rw (this) (now (ap (λ x. bit (at x) 0) (sym this) ∙ present))
]

copied_now :
    (r d i : ℕ) (s s' : Machine) (b : Bitmap)
    → s.frames.size < 0xfffff
    → i < 1024
    → TablesUsed d s
    → FreeOrLast s.frames r
    → ((j : ℕ) → b.entries j ≡ (if j == r then 1 else s.frames.entries j))
    → FramesKept s s'
    → FramesKept (table_copy (table_of d i s.memory) (r * 0x1000) (record s { frames = b })).1 s'
    → bit (s.memory (word_at (d * 0x1000) i)) 0 ≡ true
    → HasCopy (table_of d i s.memory) s s' ⊎ IsFull s'
copied_now r d i s s' b small inside tables (inl (free, le)) entries kept rest present =
    let (below, in_use) = tables.2 i inside present in
    inl (
      HasCopy-after (table_of d i s.memory) r s s' b (omega arith) below in_use free (omega arith)
        entries rest)
copied_now r d i s s' b small inside tables (inr (last, full)) entries kept rest present =
    inr (IsFull-kept s s' kept full)

copy_tables-Copied :
    (n i d : ℕ) (s : Machine)
    → s.frames.size < 0xfffff
    → i + n ≤ 1024
    → TablesUsed d s
    → (s' : Machine) × (copy_tables n i (d * 0x1000) s ≡ some s')
      × FramesKept s s'
      × Copied n i d s s'
unfolding copy_tables Copied
copy_tables-Copied zero i d s small range tables = (
  s,
  refl,
  record { size = refl; used = λ j taken. taken; words = λ a low taken. refl },
  λ j le lt present. absurd (omega arith),
)
copy_tables-Copied (suc n) i d s small range tables =
    let entry = s.memory (word_at (d * 0x1000) i) in
    elim (Bool-cases (bit entry 0)) [
      | inl used ↦
          let (r, b, made, fits, free, size, entries) = frame_alloc_one s.frames small in
          let t = (table_copy (phy_get entry) (r * 0x1000) (record s { frames = b })).1 in
          let kept : FramesKept s t =
            table_copy-FramesKept (phy_get entry) r s b fits free size entries in
          let (s', run, rest, later) =
            copy_tables-Copied n (i + 1) d t (rw (kept.size) small) (omega arith)
              (TablesUsed-kept d s t tables kept) in
          (
            s',
            copy_used n i (d * 0x1000) (r * 0x1000) s b used made ∙ run,
            FramesKept-trans kept rest,
            Copied-round n i d s s'
                (copied_now r d i s s' b small (omega arith) tables free entries
                  (FramesKept-trans kept rest) rest)
                (Copied-before n (i + 1) d s t s' (omega arith) tables kept later),
          )
      | inr unused ↦
          let (s', run, rest, later) =
            copy_tables-Copied n (i + 1) d s small (omega arith) tables in
          (
            s',
            copy_unused n i (d * 0x1000) s unused ∙ run,
            rest,
            Copied-round n i d s s' (λ used. cc) later,
          )
    ]

-- Let the bitmap have fewer than 0xfffff entries, the directory stand in a frame in use, and each
-- table of an entry in use too, all of them before the last frame of the address space. Then
-- `directory_copy` ends and returns `copy`. The bitmap's size stays; every frame in use stays in
-- use and, before the last frame, keeps its words, so that a directory at `copy` in such a frame
-- is not written. For each of the 1024 entries in use there is a frame that was free, is in use now
-- and holds the words of the entry's table, or no frame up to the bitmap's size is free now.
pub directory_copy-copies :
    (d copy : ℕ) (s : Machine)
    → s.frames.size < 0xfffff
    → TablesUsed d s
    → (s' : Machine) × (directory_copy (d * 0x1000) copy s ≡ some (copy, s'))
      × FramesKept s s'
      × ((i : ℕ)
          → i < 1024
          → bit (s.memory (word_at (d * 0x1000) i)) 0 ≡ true
          → HasCopy (table_of d i s.memory) s s' ⊎ IsFull s')
unfolding directory_copy Copied
directory_copy-copies d copy s small tables =
    let (s', run, kept, copies) = copy_tables-Copied 1024 0 d s small (omega arith) tables in
    (s', rw (run) refl, kept, λ i h present. copies i (omega arith) (omega arith) present)

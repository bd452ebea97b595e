-- ===== src/Paging/Copy.antt =====
-- The rounds of `directory_copy` of kernel/arch/i386/mem/paging.c, and what they keep.
pub mod Tables
use comet_os.Base.{
  ℕ, zero, suc, ◌+◌, ◌*◌, ◌/◌, ◌^◌, ◌≤◌, ◌<◌, ◌≡◌, ◌≢◌, ◌⊎◌, inl, inr, refl, ◌∙◌, ap, arith, some,
  true, false, bit, ◌==◌, if◌then◌else◌, Bool-cases,
}
use comet_os.Bitmap.{Bitmap}
use comet_os.Frames.{frame_alloc}
use comet_os.Frames.Alloc.{frame_alloc_one}
use comet_os.Paging.{
  Machine, Words, word_at, phy_get, store, copy_words, table_copy, copy_tables, directory_copy,
}

pub copy_words_outside :
    (n i table r : ℕ) (m : Words) (a : ℕ)
    → r < 2 ^ 20
    → i + n ≤ 1024
    → (a / 0x1000 ≢ r) ⊎ (a < r * 0x1000 + 4 * i)
    → copy_words n i table (r * 0x1000) m a ≡ m a
unfolding copy_words store
copy_words_outside zero i table r m a small inside apart = refl
copy_words_outside (suc n) i table r m a small inside apart =
    let other : (a == word_at (r * 0x1000) i) ≡ false = ground arith in
    copy_words_outside n (i + 1) table r (store (word_at (r * 0x1000) i) (m (word_at table i)) m) a
      small (omega arith) (ground arith)
    ∙ rw (other) refl

-- The bitmap's size, the frames in use and their words but the last frame's are the same.
pub record FramesKept (s s' : Machine) : Type 0 where
  pub size : s'.frames.size ≡ s.frames.size
  pub used : (j : ℕ) → s.frames.entries j ≢ 0 → s'.frames.entries j ≢ 0
  pub words :
      (a : ℕ) → a < 0xfffff000 → s.frames.entries (a / 0x1000) ≢ 0 → s'.memory a ≡ s.memory a

-- What `frame_alloc` takes: a free frame, or the last of the address space when none is free.
abbrev pub FreeOrLast : Bitmap → ℕ → Type 0
FreeOrLast b r =
    ((b.entries r ≡ 0) × (r ≤ b.size)) ⊎ ((r ≡ 0xfffff) × ((i : ℕ) → i ≤ b.size → b.entries i ≢ 0))

taken_apart : (b : Bitmap) (r j : ℕ) → b.entries j ≢ 0 → FreeOrLast b r → j < 0xfffff → j ≢ r
taken_apart b r j taken (inl (free, le)) low same = taken (ap b.entries same ∙ free)
taken_apart b r j taken (inr (last, full)) low same = ground arith

pub table_copy-FramesKept :
    (table r : ℕ) (s : Machine) (b : Bitmap)
    → r < 2 ^ 20
    → FreeOrLast s.frames r
    → b.size ≡ s.frames.size
    → ((j : ℕ) → b.entries j ≡ (if j == r then 1 else s.frames.entries j))
    → FramesKept s (table_copy table (r * 0x1000) (record s { frames = b })).1
unfolding table_copy
table_copy-FramesKept table r s b small free size entries = record {
  size = size;
  used = λ j taken. rw (entries j) (ground arith);
  words = λ a low taken.
      let ne : a / 0x1000 ≢ r = taken_apart s.frames r (a / 0x1000) taken free (omega arith) in
      copy_words_outside 1024 0 table r s.memory a small (omega arith) (inl ne);
}

pub FramesKept-trans : {s t u : Machine} → FramesKept s t → FramesKept t u → FramesKept s u
FramesKept-trans first second = record {
  size = second.size ∙ first.size;
  used = λ j taken. second.used j (first.used j taken);
  words =
      λ a low taken. second.words a low (first.used (a / 0x1000) taken) ∙ first.words a low taken;
}

pub copy_used :
    (n i directory frame : ℕ) (s : Machine) (b : Bitmap)
    → bit (s.memory (word_at directory i)) 0 ≡ true
    → frame_alloc s.frames ≡ some (frame, b)
    → copy_tables (suc n) i directory s
      ≡ copy_tables n
          (i + 1)
          directory
          (table_copy (phy_get (s.memory (word_at directory i))) frame (record s { frames = b })).1
unfolding copy_tables
copy_used n i directory frame s b used made = rw (copy_tables, used, made) refl

pub copy_unused :
    (n i directory : ℕ) (s : Machine)
    → bit (s.memory (word_at directory i)) 0 ≡ false
    → copy_tables (suc n) i directory s ≡ copy_tables n (i + 1) directory s
unfolding copy_tables
copy_unused n i directory s unused = rw (copy_tables, unused) refl

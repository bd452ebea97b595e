-- ===== src/Paging/Tests.antt =====
-- The paging theorems at a machine with one directory and one table.
use comet_os.Base.{
  zero, ◌∙◌, sym, false, ◌⊎◌, ◌≢◌, true, bit, ◌<◌, ◌*◌, ltb, ℕ, suc, ◌/◌, ◌+◌, ◌≡◌, refl, some,
  arith, ◌==◌, if◌then◌else◌,
}
use comet_os.Paging.Copy.{FramesKept}
use comet_os.Paging.Copy.Tables.{TablesUsed, HasCopy, IsFull, table_of, directory_copy-copies}
use comet_os.Paging.Start.{reserve, reserve-frames}
use comet_os.Paging.{
  directory_of, entry_at, page_size, page_size, Bitmap, Machine, Words, page_map, page_unmap,
  directory_copy, word_at,
}
use comet_os.Paging.Map.{IsDirectory}
use comet_os.Paging.Translate.{Remapped, page_map_remaps, page_unmap_remaps}

-- The directory at 0x1000 has the table at 0x2000 as its entry 0, and no other.
abbrev words : Words
words a = if a == 0x1000 then 0x2003 else 0

abbrev machine : Machine
machine = record {
  memory = words;
  frames = record { entries = λ j. 0; size = 16 };
  paging_state = 1;
  cr3 = 0x1000;
  cr0 = 0;
}

words-IsDirectory : IsDirectory 0x1000 words
words-IsDirectory = record {
  aligned = refl;
  in_space = omega arith;
  apart = λ i h e. ground arith;
  small = λ i h. ground arith;
  distinct = λ i j h k e f g. ground arith;
}

page_map_remaps_example :
    (s' : Machine) × (page_map 0x7000 0x5000 3 0 machine ≡ some (0x5000, s'))
    × Remapped 0 0x5000 0x7000 machine s'
page_map_remaps_example =
    page_map_remaps machine 0 0x5000 0x7000 3 words-IsDirectory refl (omega arith) (omega arith)
      (omega arith)

page_unmap_remaps_example :
    (s' : Machine) × (page_unmap 0x5000 0 machine ≡ (1, s'))
    × (s'.memory (entry_at (directory_of 0 s') 0x5000 s'.memory) ≡ 0)
    × Remapped 0 0x5000 0 machine s'
page_unmap_remaps_example = page_unmap_remaps machine 0 0x5000 words-IsDirectory refl (omega arith)

abbrev start_frames : Bitmap
start_frames = record { entries = λ i. 0; size = 64 }

reserve-frames_example :
    (b' : Bitmap) × (reserve ((0x2001 + 4095) / page_size + suc 0) 0 0x2001 start_frames ≡ some b')
    × (b'.size ≡ 64)
    × ((j : ℕ) → b'.entries j ≡ (if ltb (j * page_size) 0x2001 then 1 else 0))
reserve-frames_example = reserve-frames 0 0x2001 start_frames (omega arith)

-- The directory and its table stand in frames in use.
abbrev copy_machine : Machine
copy_machine = record machine {
  frames = record { entries = λ j. if j == 1 then 1 else if j == 2 then 1 else 0; size = 16 };
}

copy_machine-TablesUsed : TablesUsed 1 copy_machine
copy_machine-TablesUsed = (omega arith, λ e. ground arith, in_use)
  where
    in_use :
        (i : ℕ)
        → i < 1024
        → bit (words (word_at 0x1000 i)) 0 ≡ true
        → (table_of 1 i words < 0xfffff000)
          × (copy_machine.frames.entries (table_of 1 i words / 0x1000) ≢ 0)
    in_use zero h present = (omega arith, λ e. ground arith)
    in_use (suc i) h present =
        let other : (word_at 0x1000 (suc i) == 0x1000) ≡ false = ground arith in
        let unused : bit (words (word_at 0x1000 (suc i))) 0 ≡ false = rw (other) refl in
        let never : true ≡ false = sym present ∙ unused in cc

directory_copy-copies_example :
    (s' : Machine) × (directory_copy (1 * 0x1000) 0x8000 copy_machine ≡ some (0x8000, s'))
    × FramesKept copy_machine s'
    × ((i : ℕ)
        → i < 1024
        → bit (words (word_at (1 * 0x1000) i)) 0 ≡ true
        → HasCopy (table_of 1 i words) copy_machine s' ⊎ IsFull s')
directory_copy-copies_example =
    directory_copy-copies 1 0x8000 copy_machine (omega arith) copy_machine-TablesUsed

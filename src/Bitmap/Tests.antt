-- ===== src/Bitmap/Tests.antt =====
-- Tests of the bitmap, and its theorems at inputs.
use comet_os.Base.{ℕ, ◌≡◌, refl, some, arith, ltb, if◌then◌else◌}
use comet_os.Bitmap.{Bitmap, entrie_find}
use comet_os.Bitmap.Find.{First, entrie_find-First}

-- Entries 0 to 2 are used, the rest is free.
abbrev sample : Bitmap
sample = record { entries = λ j. if ltb j 3 then 1 else 0; size = 8 }

find_three : entrie_find 2 0 sample ≡ some 3
unfolding entrie_find
find_three = refl

-- No bound is kept: a run that starts at the size is found behind the bitmap.
find_behind :
    entrie_find 4 0 (record { entries = λ j. if ltb j 8 then 1 else 0; size = 8 }) ≡ some 8
unfolding entrie_find
find_behind = refl

entrie_find-First_example : (r : ℕ) × (entrie_find 2 0 sample ≡ some r) × First sample 2 0 0 r
entrie_find-First_example = entrie_find-First 2 0 sample (omega arith)

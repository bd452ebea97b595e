-- ===== src/Frames/Tests.antt =====
-- The frame theorems at inputs.
use comet_os.Base.{ℕ, ◌*◌, ◌≤◌, ◌<◌, ◌≡◌, refl, ◌≢◌, some, arith, ltb, ◌==◌, if◌then◌else◌}
use comet_os.Bitmap.{Bitmap}
use comet_os.Frames.{frame_alloc, frame_test, frame_free}
use comet_os.Frames.Alloc.{frame_alloc-First}

abbrev some_free : Bitmap
some_free = record { entries = λ j. if ltb j 5 then 1 else 0; size = 100 }

abbrev none_free : Bitmap
none_free = record { entries = λ j. 1; size = 100 }

frame_alloc-First_example :
    (r : ℕ) × (b' : Bitmap) × (frame_alloc some_free ≡ some (r * 0x1000, b'))
    × (r ≤ 7)
    × (some_free.entries r ≡ 0)
    × ((j : ℕ) → j < r → some_free.entries j ≢ 0)
    × ((j : ℕ) → b'.entries j ≡ (if j == r then 1 else some_free.entries j))
    × (frame_test (r * 0x1000) b' ≡ 1)
    × ((j : ℕ) → (frame_free (r * 0x1000) b').entries j ≡ some_free.entries j)
frame_alloc-First_example = frame_alloc-First some_free 7 (omega arith) (omega arith) refl

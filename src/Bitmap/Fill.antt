-- ===== src/Bitmap/Fill.antt =====
-- `bitmap_map` of kernel/kernel/array.c.
use comet_os.Base.{ℕ, zero, suc, ◌+◌, ◌-◌, ◌≡◌, refl, arith, leb, ltb, u32, ◌&&◌, if◌then◌else◌}
use comet_os.Bitmap.{Bitmap, entrie_set, fill, map}

size-fill : (n i value : ℕ) (b : Bitmap) → (fill n i value b).size ≡ b.size
unfolding fill entrie_set
size-fill zero i value b = refl
size-fill (suc n) i value b = size-fill n (i + 1) value _

fill_entries :
    (n i value : ℕ) (b : Bitmap) (j : ℕ)
    → (fill n i value b).entries j ≡ (if leb i j && ltb j (i + n) then u32 value else b.entries j)
unfolding fill entrie_set
fill_entries zero i value b j = ground arith
fill_entries (suc n) i value b j =
    ground (arith, fill_entries n (i + 1) value (entrie_set i value b).1 j)

-- If `end` is at most the size, `bitmap_map` writes `value` to exactly the entries from `start` to
-- below `end`; otherwise it writes nothing. The size stays.
pub map_lem :
    (start end value : ℕ) (b : Bitmap) (j : ℕ)
    → ((map start end value b).entries j
        ≡ (if leb end b.size && (leb start j && ltb j end) then u32 value else b.entries j))
      × ((map start end value b).size ≡ b.size)
unfolding map
map_lem start end value b j = (
  ground (arith, fill_entries (end - start) start value b j),
  ground (arith, size-fill (end - start) start value b),
)

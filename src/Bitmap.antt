-- ===== src/Bitmap.antt =====
-- The bitmap of kernel/kernel/array.c, whose frame and heap users stand in Paging and Heap.
-- `entries` is what the words from the `entries` pointer on hold: C checks no bound, so the words
-- behind the allocation are read and written like any other. Words are `uint32_t`.
pub mod Find
pub mod Fill
mod Tests
use comet_os.Base.{
  ℕ, zero, suc, ◌+◌, ◌-◌, ◌≤◌, ◌<◌, ◌^◌, Bool, true, false, Option, none, some, leb, ltb, ◌==◌, u32,
  if◌then◌else◌,
}
use Prim.Native.Nat.{max}

pub record Bitmap : Type 0 where
  pub entries : ℕ → ℕ
  pub size : ℕ

-- `return bitmap->entries[index] = value`: the value assigned, and the bitmap after it.
unfoldable pub entrie_set : ℕ → ℕ → Bitmap → ℕ × Bitmap
entrie_set index value b =
    (u32 value, record b { entries = λ j. if j == index then u32 value else b.entries j })

unfoldable pub entrie_check : ℕ → Bitmap → ℕ
entrie_check index b = b.entries index

-- The inner loop of `bitmap_entrie_find`, with `f` rounds left: whether it returns.
run_found : ℕ → ℕ → ℕ → Bitmap → ℕ → ℕ → Bool
run_found zero size value b i x = false
run_found (suc f) size value b i x =
    let rest = run_found f size value b i (u32 (x + 1)) in
    if b.entries (u32 (i + x)) == value
    then (if leb size (u32 (x + 1)) then true else rest)
    else false

-- The outer loop; `none` is the want of fuel, and `(uint32_t)-1` is no find.
find_from : ℕ → ℕ → ℕ → Bitmap → ℕ → Option ℕ
unfolding run_found
find_from zero size value b i = none
find_from (suc f) size value b i =
    let rest = find_from f size value b (u32 (i + 1)) in
    if leb i b.size
    then (if b.entries i == value
        then (if run_found (max 1 size) size value b i 0 then some i else rest)
        else rest)
    else some (2 ^ 32 - 1)

-- The outer loop makes at most `size + 1` rounds and a last test.
unfoldable pub entrie_find : ℕ → ℕ → Bitmap → Option ℕ
unfolding find_from
entrie_find size value b = find_from (b.size + 2) size value b 0

-- `while(i < end) { bitmap_entrie_set(i, value, bitmap); i++; }` with `n` rounds left.
fill : ℕ → ℕ → ℕ → Bitmap → Bitmap
fill zero i value b = b
fill (suc n) i value b = fill n (i + 1) value (entrie_set i value b).1

-- `start < 0` is never so of a `uint32_t`. `i` stays below `end`, so that `i++` does not wrap.
unfoldable pub map : ℕ → ℕ → ℕ → Bitmap → Bitmap
unfolding fill entrie_set
map start end value b = if ltb b.size end then b else fill (end - start) start value b

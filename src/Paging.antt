-- ===== src/Paging.antt =====
-- Page directories and tables of kernel/arch/i386/mem/paging.c. `memory` gives the 32-bit word at
-- each address that is a multiple of 4; tables stand at their physical addresses, which the kernel
-- maps to themselves. The translation buffer that `flush_tlb` clears is not part of the state.
mod Map
pub mod Translate
pub mod Start
pub mod Copy
mod Tests
use mathlib.Core.Option
use comet_os.Base.{
  ℕ, zero, suc, ◌+◌, ◌-◌, ◌*◌, ◌/◌, ◌%◌, ◌^◌, bit_or, Bool, true, false, Option, none, some, leb,
  ltb, ◌==◌, ◌!=◌, ◌&&◌, ◌||◌, u32, sub32, bit, if◌then◌else◌,
}
use comet_os.Bitmap
use comet_os.Bitmap.{Bitmap}
use comet_os.Frames.{frame_set, frame_free, frame_alloc}

abbrev pub Words : Type 0
Words = ℕ → ℕ

-- The words, `frame_bitmap`, `paging_state` and the registers cr3 and cr0.
pub record Machine : Type 0 where
  pub memory : Words
  pub frames : Bitmap
  pub paging_state : ℕ
  pub cr3 : ℕ
  pub cr0 : ℕ

abbrev pub page_size : ℕ
page_size = 0x1000

-- DIR_GET, TLB_GET and PHY_GET.
abbrev pub dir_get : ℕ → ℕ
dir_get i = i / 2 ^ 22 % 2 ^ 10

abbrev pub tlb_get : ℕ → ℕ
tlb_get i = i / 2 ^ 12 % 2 ^ 10

abbrev pub phy_get : ℕ → ℕ
phy_get i = i / 0x1000 * 0x1000

-- `a[i]` of a word array at `a`, and `a[i] = v`.
abbrev pub word_at : ℕ → ℕ → ℕ
word_at a i = u32 (a + 4 * i)

unfoldable pub store : ℕ → ℕ → Words → Words
store addr v m a = if a == addr then v else m a

-- `for(i = 0; i < n; i++) table[i] = f(i)`, from `i` on with `n` rounds left.
fill_table : ℕ → ℕ → (ℕ → ℕ) → ℕ → Words → Words
unfolding store
fill_table zero i f table m = m
fill_table (suc n) i f table m = fill_table n (i + 1) f table (store (word_at table i) (f i) m)

-- The loop `table[i] |= flags`.
flag_table : ℕ → ℕ → ℕ → ℕ → Words → Words
unfolding store
flag_table zero i flags table m = m
flag_table (suc n) i flags table m =
    flag_table n (i + 1) flags table
      (store (word_at table i) (bit_or (m (word_at table i)) flags) m)

-- `memset(start, 0, size)` on whole words: the addresses at a distance below `size` from `start`,
-- round the end of the address space.
unfoldable pub clear : ℕ → ℕ → Words → Words
clear start size m a = if ltb (sub32 a start) size then 0 else m a

-- The words of a new table. The third argument of `memset` is the pointer `table + 0x1000` of
-- words, so 0x4000 bytes behind the table, and not a size.
table_words : ℕ → ℕ → ℕ → Words → Words
unfolding fill_table flag_table clear
table_words state flags table m =
    if state == 0
    then fill_table 1024 0 (λ i. bit_or (i * page_size) 3) table m
    else (let cleared = clear table (u32 (table + 0x4000)) m in
        if flags != 0 then flag_table 1024 0 flags table cleared else cleared)

-- 0 stands for NULL; `none` is the want of fuel of `frame_alloc`.
unfoldable pub table_create : ℕ → Machine → Option (ℕ × Machine)
unfolding table_words
table_create flags s = Option.map made (frame_alloc s.frames)
  where
    made : ℕ × Bitmap → ℕ × Machine
    made (table, b) = if table == 0 then (0, record s { frames = b }) else (
      table,
      record s { frames = b; memory = table_words s.paging_state flags table s.memory },
    )

unfoldable pub table_map : ℕ → ℕ → ℕ → ℕ → Machine → Machine
unfolding store
table_map directory pdindex table_addr flags s = record s {
  memory = store (word_at directory pdindex) (bit_or table_addr flags) s.memory;
}

unfoldable pub table_unmap : ℕ → ℕ → Machine → Machine
unfolding store
table_unmap directory pdindex s = record s { memory = store (word_at directory pdindex) 0 s.memory }

unfoldable pub table_remove : ℕ → Machine → Machine
table_remove table_addr s = record s { frames = frame_free table_addr s.frames }

pub copy_words : ℕ → ℕ → ℕ → ℕ → Words → Words
unfolding store
copy_words zero i table copy m = m
copy_words (suc n) i table copy m =
    copy_words n (i + 1) table copy (store (word_at copy i) (m (word_at table i)) m)

unfoldable pub table_copy : ℕ → ℕ → Machine → ℕ × Machine
unfolding copy_words
table_copy table copy s = (copy, record s { memory = copy_words 1024 0 table copy s.memory })

unfoldable pub directory_create : ℕ → Machine → Option (ℕ × Machine)
unfolding fill_table
directory_create flags s = Option.map made (frame_alloc s.frames)
  where
    made : ℕ × Bitmap → ℕ × Machine
    made (directory, b) = if directory == 0 then (0, record s { frames = b }) else (
      directory,
      record s { frames = b; memory = fill_table 1024 0 (λ i. flags) directory s.memory },
    )

unfoldable pub directory_remove : ℕ → Machine → Machine
directory_remove directory_addr s = record s { frames = frame_free directory_addr s.frames }

-- `directory_copy` copies each table in use into a new frame, and maps none of the copies.
pub copy_tables : ℕ → ℕ → ℕ → Machine → Option Machine
copy_tables zero i directory s = some s
copy_tables (suc n) i directory s =
    let entry = s.memory (word_at directory i) in
    elim (bit entry 0) [
      | true ↦ elim (frame_alloc s.frames) [
        | none ↦ none
        | some (frame, b) ↦
            copy_tables n (i + 1) directory
              (table_copy (phy_get entry) frame (record s { frames = b })).1
      ]
      | false ↦ copy_tables n (i + 1) directory s
    ]

unfoldable pub directory_copy : ℕ → ℕ → Machine → Option (ℕ × Machine)
unfolding copy_tables
directory_copy directory copy s = Option.map (λ t. (copy, t)) (copy_tables 1024 0 directory s)

unfoldable pub directory_load : ℕ → Machine → Machine
directory_load addr s = record s { cr3 = addr }

unfoldable pub paging_enable : Machine → Machine
paging_enable s = record s { cr0 = bit_or s.cr0 0x80000000 }

-- The directory that `page_dir` names, or the current one.
abbrev pub directory_of : ℕ → Machine → ℕ
directory_of page_dir s = if page_dir != 0 then page_dir else s.cr3

-- The entry of `virtualaddr` in the table of its directory entry, if that is written.
abbrev pub entry_at : ℕ → ℕ → Words → ℕ
entry_at pd virtualaddr m =
    word_at (phy_get (m (word_at pd (dir_get virtualaddr)))) (tlb_get virtualaddr)

-- The directory entry is made first, where it is not in use.
with_table : ℕ → ℕ → Machine → Option Machine
unfolding table_create table_map
with_table pd virtualaddr s =
    if bit (s.memory (word_at pd (dir_get virtualaddr))) 0
    then some s
    else Option.map (λ (table, t). table_map pd (dir_get virtualaddr) table 3 t) (table_create 3 s)

unfoldable pub page_map : ℕ → ℕ → ℕ → ℕ → Machine → Option (ℕ × Machine)
unfolding with_table store
page_map physaddr virtualaddr flags page_dir s =
    if (virtualaddr % 0x1000 != 0) || (physaddr % 0x1000 != 0)
    then some (0, s)
    else Option.map put (with_table pd virtualaddr s)
  where
    pd : ℕ
    pd = directory_of page_dir s

    put : Machine → ℕ × Machine
    put t = (
      virtualaddr,
      record t {
        memory =
            store (entry_at pd virtualaddr t.memory) (bit_or (bit_or physaddr flags) 1) t.memory;
      },
    )

unfoldable pub page_unmap : ℕ → ℕ → Machine → ℕ × Machine
unfolding store
page_unmap virtualaddr page_dir s =
    let pd = directory_of page_dir s in
    if virtualaddr % 0x1000 != 0
    then (0, s)
    else if bit (s.memory (word_at pd (dir_get virtualaddr))) 0
    then (1, record s { memory = store (entry_at pd virtualaddr s.memory) 0 s.memory })
    else (1, s)

-- The last steps of `page_physaddr`, on the words of the directory and of the table.
looked_up : ℕ → ℕ → ℕ → ℕ
looked_up directory_word table_word virtualaddr =
    if virtualaddr % 0x1000 != 0
    then 0
    else if bit directory_word 0
    then (if bit table_word 0 then u32 (phy_get table_word + virtualaddr % 0x1000) else 0)
    else 0

unfoldable pub page_physaddr : ℕ → ℕ → Machine → ℕ
unfolding looked_up
page_physaddr virtualaddr page_dir s =
    let pd = directory_of page_dir s in
    looked_up (s.memory (word_at pd (dir_get virtualaddr)))
      (s.memory (entry_at pd virtualaddr s.memory)) virtualaddr

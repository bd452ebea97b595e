-- ===== src/Entry/Modules.antt =====
-- The modules that `multiboot_print` of kernel/include/kernel/multiboot.h takes over.
use comet_os.Base.{ap, ◌∙◌, ℕ, zero, suc, ◌+◌, ◌*◌, ◌<◌, ◌^◌, ◌≡◌, arith, true, bit, u32, sub32}
use mathlib.Core.Path.{ap₂}
use comet_os.Kmalloc.{ponter_move_int}
use comet_os.Libc.Mem.{Bytes}
use comet_os.Ext2.{field32}
use comet_os.Entry.{Multiboot, load_module, load_modules, multiboot_print}

-- By how much the rounds from `i` on move the pointer: by the differences of a word that is taken
-- for a module's end and one that is taken for its start. Of the modules, which have 16 bytes each in
-- the table, only the first has them there.
pub differences : ℕ → ℕ → ℕ → Bytes → ℕ
differences zero i mods_addr m = 0
differences (suc n) i mods_addr m =
    sub32 (field32 (u32 (mods_addr + 8 * i + 4)) m) (field32 (u32 (mods_addr + 32 * i)) m)
    + differences n (i + 1) mods_addr m

load_modules-start :
    (n i mods_addr : ℕ) (m : Bytes) (s : ℕ × ℕ)
    → (load_modules (suc n) i mods_addr m s).0 ≡ field32 (u32 (mods_addr + 32 * (i + n))) m
unfolding load_modules
load_modules-start zero i mods_addr m s = ap (λ x. field32 (u32 x) m) (omega arith)
load_modules-start (suc n) i mods_addr m s =
    load_modules-start n (i + 1) mods_addr m (load_module i mods_addr m s)
    ∙ ap (λ x. field32 (u32 x) m)
        (let at : mods_addr + 32 * (i + 1 + n) ≡ mods_addr + 32 * (i + suc n) = omega arith in at)

load_modules-pointer :
    (n i mods_addr : ℕ) (m : Bytes) (s : ℕ × ℕ)
    → s.1 < 2 ^ 32
    → (load_modules n i mods_addr m s).1 ≡ u32 (s.1 + differences n i mods_addr m)
unfolding load_modules load_module differences ponter_move_int
load_modules-pointer zero i mods_addr m s small = omega arith
load_modules-pointer (suc n) i mods_addr m s small =
    let same : 4 * (8 * i) ≡ 32 * i = omega arith in
    let rest =
      load_modules-pointer n (i + 1) mods_addr m (load_module i mods_addr m s) (omega arith) in
    rest ∙ rw (same) (omega arith)

-- Where the loader gives at least one module, `multiboot_print` leaves in `module_start` the word
-- that stands 32 bytes for each module but the last from `mods_addr` on, and moves `kernel_pointer` on
-- by the differences, for each module `i`, of the word at `mods_addr + 8 * i + 4` and the word at
-- `mods_addr + 32 * i`.
pub multiboot_print-modules :
    (mboot : Multiboot) (n : ℕ) (m : Bytes) (module_start kernel_pointer : ℕ)
    → bit mboot.flags 3 ≡ true
    → mboot.mods_count ≡ suc n
    → kernel_pointer < 2 ^ 32
    → multiboot_print mboot m (module_start, kernel_pointer) ≡ (
      field32 (u32 (mboot.mods_addr + 32 * n)) m,
      u32 (kernel_pointer + differences (suc n) 0 mboot.mods_addr m),
    )
unfolding multiboot_print
multiboot_print-modules mboot n m module_start kernel_pointer given count small =
    let s : ℕ × ℕ = (module_start, kernel_pointer) in
    let none_yet : 0 + n ≡ n = omega arith in
    rw (multiboot_print, given, count)
      (ap₂ (λ x y. (x, y))
        (load_modules-start n 0 mboot.mods_addr m s
          ∙ ap (λ j. field32 (u32 (mboot.mods_addr + 32 * j)) m) none_yet)
        (load_modules-pointer (suc n) 0 mboot.mods_addr m s small))

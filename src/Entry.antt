-- ===== src/Entry.antt =====
-- The entry of the kernel, kernel/kernel/kernel.c, with the modules of the boot loader,
-- kernel/include/kernel/multiboot.h, and `paging_initialize` of kernel/arch/i386/mem/paging.c. Console
-- output is not part of the state. `debug` says whether the build defines DEBUG; the trial read that
-- `initrd_initialize` makes then, Initrd.Mount.trial, is left out here. FLOPPY is not defined.
pub mod Started
pub mod Modules
pub mod Output
pub mod Shown
mod Tests
use comet_os.Base.{
  not, ◌&&◌, ℕ, zero, suc, ◌+◌, ◌*◌, ◌/◌, Bool, true, false, Option, none, some, ltb, ◌==◌, ◌!=◌,
  u32, sub32, bit, if◌then◌else◌,
}
use comet_os.Bitmap.{Bitmap}
use comet_os.Descriptors.{IdtEntry, idt_initialize}
use comet_os.Ext2.{field32}
use comet_os.Heap.{Heap}
use comet_os.Heap.Create.{heap_create}
use comet_os.Initrd
use comet_os.Initrd.{Operations, Node}
use comet_os.Interrupts.{Cpu, isr_install_handler, pic_initialize}
use comet_os.Keyboard.{keyboard_install}
use comet_os.Kmalloc.{Liballoc, Kernel, ponter_move_int, bitmap_create, kmalloc}
use comet_os.Libc.Mem.{Bytes}
use comet_os.Libc.Text.{◌>>=◌}
use comet_os.Paging.{Machine}
use comet_os.Paging.Start
use comet_os.Timer.{pit_install}

-- `struct multiboot`.
pub record Multiboot : Type 0 where
  pub flags : ℕ
  pub mem_lower : ℕ
  pub mem_upper : ℕ
  pub boot_device : ℕ
  pub cmdline : ℕ
  pub mods_count : ℕ
  pub mods_addr : ℕ
  pub num : ℕ
  pub size : ℕ
  pub addr : ℕ
  pub shndx : ℕ
  pub mmap_length : ℕ
  pub mmap_addr : ℕ
  pub drives_length : ℕ
  pub drives_addr : ℕ
  pub config_table : ℕ
  pub boot_loader_name : ℕ
  pub apm_table : ℕ
  pub vbe_control_info : ℕ
  pub vbe_mode_info : ℕ
  pub vbe_mode : ℕ
  pub vbe_interface_seg : ℕ
  pub vbe_interface_off : ℕ
  pub vbe_interface_len : ℕ

-- The states of the parts. `bytes` is the memory that the boot loader's tables and the disk stand in,
-- and `module_start` that of the last module.
pub record System (L : Type 0) : Type 0 where
  pub cpu : Cpu
  pub idt : ℕ → IdtEntry
  pub machine : Machine
  pub kernel : Kernel L
  pub kernel_heap : Option Heap
  pub interrupts : Bool
  pub bytes : Bytes
  pub module_start : ℕ
  pub superblock : ℕ
  pub fs_root : Option Node

-- The addresses of the handlers that are installed, and of the entries of the interrupt table.
pub record Handlers : Type 0 where
  pub pit_at : ℕ
  pub keyboard_at : ℕ
  pub page_fault_at : ℕ
  pub isr : ℕ → ℕ
  pub irq : ℕ → ℕ
  pub operations : Operations

abbrev pub max_mem : ℕ
max_mem = 0xee6b2800

-- A round of the loop over the modules: `module_start`, which is read at a pointer to words, and
-- `kernel_pointer`.
unfoldable pub load_module : ℕ → ℕ → Bytes → ℕ × ℕ → ℕ × ℕ
load_module i mods_addr m (module_start, kernel_pointer) =
    let start = field32 (u32 (mods_addr + 4 * (8 * i))) m in
    let end = field32 (u32 (mods_addr + 8 * i + 4)) m in
    (start, (ponter_move_int (sub32 end start) false 0 kernel_pointer).2)

-- The rounds from `i` on, of which `n` are left.
unfoldable pub load_modules : ℕ → ℕ → ℕ → Bytes → ℕ × ℕ → ℕ × ℕ
unfolding load_module
load_modules zero i mods_addr m s = s
load_modules (suc n) i mods_addr m s =
    load_modules n (i + 1) mods_addr m (load_module i mods_addr m s)

-- What `multiboot_print` changes.
unfoldable pub multiboot_print : Multiboot → Bytes → ℕ × ℕ → ℕ × ℕ
unfolding load_modules
multiboot_print mboot m s =
    if bit mboot.flags 3 then load_modules mboot.mods_count 0 mboot.mods_addr m s else s

unfoldable pub take_modules : {L : Type 0} → Multiboot → System L → System L
unfolding multiboot_print
take_modules mboot s =
    let (module_start, kernel_pointer) =
      multiboot_print mboot s.bytes (s.module_start, s.kernel.kernel_pointer) in
    record s {
      module_start = module_start;
      kernel = record s.kernel { kernel_pointer = kernel_pointer };
    }

-- How the start ends: the kernel hangs, or it comes to its main loop.
pub data Outcome (L : Type 0) : Type 0 where
  hung : System L → Outcome L
  running : System L → Outcome L

-- `kernel_hang` stops the processor, and returns when an interrupt comes.
unfoldable pub kernel_hang : {L : Type 0} → System L → System L
kernel_hang s = record s { cpu = record s.cpu { halted = true } }

module _ {L : Type 0} (lib : Liballoc L) (handlers : Handlers) where
  -- `paging_initialize`; `words` and `heap_words` are what stands where the two bitmaps get their
  -- entries.
  unfoldable pub paging_initialize : ℕ → ℕ → (ℕ → ℕ) → (ℕ → ℕ) → System L → Option (System L)
  unfolding bitmap_create heap_create Start.initialize isr_install_handler
  paging_initialize fuel mem_upper words heap_words s =
      let frames = bitmap_create lib (u32 mem_upper / 4) words s.kernel in
      let (heap_at, heap, k) = heap_create lib mem_upper 0 1 0 heap_words frames.kernel in
      elim (Start.initialize fuel k.kernel_pointer (record s.machine { frames = frames.bitmap })) [
        | none ↦ none
        | some machine ↦ some (record s {
          machine = machine;
          kernel = record k { paging_state = 1 };
          kernel_heap = some heap;
          cpu = isr_install_handler 14 handlers.page_fault_at s.cpu;
        })
      ]

  -- The first steps, up to the test of the memory.
  unfoldable pub early : Bool → Multiboot → System L → Option (System L)
  unfolding take_modules idt_initialize pic_initialize pit_install
  early debug mboot s =
      let t = if debug then take_modules mboot s else s in
      let table = idt_initialize handlers.isr handlers.irq in
      elim (pit_install handlers.pit_at (record t.cpu { bus = pic_initialize t.cpu.bus })) [
        | none ↦ none
        | some cpu ↦ some (record t { idt = table; cpu = cpu })
      ]

  -- `initrd_initialize` and the root of the file system; a `file_t` has 184 bytes.
  unfoldable pub mount : System L → Option (Outcome L)
  unfolding kmalloc Initrd.initialize
  mount s =
      let (made, k) = kmalloc lib 184 s.kernel in
      elim (Initrd.initialize s.interrupts handlers.operations s.module_start made s.bytes) [
        | none ↦ none
        | some Initrd.halted ↦ some (hung s)
        | some (Initrd.started superblock root bytes) ↦ some (
            running (record s {
              kernel = k;
              superblock = superblock;
              fs_root = some root;
              bytes = bytes;
            }))
      ]

  -- From `sti` on.
  unfoldable pub late : Multiboot → System L → Option (Outcome L)
  unfolding take_modules keyboard_install mount
  late mboot s =
      let t = take_modules mboot (record s { interrupts = true }) in
      mount (record t { cpu = keyboard_install handlers.keyboard_at t.cpu })

  -- From the start of the paging on.
  unfoldable pub from_paging : ℕ → Multiboot → (ℕ → ℕ) → (ℕ → ℕ) → System L → Option (Outcome L)
  unfolding paging_initialize late
  from_paging fuel mboot words heap_words s =
      elim (paging_initialize fuel mboot.mem_upper words heap_words s) [
        | none ↦ none
        | some t ↦ late mboot t
      ]

  -- From the test of the memory on. With the interrupts on the timer wakes the processor from
  -- `kernel_hang`, and the start goes on.
  unfoldable pub guarded : ℕ → Multiboot → (ℕ → ℕ) → (ℕ → ℕ) → System L → Option (Outcome L)
  unfolding from_paging kernel_hang
  guarded fuel mboot words heap_words s =
      if ltb max_mem (u32 mboot.mem_upper) && not s.interrupts
      then some (hung (kernel_hang s))
      else from_paging fuel mboot words heap_words s

  unfoldable pub kernel_main :
      Bool → ℕ → Multiboot → (ℕ → ℕ) → (ℕ → ℕ) → System L → Option (Outcome L)
  unfolding early guarded
  kernel_main debug fuel mboot words heap_words s =
      early debug mboot s >>= guarded fuel mboot words heap_words

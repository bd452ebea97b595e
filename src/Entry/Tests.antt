-- ===== src/Entry/Tests.antt =====
-- The start of the kernel at a machine with nothing in memory and a disk with nothing but counts.
use comet_os.Base.{
  ◌⊎◌, ◌*◌, ◌+◌, [], ◌≤◌, ◌≡◌, ◌≢◌, ℕ, Bool, Option, true, false, some, none, refl, arith, u32,
  ◌==◌, if◌then◌else◌,
}
use comet_os.Kmalloc.{Liballoc, ponter_move_int}
use comet_os.Entry.{
  System, Multiboot, Handlers, Outcome, hung, running, kernel_main, max_mem, multiboot_print,
}
use comet_os.Terminal.{Terminal}
use comet_os.Terminal.Output.{Keeps}
use comet_os.Console.{show, codes}
use comet_os.Entry.Output.{multiboot_shown}
use comet_os.Entry.Shown.{multiboot_shown-Keeps}
use comet_os.Libc.Mem.{Bytes}
use comet_os.Entry.Modules.{differences, multiboot_print-modules}
use comet_os.Entry.Started.{kernel_main-running}
use comet_os.Descriptors.{idt_initialize}
use comet_os.Ext2.{field16, field32, superblock_get, inode_get}
use comet_os.Bitmap
use comet_os.Frames
use comet_os.Paging

abbrev rising : Liballoc ℕ
rising = record {
  malloc = λ size l. (l, l + size);
  realloc = λ addr size l. (l, l + size);
  calloc = λ n size l. (l, l + n * size);
  free = λ addr l. l;
}

abbrev handlers : Handlers
handlers = record {
  pit_at = 0x1111;
  keyboard_at = 0x2222;
  page_fault_at = 0x3333;
  isr = λ i. 0x4000 + i;
  irq = λ i. 0x5000 + i;
  operations = record { read_at = 1; readdir_at = 2; finddir_at = 3 };
}

abbrev multiboot : ℕ → Multiboot
multiboot mem_upper = record {
  flags = 1;
  mem_lower = 640;
  mem_upper = mem_upper;
  boot_device = 0;
  cmdline = 0;
  mods_count = 0;
  mods_addr = 0;
  num = 0;
  size = 0;
  addr = 0;
  shndx = 0;
  mmap_length = 0;
  mmap_addr = 0;
  drives_length = 0;
  drives_addr = 0;
  config_table = 0;
  boot_loader_name = 0;
  apm_table = 0;
  vbe_control_info = 0;
  vbe_mode_info = 0;
  vbe_mode = 0;
  vbe_interface_seg = 0;
  vbe_interface_off = 0;
  vbe_interface_len = 0;
}

-- The superblock counts one inode in each group.
abbrev system : System ℕ
system = record {
  cpu = record {
    irq_routines = λ i. 0;
    isr_routines = λ i. 0;
    bus = record { history = []; answer = λ h p. 0 };
    halted = false;
  };
  idt = λ i. record { handler_low = 0; selector = 0; ist = 0; flags = 0; handler_high = 0 };
  machine = record {
    memory = λ a. 0;
    frames = record { entries = λ i. 0; size = 0 };
    paging_state = 0;
    cr3 = 0;
    cr0 = 0;
  };
  kernel = record { kernel_pointer = 16; paging_state = 0; lib = 0 };
  kernel_heap = none;
  interrupts = false;
  bytes = λ a. 1;
  module_start = 0;
  superblock = 0;
  fs_root = none;
}

abbrev outcome : Option (Outcome ℕ)
outcome = kernel_main rising handlers true 20 (multiboot 256) (λ i. 0) (λ i. 0) system

is_running : Option (Outcome ℕ) → Bool
is_running (some (running b)) = true
is_running (some (hung b)) = false
is_running none = false

state_of : Option (Outcome ℕ) → System ℕ
state_of (some (running b)) = b
state_of (some (hung b)) = b
state_of none = system

running_of : (o : Option (Outcome ℕ)) → is_running o ≡ true → o ≡ some (running (state_of o))
unfolding is_running state_of
running_of (some (running b)) e = refl
running_of (some (hung b)) e = ground arith
running_of none e = ground arith

comes_up : is_running outcome ≡ true
unfolding kernel_main is_running Paging.directory_create Frames.frame_alloc Bitmap.entrie_find
    Frames.frame_set Bitmap.entrie_set Bitmap.map Paging.page_map Paging.directory_load field16
    superblock_get inode_get field32
comes_up = refl

kernel_main-running_example :
    ((u32 256 ≤ max_mem) ⊎ (system.interrupts ≡ true))
    × ((state_of outcome).idt ≡ idt_initialize handlers.isr handlers.irq)
    × ((j : ℕ)
        → (state_of outcome).cpu.irq_routines j
          ≡ (if j == 0 then 0x1111 else if j == 1 then 0x2222 else 0))
    × ((j : ℕ) → (state_of outcome).cpu.isr_routines j ≡ (if j == 14 then 0x3333 else 0))
    × ((state_of outcome).interrupts ≡ true)
    × ((state_of outcome).kernel_heap ≢ none)
    × ((state_of outcome).fs_root ≢ none)
    × ((state_of outcome).kernel.paging_state ≡ 1)
    × ((state_of outcome).machine.paging_state ≡ 1)
kernel_main-running_example =
    kernel_main-running rising handlers true 20 (multiboot 256) (λ i. 0) (λ i. 0) system
      (state_of outcome) (running_of outcome comes_up)

-- Two modules: the words at the loader's table of entries of 16 bytes are read at 0, 4, 12 and 32.
abbrev table : Bytes
table a =
    if a == 1
    then 0x10
    else if a == 5
    then 0x30
    else if a == 13
    then 0x22
    else if a == 33
    then 0x20
    else 0

abbrev terminal : Terminal
terminal = record {
  row = 24;
  column = 80;
  color = 7;
  buffer = λ j. 0;
  bus = record { history = []; answer = λ h p. 0 };
}

abbrev loaded : Multiboot
loaded = record (multiboot 256) { flags = 9; mods_count = 2 }

multiboot_print-modules_example :
    multiboot_print loaded table (0, 0x8000)
    ≡ (field32 (u32 32) table, u32 (0x8000 + differences 2 0 0 table))
multiboot_print-modules_example =
    multiboot_print-modules loaded 1 table 0 0x8000 refl refl (omega arith)

moved : multiboot_print loaded table (0, 0x8000) ≡ (0x2000, 0xa200)
unfolding multiboot_print field32 ponter_move_int
moved = refl

multiboot_shown-Keeps_example :
    (u : Terminal) × (show (multiboot_shown (λ a. codes "kernel") 0x9500 loaded table) terminal
      ≡ some u)
    × Keeps terminal u
multiboot_shown-Keeps_example =
    multiboot_shown-Keeps (λ a. codes "kernel") 0x9500 loaded table terminal
      (record { row = omega arith; column = omega arith }) refl refl

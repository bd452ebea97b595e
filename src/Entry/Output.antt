-- ===== src/Entry/Output.antt =====
-- What `multiboot_print` of kernel/include/kernel/multiboot.h shows. `text_at` says which string stands
-- at an address.
use comet_os.Base.{Bool, ℕ, zero, suc, ◌+◌, ◌*◌, ◌/◌, List, [], ◌∷◌, ◌++◌, bit, true, false, u32}
use comet_os.Libc.Mem.{Bytes}
use comet_os.Libc.Stdio.{word, string}
use comet_os.Console.{Shown, text}
use comet_os.Ext2.{field32}
use comet_os.Entry.{Multiboot}

-- The lines of the header's fields.
unfoldable pub fields_shown : ℕ → Multiboot → List Shown
fields_shown address mboot =
    text "MULTIBOOT header at 0x%x:\n" (word address ∷ [])
    ∷ text "Flags : 0x%x " (word mboot.flags ∷ [])
    ∷ text "Mem Lo: 0x%x " (word mboot.mem_lower ∷ [])
    ∷ text "Mem Hi: 0x%x " (word mboot.mem_upper ∷ [])
    ∷ text "Boot d: 0x%x\n" (word mboot.boot_device ∷ [])
    ∷ text "cmdlin: 0x%x " (word mboot.cmdline ∷ [])
    ∷ text "Mods : 0x%x " (word mboot.mods_count ∷ [])
    ∷ text "Addr : 0x%x " (word mboot.mods_addr ∷ [])
    ∷ text "Syms : 0x%x\n" (word mboot.num ∷ [])
    ∷ text "Syms : 0x%x " (word mboot.size ∷ [])
    ∷ text "Syms : 0x%x " (word mboot.addr ∷ [])
    ∷ text "Syms : 0x%x " (word mboot.shndx ∷ [])
    ∷ text "MMap : 0x%x\n" (word mboot.mmap_length ∷ [])
    ∷ text "Addr : 0x%x " (word mboot.mmap_addr ∷ [])
    ∷ text "Drives: 0x%x " (word mboot.drives_length ∷ [])
    ∷ text "Addr : 0x%x " (word mboot.drives_addr ∷ [])
    ∷ text "Config: 0x%x\n" (word mboot.config_table ∷ [])
    ∷ text "Loader: 0x%x " (word mboot.boot_loader_name ∷ [])
    ∷ text "APM : 0x%x " (word mboot.apm_table ∷ [])
    ∷ text "VBE Co: 0x%x " (word mboot.vbe_control_info ∷ [])
    ∷ text "VBE Mo: 0x%x\n" (word mboot.vbe_mode_info ∷ [])
    ∷ text "VBE In: 0x%x " (word mboot.vbe_mode ∷ [])
    ∷ text "VBE se: 0x%x " (word mboot.vbe_interface_seg ∷ [])
    ∷ text "VBE of: 0x%x " (word mboot.vbe_interface_off ∷ [])
    ∷ text "VBE le: 0x%x\n" (word mboot.vbe_interface_len ∷ [])
    ∷ []

-- The line of a module, and those of the modules from `i` on, of which `n` are left.
unfoldable pub module_shown : ℕ → ℕ → Bytes → List Shown
module_shown i mods_addr m =
    let start = field32 (u32 (mods_addr + 4 * (8 * i))) m in
    let end = field32 (u32 (mods_addr + 8 * i + 4)) m in
    text "Module %d is at 0x%x:0x%x\n" (word (u32 (i + 1)) ∷ word start ∷ word end ∷ []) ∷ []

unfoldable pub modules_shown : ℕ → ℕ → ℕ → Bytes → List Shown
unfolding module_shown
modules_shown zero i mods_addr m = []
modules_shown (suc n) i mods_addr m =
    module_shown i mods_addr m ++ modules_shown n (i + 1) mods_addr m

-- The lines that stand under a flag.
abbrev pub given : Bool → List Shown → List Shown
given true shown = shown
given false shown = []

unfoldable pub memory_shown : Multiboot → List Shown
memory_shown mboot =
    text "%dkB lower memory\n" (word mboot.mem_lower ∷ [])
    ∷ text "%dkB higher memory " (word mboot.mem_upper ∷ [])
    ∷ text "(%dMB)\n" (word (mboot.mem_upper / 1024) ∷ [])
    ∷ []

unfoldable pub multiboot_shown : (ℕ → List ℕ) → ℕ → Multiboot → Bytes → List Shown
unfolding fields_shown memory_shown modules_shown
multiboot_shown text_at address mboot m =
    fields_shown address mboot
    ++ given (bit mboot.flags 2)
        (text "Started with: %s\n" (string (text_at mboot.cmdline) ∷ []) ∷ [])
    ++ given (bit mboot.flags 9)
        (text "Booted from: %s\n" (string (text_at mboot.boot_loader_name) ∷ []) ∷ [])
    ++ given (bit mboot.flags 0) (memory_shown mboot)
    ++ given (bit mboot.flags 3) (
        text "Found %d module(s).\n" (word mboot.mods_count ∷ [])
        ∷ modules_shown mboot.mods_count 0 mboot.mods_addr m)

-- ===== src/Entry/Shown.antt =====
-- What `multiboot_print` of kernel/include/kernel/multiboot.h leaves of the terminal.
use comet_os.Base.{
  ℕ, zero, suc, ◌+◌, ◌/◌, ◌≡◌, refl, ◌∙◌, List, [], ◌∷◌, ◌++◌, some, bit, true, false, Bool,
}
use comet_os.Libc.Mem.{Bytes}
use comet_os.Libc.Stdio.{convert_integer, word, string, printf}
use comet_os.Libc.Stdio.Forward.{forward, forward-append, signed-forward, hexadecimal-forward}
use comet_os.Terminal.{Terminal}
use comet_os.Terminal.Output.{IsValid, Keeps}
use comet_os.Console.{Shown, text, show, codes}
use comet_os.Console.Keeps.{Prints, prints, Forward, Forward-append, show-Keeps}
use comet_os.Entry.{Multiboot}
use comet_os.Entry.Output.{
  fields_shown, module_shown, modules_shown, given, memory_shown, multiboot_shown,
}

fields_shown-Forward : (address : ℕ) (mboot : Multiboot) → Forward (fields_shown address mboot)
unfolding fields_shown printf
fields_shown-Forward address mboot = (
  prints refl (hexadecimal-forward address (b':' ∷ 10 ∷ [])),
  (
    prints refl (hexadecimal-forward mboot.flags (b' ' ∷ [])),
    (
      prints refl (hexadecimal-forward mboot.mem_lower (b' ' ∷ [])),
      (
        prints refl (hexadecimal-forward mboot.mem_upper (b' ' ∷ [])),
        (
          prints refl (hexadecimal-forward mboot.boot_device (10 ∷ [])),
          (
            prints refl (hexadecimal-forward mboot.cmdline (b' ' ∷ [])),
            (
              prints refl (hexadecimal-forward mboot.mods_count (b' ' ∷ [])),
              (
                prints refl (hexadecimal-forward mboot.mods_addr (b' ' ∷ [])),
                (
                  prints refl (hexadecimal-forward mboot.num (10 ∷ [])),
                  (
                    prints refl (hexadecimal-forward mboot.size (b' ' ∷ [])),
                    (
                      prints refl (hexadecimal-forward mboot.addr (b' ' ∷ [])),
                      (
                        prints refl (hexadecimal-forward mboot.shndx (b' ' ∷ [])),
                        (
                          prints refl (hexadecimal-forward mboot.mmap_length (10 ∷ [])),
                          (
                            prints refl (hexadecimal-forward mboot.mmap_addr (b' ' ∷ [])),
                            (
                              prints refl (hexadecimal-forward mboot.drives_length (b' ' ∷ [])),
                              (
                                prints refl (hexadecimal-forward mboot.drives_addr (b' ' ∷ [])),
                                (
                                  prints refl (hexadecimal-forward mboot.config_table (10 ∷ [])),
                                  (
                                    prints refl
                                        (hexadecimal-forward mboot.boot_loader_name (b' ' ∷ [])),
                                    (
                                      prints refl (hexadecimal-forward mboot.apm_table (b' ' ∷ [])),
                                      (
                                        prints refl (
                                            hexadecimal-forward mboot.vbe_control_info (b' ' ∷ [])),
                                        (
                                          prints refl
                                              (hexadecimal-forward mboot.vbe_mode_info (10 ∷ [])),
                                          (
                                            prints refl
                                                (hexadecimal-forward mboot.vbe_mode (b' ' ∷ [])),
                                            (
                                              prints refl (
                                                  hexadecimal-forward mboot.vbe_interface_seg
                                                    (b' ' ∷ [])),
                                              (
                                                prints refl (
                                                    hexadecimal-forward mboot.vbe_interface_off
                                                      (b' ' ∷ [])),
                                                (
                                                  prints refl (
                                                      hexadecimal-forward mboot.vbe_interface_len
                                                        (10 ∷ [])),
                                                  tt,
                                                ),
                                              ),
                                            ),
                                          ),
                                        ),
                                      ),
                                    ),
                                  ),
                                ),
                              ),
                            ),
                          ),
                        ),
                      ),
                    ),
                  ),
                ),
              ),
            ),
          ),
        ),
      ),
    ),
  ),
)

module_line :
    (i start end : ℕ)
    → Prints (codes "Module %d is at 0x%x:0x%x\n") (word i ∷ word start ∷ word end ∷ [])
unfolding printf
module_line i start end =
    let behind : List ℕ = convert_integer end 16 false ++ 10 ∷ [] in
    let second : List ℕ = convert_integer start 16 false ++ (codes ":0x" ++ behind) in
    prints refl (
      signed-forward i (codes " is at 0x" ++ second)
      ∙ forward-append (codes " is at 0x") second refl
      ∙ hexadecimal-forward start (codes ":0x" ++ behind)
      ∙ forward-append (codes ":0x") behind refl
      ∙ hexadecimal-forward end (10 ∷ []))

modules_shown-Forward : (n i mods_addr : ℕ) (m : Bytes) → Forward (modules_shown n i mods_addr m)
unfolding modules_shown module_shown
modules_shown-Forward zero i mods_addr m = tt
modules_shown-Forward (suc n) i mods_addr m =
    (module_line _ _ _, modules_shown-Forward n (i + 1) mods_addr m)

memory_shown-Forward : (mboot : Multiboot) → Forward (memory_shown mboot)
unfolding memory_shown printf
memory_shown-Forward mboot = (
  prints refl (signed-forward mboot.mem_lower (codes "kB lower memory\n")),
  (
    prints refl (signed-forward mboot.mem_upper (codes "kB higher memory ")),
    (prints refl (signed-forward (mboot.mem_upper / 1024) (codes "MB)\n")), tt),
  ),
)

given-Forward : (b : Bool) (shown : List Shown) → Forward shown → Forward (given b shown)
given-Forward true shown h = h
given-Forward false shown h = tt

started : (cs : List ℕ) → forward cs ≡ true → Prints (codes "Started with: %s\n") (string cs ∷ [])
unfolding printf
started cs h = prints refl (forward-append cs (10 ∷ []) h)

booted : (cs : List ℕ) → forward cs ≡ true → Prints (codes "Booted from: %s\n") (string cs ∷ [])
unfolding printf
booted cs h = prints refl (forward-append cs (10 ∷ []) h)

found : (n : ℕ) → Prints (codes "Found %d module(s).\n") (word n ∷ [])
unfolding printf
found n = prints refl (signed-forward n (codes " module(s).\n"))

-- For every header of the boot loader, where its command line and its name have no backspace, what
-- `multiboot_print` shows from a valid state of the terminal is shown to its end: each format fits its
-- arguments, the terminal's state is valid after it, and no cell behind the screen is written.
pub multiboot_shown-Keeps :
    (text_at : ℕ → List ℕ) (address : ℕ) (mboot : Multiboot) (m : Bytes) (t : Terminal)
    → IsValid t
    → forward (text_at mboot.cmdline) ≡ true
    → forward (text_at mboot.boot_loader_name) ≡ true
    → (u : Terminal) × (show (multiboot_shown text_at address mboot m) t ≡ some u) × Keeps t u
unfolding multiboot_shown
multiboot_shown-Keeps text_at address mboot m t v line name =
    let line_shown : List Shown =
      text "Started with: %s\n" (string (text_at mboot.cmdline) ∷ []) ∷ [] in
    let name_shown : List Shown =
      text "Booted from: %s\n" (string (text_at mboot.boot_loader_name) ∷ []) ∷ [] in
    let found_shown : List Shown =
      text "Found %d module(s).\n" (word mboot.mods_count ∷ [])
      ∷ modules_shown mboot.mods_count 0 mboot.mods_addr m in
    let shown2 : List Shown = given (bit mboot.flags 2) line_shown in
    let shown9 : List Shown = given (bit mboot.flags 9) name_shown in
    let shown0 : List Shown = given (bit mboot.flags 0) (memory_shown mboot) in
    let shown3 : List Shown = given (bit mboot.flags 3) found_shown in
    let fields : List Shown = fields_shown address mboot in
    let all2 =
      Forward-append fields shown2 (fields_shown-Forward address mboot)
        (given-Forward (bit mboot.flags 2) line_shown (started (text_at mboot.cmdline) line, tt)) in
    let all9 = Forward-append (fields ++ shown2) shown9 all2 (
      given-Forward (bit mboot.flags 9) name_shown
        (booted (text_at mboot.boot_loader_name) name, tt)) in
    let all0 =
      Forward-append (fields ++ shown2 ++ shown9) shown0 all9
        (given-Forward (bit mboot.flags 0) (memory_shown mboot) (memory_shown-Forward mboot)) in
    let all3 = Forward-append (fields ++ shown2 ++ shown9 ++ shown0) shown3 all0 (
      given-Forward (bit mboot.flags 3) found_shown
        (found mboot.mods_count, modules_shown-Forward mboot.mods_count 0 mboot.mods_addr m)) in
    let (u, made, kept, color) = show-Keeps (multiboot_shown text_at address mboot m) t v all3 in
    (u, made, kept)
